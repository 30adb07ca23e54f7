-- ===== src/Blocks/Stream.antt =====
-- The blocks that are cut, in order, are the encoded source: no byte is lost or added.
use native.Mathlib.Decide.{dec_le}
use atftp.Common.{
  ap₂, length-drop, &&-eq-true, ℕ, zero, suc, ◌+◌, ◌<◌, ◌≤◌, ◌≡◌, ◌⊎◌, inl, inr, refl, sym, ap, ◌∙◌,
  Bool, true, false, not, ◌&&◌, [], ◌∷◌, ◌++◌, length, take, drop, min, arith, ltb, if◌then◌else◌,
  Bytes, length-take, length-append, take-append-drop, append_assoc, Bool-cases,
}
use atftp.Blocks.{Feed, extend, after_read, fill_pending, is_nil, cut_front, cut}
use atftp.Error.{Result, ok, err, ◌>>=◌}
use atftp.Netascii.Chunks.{wire, wire-append, push_all_lem}
use atftp.Netascii.RoundTrip.{length-wire}

-- What a text is on the wire, in the mode of the transfer.
abbrev pub encoded : Bool → Bytes → Bytes
encoded encoder s = if encoder then wire s else s

pub encoded-append :
    (encoder : Bool) (s t : Bytes)
    → encoded encoder (s ++ t) ≡ encoded encoder s ++ encoded encoder t
encoded-append true s t = wire-append s t
encoded-append false s t = refl

extend_lem :
    (encoder : Bool) (chunk pending : Bytes)
    → extend encoder chunk pending ≡ pending ++ encoded encoder chunk
extend_lem true chunk pending = unfold extend in push_all_lem chunk pending
extend_lem false chunk pending = unfold extend in refl

ok-injective {ℓ} : {A : Type ℓ} {a b : A} → ok a ≡ ok b → a ≡ b
ok-injective e = cc

true-not : {b : Bool} → not b ≡ true → b ≡ true → ⊥
true-not {b} h k = ground arith

pub length-encoded : (encoder : Bool) (s : Bytes) → length s ≤ length (encoded encoder s)
length-encoded true s = (length-wire s).0
length-encoded false s = omega arith

encoded-nil : (encoder : Bool) → encoded encoder [] ≡ []
encoded-nil true = refl
encoded-nil false = refl

is_nil_lem : (s : Bytes) → is_nil s ≡ true → s ≡ []
is_nil_lem [] h = refl
is_nil_lem (b ∷ s) h = cc

length_zero : (s : Bytes) → length s ≡ 0 → s ≡ []
length_zero [] h = refl
length_zero (b ∷ s) h = absurd (omega arith)

-- A block is full, or it is the last and nothing of the stream is left behind it.
abbrev pub IsBlock : ℕ → Bytes → Bytes → Bool → Type 0
IsBlock blksize block rest last =
    ((length block ≡ blksize) × (last ≡ false))
    ⊎ ((length block < blksize) × (last ≡ true) × (rest ≡ []))

-- The laws of a source: `content` is what is left of it.
pub record SourceLaws {H : Type 0} (read : H → ℕ → Result (Bytes × H)) : Type 0 where
  pub content : H → Bytes
  pub read_front :
      (h h' : H) (n : ℕ) (bs : Bytes) → read h n ≡ ok (bs, h') → content h ≡ bs ++ content h'
  pub read_end : (h h' : H) (n : ℕ) → 0 < n → read h n ≡ ok ([], h') → content h ≡ []

module _ {H : Type 0} (read : H → ℕ → Result (Bytes × H)) (encoder : Bool) where
  abbrev may_read : ℕ → Feed H → Bool
  may_read blksize feed = ltb (length feed.pending) blksize && not feed.eof

  fill_pending_stop :
      (fuel blksize : ℕ) (feed : Feed H)
      → may_read blksize feed ≡ false
      → fill_pending read encoder (suc fuel) blksize feed ≡ ok feed
  fill_pending_stop fuel blksize feed h = unfold fill_pending in rw (h, fill_pending)

  fill_pending_read :
      (fuel blksize : ℕ) (feed : Feed H)
      → may_read blksize feed ≡ true
      → fill_pending read encoder (suc fuel) blksize feed ≡ (
          read feed.source blksize
          >>= after_read read encoder (fill_pending read encoder fuel blksize) feed)
  fill_pending_read fuel blksize feed h = unfold fill_pending in rw (h, fill_pending)

  length-extend :
      (b : ℕ) (bs pending : Bytes) → length pending < length (extend encoder (b ∷ bs) pending)
  length-extend b bs pending =
      let grows : length pending < length (pending ++ encoded encoder (b ∷ bs)) = omega (
        arith,
        length-append pending (encoded encoder (b ∷ bs)),
        length-encoded encoder (b ∷ bs),
      ) in
      rw (← extend_lem encoder (b ∷ bs) pending) at grows

  stopped :
      (blksize : ℕ) (feed : Feed H)
      → may_read blksize feed ≡ false
      → (blksize ≤ length feed.pending) ⊎ (feed.eof ≡ true)
  stopped blksize feed h = ground arith

  -- With fuel for every byte that is missing, and one round more, the loop ends by its test.
  pub fill_pending_ends :
      (fuel blksize : ℕ) (feed feed' : Feed H)
      → blksize < length feed.pending + fuel
      → fill_pending read encoder fuel blksize feed ≡ ok feed'
      → (blksize ≤ length feed'.pending) ⊎ (feed'.eof ≡ true)
  fill_pending_ends zero blksize feed feed' enough e = inl (unfold fill_pending in ground arith)
  fill_pending_ends (suc fuel) blksize feed feed' enough e =
      elim (Bool-cases (may_read blksize feed)) [
        | inl reads ↦
            go (read feed.source blksize) (sym (fill_pending_read fuel blksize feed reads) ∙ e)
              (λ f more. fill_pending_ends fuel blksize f feed' more)
        | inr stops ↦
            rw (← ok-injective (sym (fill_pending_stop fuel blksize feed stops) ∙ e))
              (stopped blksize feed stops)
      ]
    where
      go :
          (r : Result (Bytes × H))
          → (r >>= after_read read encoder (fill_pending read encoder fuel blksize) feed) ≡ ok feed'
          → ((f : Feed H)
              → blksize < length f.pending + fuel
              → fill_pending read encoder fuel blksize f ≡ ok feed'
              → (blksize ≤ length feed'.pending) ⊎ (feed'.eof ≡ true))
          → (blksize ≤ length feed'.pending) ⊎ (feed'.eof ≡ true)
      go (err x) e' ih = cc
      go (ok ([], h)) e' ih = inr (ap (λ (f : Feed H). f.eof) (sym (ok-injective e')))
      go (ok (b ∷ bs, h)) e' ih =
          ih (record feed { source = h; pending = extend encoder (b ∷ bs) feed.pending })
            (omega (arith, length-extend b bs feed.pending)) e'

module _ {H : Type 0} (read : H → ℕ → Result (Bytes × H)) (encoder : Bool)
    (laws : SourceLaws read) where
  -- What is still to be sent.
  abbrev pub stream : Feed H → Bytes
  stream feed = feed.pending ++ encoded encoder (laws.content feed.source)

  -- At the end of the source nothing is left to read.
  abbrev pub IsHonest : Feed H → Type 0
  IsHonest feed = feed.eof ≡ true → laws.content feed.source ≡ []

  stream-after_read :
      (feed : Feed H) (b : ℕ) (bs : Bytes) (h : H) (n : ℕ)
      → read feed.source n ≡ ok (b ∷ bs, h)
      → stream (record feed { source = h; pending = extend encoder (b ∷ bs) feed.pending })
        ≡ stream feed
  stream-after_read feed b bs h n e =
      ap (λ (p : Bytes). p ++ encoded encoder (laws.content h))
        (extend_lem encoder (b ∷ bs) feed.pending)
      ∙ append_assoc feed.pending (encoded encoder (b ∷ bs)) _
      ∙ ap (λ (s : Bytes). feed.pending ++ s)
          (sym (
            ap (encoded encoder) (laws.read_front feed.source h n (b ∷ bs) e)
            ∙ encoded-append encoder (b ∷ bs) _))

  abbrev pub Filled : Feed H → Feed H → Type 0
  Filled feed feed' = (stream feed' ≡ stream feed) × IsHonest feed'

  -- The source has ended.
  Filled-end :
      (feed : Feed H) (h : H) (blksize : ℕ)
      → 0 < blksize
      → read feed.source blksize ≡ ok ([], h)
      → Filled feed (record feed { source = h; eof = true })
  Filled-end feed h blksize pos e =
      let nothing = laws.read_end feed.source h blksize pos e in
      let left : laws.content h ≡ [] = sym (laws.read_front feed.source h blksize [] e) ∙ nothing in
      (ap (λ (c : Bytes). feed.pending ++ encoded encoder c) (left ∙ sym nothing), λ _. left)

  Filled-self : (feed feed' : Feed H) → feed ≡ feed' → IsHonest feed → Filled feed feed'
  Filled-self feed feed' e honest = rw (← e) (refl, honest)

  not_at_end :
      {P : Type 0} (blksize : ℕ) (feed : Feed H)
      → may_read read encoder blksize feed ≡ true
      → feed.eof ≡ true
      → P
  not_at_end blksize feed h k =
      let (_, open_) = &&-eq-true (ltb (length feed.pending) blksize) (not feed.eof) h in
      absurd (true-not open_ k)

  -- For a source that obeys its laws and a positive block size, the fill loop moves bytes from the
  -- source to `pending`, encoded in the mode of the transfer, and neither loses nor adds one: what
  -- is still to be sent stays the same, and where it has found the end nothing is left to read.
  pub fill_pending_stream :
      (fuel blksize : ℕ) (feed feed' : Feed H)
      → 0 < blksize
      → IsHonest feed
      → fill_pending read encoder fuel blksize feed ≡ ok feed'
      → Filled feed feed'
  fill_pending_stream zero blksize feed feed' pos honest e =
      Filled-self feed feed' (unfold fill_pending in cc) honest
  fill_pending_stream (suc fuel) blksize feed feed' pos honest e =
      elim (Bool-cases (may_read read encoder blksize feed)) [
        | inl reads ↦
            go (read feed.source blksize) refl
              (sym (fill_pending_read read encoder fuel blksize feed reads) ∙ e) reads
              (λ f h. fill_pending_stream fuel blksize f feed' pos h)
        | inr stops ↦
            Filled-self feed feed'
              (ok-injective (sym (fill_pending_stop read encoder fuel blksize feed stops) ∙ e))
              honest
      ]
    where
      go :
          (r : Result (Bytes × H))
          → read feed.source blksize ≡ r
          → (r >>= after_read read encoder (fill_pending read encoder fuel blksize) feed) ≡ ok feed'
          → may_read read encoder blksize feed ≡ true
          → ((f : Feed H)
              → IsHonest f
              → fill_pending read encoder fuel blksize f ≡ ok feed'
              → Filled f feed')
          → Filled feed feed'
      go (err x) read_is e' reads ih = cc
      go (ok ([], h)) read_is e' reads ih =
          rw (← ok-injective e') (Filled-end feed h blksize pos read_is)
      go (ok (b ∷ bs, h)) read_is e' reads ih =
          let more = record feed { source = h; pending = extend encoder (b ∷ bs) feed.pending } in
          let (same, honest') = ih more (λ ended. not_at_end blksize feed reads ended) e' in
          (same ∙ stream-after_read feed b bs h blksize read_is, honest')

  encoded_end :
      (feed : Feed H)
      → IsHonest feed
      → feed.eof ≡ true
      → encoded encoder (laws.content feed.source) ≡ []
  encoded_end feed honest ended = rw (honest ended) (encoded-nil encoder)

  split_front :
      (blksize : ℕ) (feed : Feed H)
      → stream feed ≡ (cut_front blksize feed).0 ++ stream (cut_front blksize feed).1
  split_front blksize feed =
      let n = min (length feed.pending) blksize in
      ap (λ (p : Bytes). p ++ encoded encoder (laws.content feed.source))
        (sym (take-append-drop n feed.pending))
      ∙ append_assoc (take n feed.pending) (drop n feed.pending) _

  full_front :
      (blksize : ℕ) (feed : Feed H)
      → blksize ≤ length feed.pending
      → (length (cut_front blksize feed).0 ≡ blksize) × ((cut_front blksize feed).2 ≡ false)
  full_front blksize feed enough =
      let full : length (cut_front blksize feed).0 ≡ blksize =
        omega (arith, length-take (min (length feed.pending) blksize) feed.pending) in
      (full, rw full (ground arith))

  -- At the end of the source the front is a full block or the rest of the stream.
  front_end :
      (blksize : ℕ) (feed : Feed H)
      → IsHonest feed
      → feed.eof ≡ true
      → IsBlock blksize
          (cut_front blksize feed).0
          (stream (cut_front blksize feed).1)
          (cut_front blksize feed).2
  front_end blksize feed honest ended = elim (dec_le blksize (length feed.pending)) [
    | yes enough ↦ inl (full_front blksize feed enough)
    | no short ↦
        let n = min (length feed.pending) blksize in
        let size : length (cut_front blksize feed).0 ≡ length feed.pending =
          omega (arith, length-take n feed.pending) in
        let rest : drop n feed.pending ≡ [] =
          length_zero (drop n feed.pending) (omega (arith, length-drop n feed.pending)) in
        inr (
          omega arith,
          rw size (ground arith),
          ap₂ (λ (p q : Bytes). p ++ q) rest (encoded_end feed honest ended),
        )
  ]

  cut_end :
      (blksize : ℕ) (feed : Feed H)
      → (is_nil feed.pending && feed.eof) ≡ true
      → cut blksize feed ≡ ([], feed, true)
  cut_end blksize feed h = unfold cut in rw h

  cut_more :
      (blksize : ℕ) (feed : Feed H)
      → (is_nil feed.pending && feed.eof) ≡ false
      → cut blksize feed ≡ cut_front blksize feed
  cut_more blksize feed h = unfold cut in rw h

  -- Where `pending` has enough for a block or the source has ended, the cut takes a full block off
  -- the front of what is still to be sent, or all that is left of it as the last, shorter block.
  pub cut_lem :
      (blksize : ℕ) (feed : Feed H)
      → 0 < blksize
      → IsHonest feed
      → (blksize ≤ length feed.pending) ⊎ (feed.eof ≡ true)
      → let (block, feed', last) = cut blksize feed in
        (stream feed ≡ block ++ stream feed')
        × IsHonest feed'
        × IsBlock blksize block (stream feed') last
  cut_lem blksize feed pos honest full = elim (Bool-cases (is_nil feed.pending && feed.eof)) [
    | inl over ↦
        let (none_pending, ended) = &&-eq-true (is_nil feed.pending) feed.eof over in
        let nothing : stream feed ≡ [] =
          ap₂ (λ (p q : Bytes). p ++ q) (is_nil_lem feed.pending none_pending)
            (encoded_end feed honest ended) in
        rw (cut_end blksize feed over) (refl, honest, inr (omega arith, refl, nothing))
    | inr more ↦ rw (cut_more blksize feed more) (
      split_front blksize feed,
      honest,
      elim full [
        | inl enough ↦ inl (full_front blksize feed enough)
        | inr ended ↦ front_end blksize feed honest ended
      ],
    )
  ]
