-- ===== src/Server/Sender/Fills.antt =====
-- What `RrqSender::fill_window` puts in flight: the next blocks of the encoded file, numbered.
use atftp.Blocks.Stream.{
  IsBlock, IsHonest, SourceLaws, stream, fill_pending_stream, fill_pending_ends, cut_lem,
}
use atftp.Blocks.{Feed, fill_pending, cut}
use atftp.Common.{
  ℕ, zero, suc, ◌+◌, ◌≡◌, ◌<◌, ◌≤◌, ◌⊎◌, inl, inr, refl, sym, ap, ap₂, ◌∙◌, Bool, true, false, List,
  [], ◌∷◌, ◌++◌, Option, none, some, length, ltb, Bytes, Bool-cases, append_assoc, append-nil,
  length-append, arith,
}
use atftp.Error.{ok, ◌>>=◌, >>=-eq-ok}
use atftp.Files.{Files, FilesLaws, Attempt, done, failed, from_io}
use atftp.Server.{Negotiated}
use atftp.Server.Sender.{
  Sender, read_file, take_block, read_one_block, push_back, put_in_flight, fill_places, fill_window,
}
use atftp.Window.{Frame, wrapping_add}

-- Blocks with the numbers from `n` on, modulo 2 ^ 16.
abbrev pub number : ℕ → List Bytes → List Frame
number n [] = []
number n (d ∷ ds) = (n, d) ∷ number (wrapping_add n 1) ds

abbrev pub number_behind : ℕ → List Bytes → ℕ
number_behind n [] = n
number_behind n (d ∷ ds) = number_behind (wrapping_add n 1) ds

-- Blocks are cut off a text one by one: full ones, and a shorter one where the text ends. The
-- Booleans say whether the shorter one has been cut, at the start and at the end.
abbrev pub Cuts : ℕ → Bytes → Bool → List Bytes → Bytes → Bool → Type 0
Cuts blksize text over [] text' over' = (text ≡ text') × (over ≡ over')
Cuts blksize text over (d ∷ ds) text' over' =
    (over ≡ false)
    × ((rest : Bytes) × (last : Bool) × (text ≡ d ++ rest)
        × IsBlock blksize d rest last
        × Cuts blksize rest last ds text' over')

module _ (fs : Files) (laws : FilesLaws fs) where
  pub from_io-eq-ok {ℓ} : {A : Type ℓ} (a : Attempt A) {x : A} → from_io a ≡ ok x → a ≡ done x
  from_io-eq-ok (done a) e = cc
  from_io-eq-ok (failed kind) e = cc

  abbrev pub source_laws : SourceLaws (read_file fs)
  source_laws = record {
    content = laws.content;
    read_front = λ h h' n bs e. laws.read_front h h' n bs (from_io-eq-ok (fs.read h n) e);
    read_end = λ h h' n pos e. laws.read_end h h' n pos (from_io-eq-ok (fs.read h n) e);
  }

  -- What is still to be read and encoded, or waits in `pending`.
  abbrev pub unsent : Sender fs → Bytes
  unsent s = stream (read_file fs) s.encoder source_laws s.feed

  -- `eof` is only set where the file has ended, and the parameters are positive.
  pub record IsSending (s : Sender fs) : Type 0 where
    pub honest : IsHonest (read_file fs) s.encoder source_laws s.feed
    pub blksize : 0 < s.neg.blksize
    pub windowsize : 0 < s.neg.windowsize

  -- The parameters of a sender do not change.
  pub record IsSame (s s' : Sender fs) : Type 0 where
    pub peer : s'.peer ≡ s.peer
    pub cfg : s'.cfg ≡ s.cfg
    pub neg : s'.neg ≡ s.neg

  pub read_over : (s : Sender fs) → s.last_sent_short ≡ true → read_one_block fs s ≡ ok (none, s)
  read_over s h = unfold read_one_block in simp (h, read_one_block)

  pub read_more :
      (s : Sender fs)
      → s.last_sent_short ≡ false
      → read_one_block fs s ≡ (
          fill_pending (read_file fs) s.encoder (s.neg.blksize + 1) s.neg.blksize s.feed >>= λ feed.
          ok (take_block fs s (cut s.neg.blksize feed)))
  read_more s h = unfold read_one_block in simp (h, read_one_block)

  -- A block that is read is the next of the text.
  abbrev pub TakesBlock : Sender fs → Bytes → Sender fs → Type 0
  TakesBlock s block s' =
      IsSending s'
      × (unsent s ≡ block ++ unsent s')
      × IsBlock s.neg.blksize block (unsent s') s'.last_sent_short
      × IsSame s s'
      × (s'.in_flight ≡ s.in_flight)
      × (s'.next_block ≡ s.next_block)

  taken :
      (s s' : Sender fs) (block : Bytes) (feed : Feed fs.Handle) (c : Bytes × Feed fs.Handle × Bool)
      → IsSending s
      → stream (read_file fs) s.encoder source_laws feed ≡ unsent s
      → (let (b, feed', last) = c in
          (stream (read_file fs) s.encoder source_laws feed
            ≡ b ++ stream (read_file fs) s.encoder source_laws feed')
          × IsHonest (read_file fs) s.encoder source_laws feed'
          × IsBlock s.neg.blksize b (stream (read_file fs) s.encoder source_laws feed') last)
      → take_block fs s c ≡ (some block, s')
      → TakesBlock s block s'
  taken s s' block feed (b, feed', last) w same (split, honest, is) e =
      let block_is : b ≡ block = cc in
      let s'_is : record s { feed = feed'; last_sent_short = last } ≡ s' = cc in
      rw (← block_is, ← s'_is)
        (
          record { honest = honest; blksize = w.blksize; windowsize = w.windowsize },
          sym same ∙ split,
          is,
          record { peer = refl; cfg = refl; neg = refl },
          refl,
          refl,
        )

  ok-injective {ℓ} : {A : Type ℓ} {a b : A} → ok a ≡ ok b → a ≡ b
  ok-injective e = cc

  pub read_one_block_lem :
      (s s' : Sender fs) (block : Bytes)
      → s.last_sent_short ≡ false
      → IsSending s
      → read_one_block fs s ≡ ok (some block, s')
      → TakesBlock s block s'
  read_one_block_lem s s' block open_ w e =
      let (feed, filled, e₁) =
        >>=-eq-ok (fill_pending (read_file fs) s.encoder (s.neg.blksize + 1) s.neg.blksize s.feed)
          (λ feed. ok (take_block fs s (cut s.neg.blksize feed))) (sym (read_more s open_) ∙ e) in
      let (same, honest) =
        fill_pending_stream (read_file fs) s.encoder source_laws (s.neg.blksize + 1) s.neg.blksize
          s.feed feed w.blksize w.honest filled in
      let full =
        fill_pending_ends (read_file fs) s.encoder (s.neg.blksize + 1) s.neg.blksize s.feed feed
          (omega arith) filled in
      let cut_is =
        cut_lem (read_file fs) s.encoder source_laws s.neg.blksize feed w.blksize honest full in
      taken s s' block feed (cut s.neg.blksize feed) w same cut_is (ok-injective e₁)

  -- The window is full, or the last block is in it.
  abbrev pub IsFull : Sender fs → Type 0
  IsFull s = (s.neg.windowsize ≤ length s.in_flight) ⊎ (s.last_sent_short ≡ true)

  -- What filling the window with `blocks` does.
  pub record Fills (s : Sender fs) (blocks : List Bytes) (s' : Sender fs) : Type 0 where
    pub sending : IsSending s'
    pub cuts : Cuts s.neg.blksize (unsent s) s.last_sent_short blocks (unsent s') s'.last_sent_short
    pub same : IsSame s s'
    pub in_flight : s'.in_flight ≡ s.in_flight ++ number s.next_block blocks
    pub next_block : s'.next_block ≡ number_behind s.next_block blocks
    pub full : IsFull s'

  no_more_placed : (s s' : Sender fs) → IsSending s → IsFull s → s ≡ s' → Fills s [] s'
  no_more_placed s s' w f e = rw (← e) record {
    sending = w;
    cuts = (refl, refl);
    same = record { peer = refl; cfg = refl; neg = refl };
    in_flight = sym (append-nil s.in_flight);
    next_block = refl;
    full = f;
  }

  one_more_placed :
      (s s₁ s' : Sender fs) (block : Bytes) (blocks : List Bytes)
      → s.last_sent_short ≡ false
      → TakesBlock s block s₁
      → Fills (push_back fs s₁ block) blocks s'
      → Fills s (block ∷ blocks) s'
  one_more_placed s s₁ s' block blocks open_ (w, text, is, same, flight, next) f = record {
    sending = f.sending;
    cuts = (open_, (unsent s₁, s₁.last_sent_short, text, is, (rw same.neg at f.cuts)));
    same = record {
      peer = f.same.peer ∙ same.peer;
      cfg = f.same.cfg ∙ same.cfg;
      neg = f.same.neg ∙ same.neg;
    };
    in_flight =
        f.in_flight
        ∙ append_assoc s₁.in_flight ((s₁.next_block, block) ∷ []) _
        ∙ ap₂ (λ (q : List Frame) (n : ℕ). q ++ number n (block ∷ blocks)) flight next;
    next_block = f.next_block ∙ ap (λ (n : ℕ). number_behind (wrapping_add n 1) blocks) next;
    full = f.full;
  }

  pub places_none :
      (places : ℕ) (s : Sender fs)
      → ltb (length s.in_flight) s.neg.windowsize ≡ false
      → fill_places fs (suc places) s ≡ ok s
  places_none places s h = unfold fill_places in simp (h, fill_places)

  pub places_some :
      (places : ℕ) (s : Sender fs)
      → ltb (length s.in_flight) s.neg.windowsize ≡ true
      → fill_places fs (suc places) s
        ≡ (read_one_block fs s >>= put_in_flight fs (fill_places fs places))
  places_some places s h = unfold fill_places in simp (h, fill_places)

  not_none :
      {P : Type 0} (s s' : Sender fs)
      → s.last_sent_short ≡ false
      → read_one_block fs s ≡ ok (none, s')
      → P
  not_none s s' open_ e =
      let (feed, filled, e₁) =
        >>=-eq-ok (fill_pending (read_file fs) s.encoder (s.neg.blksize + 1) s.neg.blksize s.feed)
          (λ feed. ok (take_block fs s (cut s.neg.blksize feed))) (sym (read_more s open_) ∙ e) in
      cc

  length-push_back :
      (s : Sender fs) (block : Bytes)
      → length (push_back fs s block).in_flight ≡ length s.in_flight + 1
  length-push_back s block = length-append s.in_flight ((s.next_block, block) ∷ [])

  room :
      (s s₁ : Sender fs) (block : Bytes) (places : ℕ)
      → s₁.neg.windowsize ≡ s.neg.windowsize
      → length s₁.in_flight ≡ length s.in_flight
      → s.neg.windowsize ≤ length s.in_flight + suc places
      → s₁.neg.windowsize ≤ length (push_back fs s₁ block).in_flight + places
  room s s₁ block places size flight enough = omega (arith, length-push_back s₁ block)

  pub fill_places_lem :
      (places : ℕ) (s s' : Sender fs)
      → IsSending s
      → s.neg.windowsize ≤ length s.in_flight + places
      → fill_places fs places s ≡ ok s'
      → (blocks : List Bytes) × Fills s blocks s'
  fill_places_lem zero s s' w enough e =
      ([], no_more_placed s s' w (inl (omega arith)) (ok-injective (unfold fill_places in e)))
  fill_places_lem (suc places) s s' w enough e =
      elim (Bool-cases (ltb (length s.in_flight) s.neg.windowsize)) [
        | inr over ↦ (
          [],
          no_more_placed s s' w (inl (ground arith))
              (ok-injective (sym (places_none places s over) ∙ e)),
        )
        | inl free ↦
            let (got, read, e₁) =
              >>=-eq-ok (read_one_block fs s) (put_in_flight fs (fill_places fs places))
                (sym (places_some places s free) ∙ e) in
            go got read e₁ (λ s₁ v n k. fill_places_lem places s₁ s' v n k)
      ]
    where
      go :
          (got : Option Bytes × Sender fs)
          → read_one_block fs s ≡ ok got
          → put_in_flight fs (fill_places fs places) got ≡ ok s'
          → ((s₁ : Sender fs)
              → IsSending s₁
              → s₁.neg.windowsize ≤ length s₁.in_flight + places
              → fill_places fs places s₁ ≡ ok s'
              → (blocks : List Bytes) × Fills s₁ blocks s')
          → (blocks : List Bytes) × Fills s blocks s'
      go (none, s₁) read e₁ ih = elim (Bool-cases s.last_sent_short) [
        | inr open_ ↦ not_none s s₁ open_ read
        | inl over ↦
            ([], no_more_placed s s' w (inr over) (let same = sym (read_over s over) ∙ read in cc))
      ]
      go (some block, s₁) read e₁ ih = elim (Bool-cases s.last_sent_short) [
        | inl over ↦ absurd (let same = sym (read_over s over) ∙ read in cc)
        | inr open_ ↦
            let takes = read_one_block_lem s s₁ block open_ w read in
            let (blocks, f) =
              ih (push_back fs s₁ block)
                (record {
                  honest = takes.0.honest;
                  blksize = takes.0.blksize;
                  windowsize = takes.0.windowsize;
                })
                (room s s₁ block places (ap (λ (n : Negotiated). n.windowsize) takes.3.neg)
                  (ap (length {A = Frame}) takes.4) enough)
                e₁ in
            (block ∷ blocks, one_more_placed s s₁ s' block blocks open_ takes f)
      ]

  -- Filling the window takes the next blocks of the file off what is still to be sent, one after
  -- the other, each full but for the last of the file, and puts them in flight under the next
  -- block numbers; then the window is full, or the last block has been taken.
  pub fill_window-Fills :
      (s s' : Sender fs)
      → IsSending s
      → fill_window fs s ≡ ok s'
      → (blocks : List Bytes) × Fills s blocks s'
  fill_window-Fills s s' w e =
      fill_places_lem s.neg.windowsize s s' w (omega arith) (unfold fill_window in e)
