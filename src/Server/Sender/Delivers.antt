-- ===== src/Server/Sender/Delivers.antt =====
-- The whole of `RrqSender::run`: the file has been sent when it returns.
use atftp.Common.{
  subst, ℕ, zero, suc, ◌≡◌, ◌<◌, ◌⊎◌, inl, inr, refl, sym, ap, ◌∙◌, Bool, true, false, List, [],
  ◌∷◌, ◌++◌, length, Bytes, All-append, append_assoc, arith,
}
use atftp.Error.{Result, ok}
use atftp.Files.{Files, FilesLaws}
use atftp.Io.Receive.{ran-eq-ok, continue-eq-ok}
use atftp.Server.Sender.Adds.{Adds, Adds-trans, Adds-Within, Within, same_outbox}
use atftp.Server.Sender.Awaits.{Waits, await-Adds}
use atftp.Io.Sends.{Datagrams, Has, Has-append, Grows, Grows-self, Grows-trans}
use atftp.Io.{Net, continue, Ended, finished, panicked, out_of_fuel}
use atftp.Netascii.Chunks.{concat}
use atftp.Server.Sender.Fills.{
  number, number_behind, Cuts, unsent, IsSending, Fills, fill_window-Fills,
}
use atftp.Server.Sender.Loop.{none_in_flight, behind_window, await_move, turn, run}
use atftp.Server.Sender.Sends.{Sent, Sent-Grows, Sent-behind, Moves, await_lem}
use atftp.Server.Sender.{Sender, fill_window}
use atftp.Window.{Frame, wrapping_add}

Cuts-append :
    (blksize : ℕ) (ds es : List Bytes) (t t₁ t' : Bytes) (o o₁ o' : Bool)
    → Cuts blksize t o ds t₁ o₁
    → Cuts blksize t₁ o₁ es t' o'
    → Cuts blksize t o (ds ++ es) t' o'
Cuts-append blksize [] es t t₁ t' o o₁ o' (same, over) d = rw (same, over) d
Cuts-append blksize (b ∷ ds) es t t₁ t' o o₁ o' (open_, (rest, last, text, is, c)) d =
    (open_, (rest, last, text, is, Cuts-append blksize ds es rest t₁ t' last o₁ o' c d))

number-append :
    (n : ℕ) (ds es : List Bytes)
    → number n (ds ++ es) ≡ number n ds ++ number (number_behind n ds) es
number-append n [] es = refl
number-append n (d ∷ ds) es =
    ap (λ (fs : List Frame). (n, d) ∷ fs) (number-append (wrapping_add n 1) ds es)

-- Every block is full but the last, which is shorter (and may be empty).
abbrev pub IsCut : ℕ → List Bytes → Type 0
IsCut blksize [] = ⊥
IsCut blksize (d ∷ []) = length d < blksize
IsCut blksize (d ∷ e ∷ ds) = (length d ≡ blksize) × IsCut blksize (e ∷ ds)

pub none_in_flight_lem : (q : List Frame) → none_in_flight q ≡ true → q ≡ []
none_in_flight_lem [] h = refl
none_in_flight_lem (f ∷ q) h = cc

nothing_numbered :
    (q : List Frame) (n : ℕ) (blocks : List Bytes) → q ++ number n blocks ≡ [] → blocks ≡ []
nothing_numbered [] n [] h = refl
nothing_numbered [] n (d ∷ ds) h = cc
nothing_numbered (f ∷ q) n blocks h = cc

Has-right : {A : Type 0} (x : A) (l m : List A) → Has x m → Has x (l ++ m)
Has-right x [] m h = h
Has-right x (y ∷ l) m h = inr (Has-right x l m h)

Has-split : {A : Type 0} (x : A) (l m : List A) → Has x (l ++ m) → Has x l ⊎ Has x m
Has-split x [] m h = inr h
Has-split x (y ∷ l) m (inl is) = inl (inl is)
Has-split x (y ∷ l) m (inr h) = elim (Has-split x l m h) [ inl k ↦ inl (inr k) | inr k ↦ inr k ]

-- Two stretches of a run, one behind the other.
behind_both :
    (q : List Frame) (n : ℕ) (ds es : List Bytes) (q₁ q₂ : List Frame) (n₂ : ℕ) (a b c : Datagrams)
    → q₁ ≡ q ++ number n ds
    → n₂ ≡ number_behind n ds
    → Within q₂ q₁
    → Adds q₁ a b
    → Adds (q₂ ++ number n₂ es) b c
    → Adds (q ++ number n (ds ++ es)) a c
behind_both q n ds es q₁ q₂ n₂ a b c q_is n_is within ab bc =
    Adds-trans (q ++ number n (ds ++ es)) a b c
      (Adds-Within q₁ (q ++ number n (ds ++ es)) a b first ab)
      (Adds-Within (q₂ ++ number n₂ es) (q ++ number n (ds ++ es)) b c second bc)
  where
    whole : q ++ number n (ds ++ es) ≡ (q ++ number n ds) ++ number (number_behind n ds) es
    whole = ap (λ (l : List Frame). q ++ l) (number-append n ds es) ∙ sym (append_assoc q _ _)

    first : Within q₁ (q ++ number n (ds ++ es))
    first x has = rw whole (Has-append x (q ++ number n ds) _ (rw q_is at has))

    second : Within (q₂ ++ number n₂ es) (q ++ number n (ds ++ es))
    second x has = elim (Has-split x q₂ (number n₂ es) has) [
      | inl early ↦ first x (within x early)
      | inr late ↦ rw whole (Has-right x (q ++ number n ds) _ (rw n_is at late))
    ]

module _ (fs : Files) where
  pub run_form :
      (fuel : ℕ) (s : Sender fs) (net : Net)
      → run fs (suc fuel) s net
        ≡ continue
            (fill_window fs s)
            (λ s'. turn fs (run fs fuel) s' (none_in_flight s'.in_flight))
            net
  run_form fuel s net = unfold run in refl

module _ (fs : Files) (laws : FilesLaws fs) where
  -- From `s` on, these blocks were cut off the file, up to the last, and have been sent.
  pub record Delivers (s s' : Sender fs) (net net' : Net) : Type 0 where
    pub blocks : List Bytes
    pub rest : Bytes
    pub cuts : Cuts s.neg.blksize (unsent fs laws s) s.last_sent_short blocks rest true
    pub sent : Sent s.peer (number s.next_block blocks) net'.outbox
    pub grows : Grows net.outbox net'.outbox
    pub adds : Adds (s.in_flight ++ number s.next_block blocks) net.outbox net'.outbox

  abbrev Runs : ℕ → Type 0
  Runs fuel =
      (s s' : Sender fs) (net net' : Net)
      → IsSending fs laws s
      → run fs fuel s net ≡ (ok (finished s'), net')
      → Delivers s s' net net'

  -- The last block is among those that were cut before.
  none_left :
      (s s₁ : Sender fs) (blocks : List Bytes)
      → Fills fs laws s blocks s₁
      → none_in_flight s₁.in_flight ≡ true
      → (blocks ≡ []) × (s₁.last_sent_short ≡ true)
  none_left s s₁ blocks f h =
      let empty_ = none_in_flight_lem s₁.in_flight h in
      (
        nothing_numbered s.in_flight s.next_block blocks (sym f.in_flight ∙ empty_),
        elim f.full [
          | inl fits ↦ absurd (omega (arith, f.sending.windowsize, ap (length {A = Frame}) empty_))
          | inr last ↦ last
        ],
      )

  over_Delivers :
      (s s₁ s' : Sender fs) (blocks : List Bytes) (net net' : Net)
      → Fills fs laws s blocks s₁
      → none_in_flight s₁.in_flight ≡ true
      → ◌≡◌ {A = Result (Ended (Sender fs)) × Net} (ok (finished s₁), net) (ok (finished s'), net')
      → Delivers s s' net net'
  over_Delivers s s₁ s' blocks net net' f h e =
      let (nothing, last) = none_left s s₁ blocks f h in
      let net_is : net ≡ net' = cc in
      record {
        blocks = [];
        rest = unsent fs laws s₁;
        cuts = rw (nothing, last) at f.cuts;
        sent = tt;
        grows = rw (← net_is) (Grows-self net.outbox);
        adds = same_outbox _ net.outbox net'.outbox (ap (λ (n : Net). n.outbox) (sym net_is));
      }

  Moves-IsSending :
      (s s' : Sender fs) (net net' : Net)
      → Moves fs s s' net net'
      → IsSending fs laws s
      → IsSending fs laws s'
  Moves-IsSending s s' net net' (same, _) w =
      subst (IsSending fs laws) (sym same)
        record { honest = w.honest; blksize = w.blksize; windowsize = w.windowsize }

  goes_Delivers :
      (s s₁ s₂ s' : Sender fs) (blocks : List Bytes) (net mid net' : Net)
      → Fills fs laws s blocks s₁
      → Moves fs s₁ s₂ net mid
      → Waits fs s₁.in_flight s₁ s₂ net mid
      → Sent s₁.peer s₁.in_flight mid.outbox
      → Delivers s₂ s' mid net'
      → Delivers s s' net net'
  goes_Delivers s s₁ s₂ s' blocks net mid net' f (same, grows) (adds, within) window d = record {
    blocks = blocks ++ d.blocks;
    rest = d.rest;
    cuts =
        Cuts-append s.neg.blksize blocks d.blocks (unsent fs laws s) (unsent fs laws s₁) d.rest
          s.last_sent_short s₁.last_sent_short true f.cuts
          (rw
            (
              ap (λ (x : Sender fs). x.neg) same ∙ f.same.neg,
              ap (unsent fs laws) same,
              ap (λ (x : Sender fs). x.last_sent_short) same,
            )
            at d.cuts);
    sent = rw (number-append s.next_block blocks d.blocks) (
        All-append (λ (x : Frame). _) (number s.next_block blocks) _
          (Sent-Grows s.peer (number s.next_block blocks) mid.outbox net'.outbox d.grows (
            Sent-behind s.peer s.in_flight (number s.next_block blocks) mid.outbox
              (rw (f.same.peer, f.in_flight) at window)))
          (rw
            (
              ap (λ (x : Sender fs). x.peer) same ∙ f.same.peer,
              ap (λ (x : Sender fs). x.next_block) same ∙ f.next_block,
            )
            at d.sent));
    grows = Grows-trans net.outbox mid.outbox net'.outbox grows d.grows;
    adds =
        behind_both s.in_flight s.next_block blocks d.blocks s₁.in_flight s₂.in_flight s₂.next_block
          net.outbox mid.outbox net'.outbox f.in_flight
          (ap (λ (x : Sender fs). x.next_block) same ∙ f.next_block) within adds d.adds;
  }

  turns :
      (fuel : ℕ) (s s₁ s' : Sender fs) (blocks : List Bytes) (net net' : Net) (over : Bool)
      → Runs fuel
      → Fills fs laws s blocks s₁
      → none_in_flight s₁.in_flight ≡ over
      → turn fs (run fs fuel) s₁ over net ≡ (ok (finished s'), net')
      → Delivers s s' net net'
  turns fuel s s₁ s' blocks net net' true ih f h e = over_Delivers s s₁ s' blocks net net' f h e
  turns fuel s s₁ s' blocks net net' false ih f h e =
      let (end_, mid, waited, e₁) =
        ran-eq-ok (await_move fs s₁ net) (behind_window fs (run fs fuel)) e in
      go end_ mid waited e₁
    where
      go :
          (end_ : Ended (Sender fs)) (mid : Net)
          → await_move fs s₁ net ≡ (ok end_, mid)
          → behind_window fs (run fs fuel) end_ mid ≡ (ok (finished s'), net')
          → Delivers s s' net net'
      go panicked mid waited e₁ = cc
      go out_of_fuel mid waited e₁ = cc
      go (finished s₂) mid waited e₁ =
          let (moves, window) = await_lem fs _ 0 s₁ s₂ net mid waited in
          goes_Delivers s s₁ s₂ s' blocks net mid net' f moves
            (await-Adds fs s₁.in_flight _ 0 s₁ s₂ net mid (λ x has. has) waited) window
            (ih s₂ s' mid net' (Moves-IsSending s₁ s₂ net mid moves f.sending) e₁)

  -- A sender that returns without an error has sent the rest of the file: from its state on, blocks
  -- were cut off the encoded file one after the other, up to the last, and each has been sent to
  -- the peer under its number.
  pub run-Delivers :
      (fuel : ℕ) (s s' : Sender fs) (net net' : Net)
      → IsSending fs laws s
      → run fs fuel s net ≡ (ok (finished s'), net')
      → Delivers s s' net net'
  run-Delivers zero s s' net net' w e = unfold run in cc
  run-Delivers (suc fuel) s s' net net' w e =
      let (s₁, filled, e₁) =
        continue-eq-ok (fill_window fs s)
          (λ s'. turn fs (run fs fuel) s' (none_in_flight s'.in_flight))
          (sym (run_form fs fuel s net) ∙ e) in
      let (blocks, f) = fill_window-Fills fs laws s s₁ w filled in
      turns fuel s s₁ s' blocks net net' (none_in_flight s₁.in_flight)
        (λ a b n n' v k. run-Delivers fuel a b n n' v k) f refl e₁

IsCut-cons :
    (blksize : ℕ) (d : Bytes) (ds : List Bytes)
    → length d ≡ blksize
    → IsCut blksize ds
    → IsCut blksize (d ∷ ds)
IsCut-cons blksize d [] h c = absurd c
IsCut-cons blksize d (e ∷ ds) h c = (h, c)

none_behind_last :
    (blksize : ℕ) (ds : List Bytes) (rest : Bytes) → Cuts blksize [] true ds rest true → ds ≡ []
none_behind_last blksize [] rest c = refl
none_behind_last blksize (d ∷ ds) rest c = absurd (let no = c.0 in cc)

-- A text that has been cut to its end is its blocks, each full but the last.
pub Cuts-IsCut :
    (blksize : ℕ) (text : Bytes) (ds : List Bytes) (rest : Bytes)
    → Cuts blksize text false ds rest true
    → (text ≡ concat ds) × IsCut blksize ds
Cuts-IsCut blksize text [] rest c = absurd (let no = c.1 in cc)
Cuts-IsCut blksize text (d ∷ ds) rest (_, (behind, last, split, is, c)) = elim is [
  | inl (full, goes) ↦
      let (whole, cut) = Cuts-IsCut blksize behind ds rest (rw goes at c) in
      (split ∙ ap (λ (s : Bytes). d ++ s) whole, IsCut-cons blksize d ds full cut)
  | inr (short, over, nothing) ↦
      let none_ = none_behind_last blksize ds rest (rw (over, nothing) at c) in
      rw none_ (split ∙ ap (λ (s : Bytes). d ++ s) nothing, short)
]
