-- ===== src/Server/Receiver/Writes.antt =====
-- What the handlers of `WrqReceiver` change: the file takes what the blocks stand for, and the other
-- fields advance as the protocol says.
use atftp.Blocks.Decoded.{stage, tail_of}
use atftp.Common.{
  ℕ, ◌≡◌, inl, inr, refl, sym, ap, ◌∙◌, true, false, [], ◌∷◌, ◌++◌, Option, none, some, length, ltb,
  leb, Bytes, Bool-cases, append-nil,
}
use atftp.Error.{Result, ok, err}
use atftp.Files.{Files, FilesLaws, Attempt, done, failed}
use atftp.Io.Receive.{continue-eq-ok, send_to-inbox}
use atftp.Io.{Address, Net, ◌>>=◌, pure, continue}
use atftp.Netascii.{FromWire, from_wire, finish}
use atftp.Server.Receiver.{
  Receiver, send_ack, written_by, write_through, write_block, write_rest, write_tail, flushed,
  close, advance, conclude, close_window, accept,
}
use atftp.Window.{wrapping_add}

module _ {A : Type 0} where
  -- An acknowledgement, and the value that is returned behind it.
  pub acked :
      (to : Address) (block : ℕ) (value a : A) (net : Net) {net' : Net}
      → (send_ack to block >>= λ _. pure value) net ≡ (ok a, net')
      → (a ≡ value) × (net'.inbox ≡ net.inbox)
  acked to block value a net {net'} e =
      go (send_ack to block net) (unfold send_ack in send_to-inbox _ to net) e
    where
      go :
          (r : Result (Unit {0}) × Net)
          → r.1.inbox ≡ net.inbox
          → ◌≡◌ {A = Result A × Net} (continue r.0 (λ _. pure value) r.1) (ok a, net')
          → (a ≡ value) × (net'.inbox ≡ net.inbox)
      go (ok u, mid) is e' = let same : net' ≡ mid = cc in (cc, ap (λ (n : Net). n.inbox) same ∙ is)
      go (err x, mid) is e' = cc

module _ (fs : Files) (laws : FilesLaws fs) where
  -- The receiver with another file and decoder, whose file has more text.
  abbrev pub Wrote : Receiver fs → Receiver fs → Option FromWire → Bytes → Type 0
  Wrote r r' dec text =
      (r' ≡ record r { file = r'.file; decoder = dec })
      × (laws.written r'.file ≡ laws.written r.file ++ text)

  written_by-Wrote :
      (r r' : Receiver fs) (dec : Option FromWire) (text : Bytes)
      → written_by fs r dec (fs.write_all r.file text) ≡ ok r'
      → Wrote r r' dec text
  written_by-Wrote r r' dec text e = go (fs.write_all r.file text) refl e
    where
      go :
          (a : Attempt fs.Handle)
          → fs.write_all r.file text ≡ a
          → written_by fs r dec a ≡ ok r'
          → Wrote r r' dec text
      go (failed kind) is e' = cc
      go (done h) is e' =
          let same : record r { file = h; decoder = dec } ≡ r' = cc in
          rw (← same) (refl, laws.write_adds r.file h text is)

  write_through-Wrote :
      (r r' : Receiver fs) (block : Bytes) (dec : Option FromWire)
      → write_through fs r block dec ≡ ok r'
      → Wrote r r' (stage dec block).0 (stage dec block).1
  unfolding write_through stage
  write_through-Wrote r r' block none e = written_by-Wrote r r' none block e
  write_through-Wrote r r' block (some dec) e =
      let (dec', out) = from_wire dec block [] in written_by-Wrote r r' (some dec') out e

  pub write_block-Wrote :
      (r r' : Receiver fs) (block : Bytes)
      → write_block fs r block ≡ ok r'
      → Wrote r r' (stage r.decoder block).0 (stage r.decoder block).1
  write_block-Wrote r r' block e =
      write_through-Wrote r r' block r.decoder (unfold write_block in e)

  write_tail-Wrote :
      (r r' : Receiver fs) (d : FromWire) (tail : Bytes)
      → write_tail fs r (d, tail) ≡ ok r'
      → Wrote r r' (some d) tail
  write_tail-Wrote r r' d [] e =
      let same : record r { decoder = some d } ≡ r' = cc in
      rw (← same) (refl, sym (append-nil (laws.written r.file)))
  write_tail-Wrote r r' d (b ∷ tail) e = written_by-Wrote r r' (some d) (b ∷ tail) e

  fields :
      (r r' : Receiver fs) (dec : Option FromWire)
      → r' ≡ record r { file = r'.file; decoder = dec }
      → r' ≡ record r { file = r'.file; decoder = r'.decoder }
  fields r r' dec same =
      same
      ∙ ap (λ (d : Option FromWire). record r { file = r'.file; decoder = d })
          (sym (ap (λ (x : Receiver fs). x.decoder) same))

  write_rest-Wrote :
      (r r' : Receiver fs) (dec : Option FromWire)
      → r.decoder ≡ dec
      → write_rest fs r dec ≡ ok r'
      → Wrote r r' r'.decoder (tail_of dec)
  unfolding tail_of
  write_rest-Wrote r r' none is e =
      let same : r ≡ r' = cc in rw (← same) (refl, sym (append-nil (laws.written r.file)))
  write_rest-Wrote r r' (some d) is e =
      let (same, text) = write_tail-Wrote r r' (finish d []).0 (finish d []).1 e in
      (fields r r' _ same, text)

  flushed-Wrote :
      (r : Result (Receiver fs)) (r' : Receiver fs)
      → flushed fs r ≡ ok r'
      → (r₁ : Receiver fs) × (r ≡ ok r₁) × Wrote r₁ r' r₁.decoder []
  flushed-Wrote (err x) r' e = cc
  flushed-Wrote (ok r) r' e = (r, refl, go (fs.flush r.file) refl e)
    where
      go :
          (a : Attempt fs.Handle)
          → fs.flush r.file ≡ a
          → written_by fs r r.decoder a ≡ ok r'
          → Wrote r r' r.decoder []
      go (failed kind) is e' = cc
      go (done h) is e' =
          let same : record r { file = h } ≡ r' = cc in
          rw (← same) (refl, laws.flush_keeps r.file h is ∙ sym (append-nil (laws.written r.file)))

  pub close-Wrote :
      (r r' : Receiver fs) → close fs r ≡ ok r' → Wrote r r' r'.decoder (tail_of r.decoder)
  close-Wrote r r' e =
      let (r₁, rest, (same', text')) =
        flushed-Wrote (write_rest fs r r.decoder) r' (unfold close in e) in
      let (same, text) = write_rest-Wrote r r₁ r.decoder refl rest in
      (
        fields r r' r₁.decoder (
            same'
            ∙ ap (λ (x : Receiver fs). record x { file = r'.file; decoder = r₁.decoder }) same),
        text' ∙ append-nil _ ∙ text,
      )

  -- What a block in its turn changes; the last one ends the transfer and closes the file.
  pub record Accepted (r r' : Receiver fs) (block : ℕ) (payload : Bytes) : Type 0 where
    pub peer : r'.peer ≡ r.peer
    pub cfg : r'.cfg ≡ r.cfg
    pub neg : r'.neg ≡ r.neg
    pub next_block : r'.next_block ≡ wrapping_add r.next_block 1
    pub last_acked : r'.last_acked ≡ block

  abbrev pub AcceptedLast : Receiver fs → Receiver fs → ℕ → Bytes → Type 0
  AcceptedLast r r' block payload =
      Accepted r r' block payload
      × (r'.finished ≡ true)
      × (laws.written r'.file
          ≡ laws.written r.file
            ++ (stage r.decoder payload).1
            ++ tail_of (stage r.decoder payload).0)

  abbrev pub AcceptedMore : Receiver fs → Receiver fs → ℕ → Bytes → Type 0
  AcceptedMore r r' block payload =
      Accepted r r' block payload
      × (r'.finished ≡ r.finished)
      × (r'.decoder ≡ (stage r.decoder payload).0)
      × (laws.written r'.file ≡ laws.written r.file ++ (stage r.decoder payload).1)

  conclude_lem :
      (r r' : Receiver fs) (block : ℕ) (net net' : Net)
      → conclude fs r block net ≡ (ok r', net')
      → (r₁ : Receiver fs) × (close fs r ≡ ok r₁)
        × (r' ≡ record r₁ { finished = true })
        × (net'.inbox ≡ net.inbox)
  unfolding conclude
  conclude_lem r r' block net net' e =
      let (r₁, closed, e₁) = continue-eq-ok (close fs r) _ e in
      let (same, inbox) = acked r.peer block (record r₁ { finished = true }) r' net e₁ in
      (r₁, closed, same, inbox)

  pub close_window_acks :
      (r : Receiver fs) (block : ℕ) (net : Net)
      → leb r.neg.windowsize r.blocks_in_window ≡ true
      → close_window fs r block net
        ≡ (send_ack r.peer block >>= λ _. pure (record r { blocks_in_window = 0 })) net
  close_window_acks r block net h = unfold close_window in rw (h, close_window) refl

  pub close_window_waits :
      (r : Receiver fs) (block : ℕ) (net : Net)
      → leb r.neg.windowsize r.blocks_in_window ≡ false
      → close_window fs r block net ≡ (ok r, net)
  close_window_waits r block net h = unfold close_window in rw (h, close_window) refl

  close_window_lem :
      (r r' : Receiver fs) (block : ℕ) (net net' : Net)
      → close_window fs r block net ≡ (ok r', net')
      → (r' ≡ record r { blocks_in_window = r'.blocks_in_window }) × (net'.inbox ≡ net.inbox)
  close_window_lem r r' block net net' e =
      elim (Bool-cases (leb r.neg.windowsize r.blocks_in_window)) [
        | inl full ↦
            let (same, inbox) =
              acked r.peer block (record r { blocks_in_window = 0 }) r' net
                (sym (close_window_acks r block net full) ∙ e) in
            (rw same refl, inbox)
        | inr more ↦
            let e₁ : ◌≡◌ {A = Result (Receiver fs) × Net} (ok r, net) (ok r', net') =
              sym (close_window_waits r block net more) ∙ e in
            let same : r ≡ r' = cc in
            let rest : net' ≡ net = cc in (rw (← same) refl, ap (λ (n : Net). n.inbox) rest)
      ]

  accept_last_form :
      (r : Receiver fs) (block : ℕ) (payload : Bytes) (net : Net)
      → ltb (length payload) r.neg.blksize ≡ true
      → accept fs r block payload net
        ≡ continue (write_block fs r payload) (λ r'. conclude fs (advance fs r' block) block) net
  accept_last_form r block payload net h = unfold accept in rw (h, accept) refl

  accept_more_form :
      (r : Receiver fs) (block : ℕ) (payload : Bytes) (net : Net)
      → ltb (length payload) r.neg.blksize ≡ false
      → accept fs r block payload net
        ≡ continue
            (write_block fs r payload)
            (λ r'. close_window fs (advance fs r' block) block)
            net
  accept_more_form r block payload net h = unfold accept in rw (h, accept) refl

  last_written :
      (r r₁ r₂ r' : Receiver fs) (block : ℕ) (payload : Bytes)
      → Wrote r r₁ (stage r.decoder payload).0 (stage r.decoder payload).1
      → Wrote (advance fs r₁ block) r₂ r₂.decoder (tail_of r₁.decoder)
      → r' ≡ record r₂ { finished = true }
      → AcceptedLast r r' block payload
  last_written r r₁ r₂ r' block payload (same₁, text₁) (same₂, text₂) same =
      let behind : r₁.decoder ≡ (stage r.decoder payload).0 = cc in
      let file : r'.file ≡ r₂.file = cc in
      let text : laws.written r'.file
          ≡ (laws.written r.file ++ (stage r.decoder payload).1) ++ tail_of r₁.decoder =
        cc in
      (
        record { peer = cc; cfg = cc; neg = cc; next_block = cc; last_acked = cc },
        cc,
        text
            ∙ ap
                (λ (d : Option FromWire).
                  laws.written r.file ++ (stage r.decoder payload).1 ++ tail_of d)
                behind,
      )

  more_written :
      (r r₁ r' : Receiver fs) (block : ℕ) (payload : Bytes)
      → Wrote r r₁ (stage r.decoder payload).0 (stage r.decoder payload).1
      → r' ≡ record (advance fs r₁ block) { blocks_in_window = r'.blocks_in_window }
      → AcceptedMore r r' block payload
  more_written r r₁ r' block payload (same₁, text₁) same =
      (record { peer = cc; cfg = cc; neg = cc; next_block = cc; last_acked = cc }, cc, cc, cc)

  pub accept_last :
      (r r' : Receiver fs) (block : ℕ) (payload : Bytes) (net net' : Net)
      → ltb (length payload) r.neg.blksize ≡ true
      → accept fs r block payload net ≡ (ok r', net')
      → AcceptedLast r r' block payload × (net'.inbox ≡ net.inbox)
  accept_last r r' block payload net net' last e =
      let (r₁, wrote, e₁) =
        continue-eq-ok (write_block fs r payload) (λ r'. conclude fs (advance fs r' block) block)
          (sym (accept_last_form r block payload net last) ∙ e) in
      let (r₂, closed, same, inbox) = conclude_lem (advance fs r₁ block) r' block net net' e₁ in
      (
        last_written r r₁ r₂ r' block payload (write_block-Wrote r r₁ payload wrote)
            (close-Wrote (advance fs r₁ block) r₂ closed) same,
        inbox,
      )

  pub accept_more :
      (r r' : Receiver fs) (block : ℕ) (payload : Bytes) (net net' : Net)
      → ltb (length payload) r.neg.blksize ≡ false
      → accept fs r block payload net ≡ (ok r', net')
      → AcceptedMore r r' block payload × (net'.inbox ≡ net.inbox)
  accept_more r r' block payload net net' more e =
      let (r₁, wrote, e₁) =
        continue-eq-ok (write_block fs r payload)
          (λ r'. close_window fs (advance fs r' block) block)
          (sym (accept_more_form r block payload net more) ∙ e) in
      let (same, inbox) = close_window_lem (advance fs r₁ block) r' block net net' e₁ in
      (more_written r r₁ r' block payload (write_block-Wrote r r₁ payload wrote) same, inbox)
