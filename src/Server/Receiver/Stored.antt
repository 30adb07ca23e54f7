-- ===== src/Server/Receiver/Stored.antt =====
-- What `WrqReceiver::run` has written when it returns.
use atftp.Blocks.Decoded.{stage, decoded, decoded-cons, decoded-nil}
use atftp.Common.{
  ℕ, zero, suc, ◌+◌, ◌≡◌, inl, inr, refl, sym, ap, ap₂, ◌∙◌, true, false, List, [], ◌∷◌, ◌++◌,
  Option, none, some, leb, Bytes, Bool-cases, append_assoc,
}
use atftp.Error.{Error, Result, ok, err, timeout}
use atftp.Files.{Files, FilesLaws}
use atftp.Io.Receive.{ran-eq-ok, heard, recv_one-got}
use atftp.Io.{Net, Event, ◌>>=◌, pure, recv_one, Ended, finished}
use atftp.Netascii.{FromWire}
use atftp.Proto.Packet.{decode}
use atftp.Server.Receiver.Turns.{
  pick, upload, upload-heard-none, upload-heard-some, Turn, idle, last, more, Idle, on_packet-Turn,
  with_block,
}
use atftp.Server.Receiver.Writes.{acked, AcceptedLast, AcceptedMore}
use atftp.Server.Receiver.{Receiver, send_ack, on_packet, on_silence, on_received, run}
use atftp.Window.{wrapping_add}

module _ (fs : Files) where
  abbrev pub after_round : ℕ → ℕ × Receiver fs → Net → Result (Ended (Receiver fs)) × Net
  after_round fuel (attempt, r) net = run fs fuel attempt r net

  pub run_stops :
      (fuel attempt : ℕ) (r : Receiver fs) (net : Net)
      → r.finished ≡ true
      → run fs (suc fuel) attempt r net ≡ (ok (finished r), net)
  run_stops fuel attempt r net h = unfold run in simp (h, run)

  -- A round: a packet or silence, and then the rest of the loop.
  pub run_round :
      (fuel attempt : ℕ) (r : Receiver fs) (net : Net)
      → r.finished ≡ false
      → run fs (suc fuel) attempt r net
        ≡ (recv_one r.peer >>= λ got. on_received fs attempt r got >>= after_round fuel) net
  run_round fuel attempt r net h = unfold run in simp (h, run)

module _ (fs : Files) (laws : FilesLaws fs) where
  pub silence_acks :
      (attempt : ℕ) (r : Receiver fs) (net : Net)
      → leb r.cfg.retries attempt ≡ false
      → on_silence fs attempt r net
        ≡ (send_ack r.peer r.last_acked >>= λ _. pure (attempt + 1, r)) net
  silence_acks attempt r net h = unfold on_silence in rw (h, on_silence) refl

  silence_raises :
      (attempt : ℕ) (r : Receiver fs) (net : Net)
      → leb r.cfg.retries attempt ≡ true
      → (on_silence fs attempt r net).0 ≡ err (timeout attempt)
  silence_raises attempt r net h = unfold on_silence in rw (h, on_silence) refl

  failed_not_ok :
      {P : Type 0} {A : Type 0} (x : Result A × Net) (why : Error) (a : A) (net' : Net)
      → x.0 ≡ err why
      → x ≡ (ok a, net')
      → P
  failed_not_ok x why a net' h e = cc

  pub silence_lem :
      (attempt attempt' : ℕ) (r r' : Receiver fs) (net net' : Net)
      → on_silence fs attempt r net ≡ (ok (attempt', r'), net')
      → (r' ≡ r)
        × (attempt' ≡ attempt + 1)
        × (leb r.cfg.retries attempt ≡ false)
        × (net'.inbox ≡ net.inbox)
  silence_lem a a' r r' net net' e = elim (Bool-cases (leb r.cfg.retries a)) [
    | inl over ↦
        failed_not_ok (on_silence fs a r net) (timeout a) (a', r') net'
          (silence_raises a r net over) e
    | inr again ↦
        let (same, inbox) =
          acked r.peer r.last_acked (a + 1, r) (a', r') net {net' = net'}
            (sym (silence_acks a r net again) ∙ e) in
        (
          ap (λ (x : ℕ × Receiver fs). x.1) same,
          ap (λ (x : ℕ × Receiver fs). x.0) same,
          again,
          inbox,
        )
  ]

  -- The upload is in the file: what is written is the blocks, decoded.
  abbrev pub Holds : Receiver fs → Option (List Bytes) → Receiver fs → Type 0
  Holds r sent r' =
      (blocks : List Bytes) × (sent ≡ some blocks)
      × (laws.written r'.file ≡ laws.written r.file ++ decoded r.decoder blocks)

  abbrev pub coming : Receiver fs → List Event → ℕ → Option (List Bytes)
  coming r inbox n = upload r.neg.blksize r.peer n inbox

  Idle-Holds :
      (r r₁ r' : Receiver fs) (inbox : List Event)
      → Idle fs laws r r₁
      → Holds r₁ (coming r₁ inbox r₁.next_block) r'
      → Holds r (coming r inbox r.next_block) r'
  Idle-Holds r r₁ r' inbox i (blocks, is, text) =
      (blocks, rw (i.peer, i.neg, i.next_block) at is, rw (i.file, i.decoder) at text)

  AcceptedLast-Holds :
      (r r' : Receiver fs) (payload : Bytes)
      → AcceptedLast fs laws r r' r.next_block payload
      → Holds r (some (payload ∷ [])) r'
  AcceptedLast-Holds r r' payload (a, over, text) = (
    payload ∷ [],
    refl,
    text
        ∙ append_assoc (laws.written r.file) _ _
        ∙ ap (λ (s : Bytes). laws.written r.file ++ s)
            (sym (
              decoded-cons r.decoder payload []
              ∙ ap (λ (s : Bytes). (stage r.decoder payload).1 ++ s)
                  (decoded-nil (stage r.decoder payload).0))),
  )

  AcceptedMore-Holds :
      (r r₁ r' : Receiver fs) (payload : Bytes) (inbox : List Event)
      → AcceptedMore fs laws r r₁ r.next_block payload
      → Holds r₁ (coming r₁ inbox r₁.next_block) r'
      → Holds r (with_block payload (coming r inbox (wrapping_add r.next_block 1))) r'
  AcceptedMore-Holds r r₁ r' payload inbox (a, over, dec, text₁) (blocks, is, text) =
      let is' = rw (a.peer, a.neg, a.next_block) at is in
      (
        payload ∷ blocks,
        ap (with_block payload) is',
        text
            ∙ ap₂ (λ (w : Bytes) (d : Option FromWire). w ++ decoded d blocks) text₁ dec
            ∙ append_assoc (laws.written r.file) _ _
            ∙ ap (λ (s : Bytes). laws.written r.file ++ s)
                (sym (decoded-cons r.decoder payload blocks)),
      )

  abbrev pub heard_by : Receiver fs → Net → List Event
  heard_by r net = (heard r.peer net.inbox).1

  -- A turn of the loop hands the claim on.
  Turn-Holds :
      (r r₁ r' : Receiver fs) (buf : Bytes) (inbox inbox' : List Event)
      → Turn fs laws r r₁ (decode buf)
      → coming r inbox r.next_block ≡ pick r.neg.blksize r.next_block (decode buf) (coming r inbox')
      → (r₁.finished ≡ false → Holds r₁ (coming r₁ inbox' r₁.next_block) r')
      → r.finished ≡ false
      → (r₁.finished ≡ true → r' ≡ r₁)
      → Holds r (coming r inbox r.next_block) r'
  Turn-Holds r r₁ r' buf inbox inbox' (idle i same) now rest open_ stop =
      rw (now ∙ same (coming r inbox')) (Idle-Holds r r₁ r' inbox' i (rest (i.finished ∙ open_)))
  Turn-Holds r r₁ r' buf inbox inbox' (last payload a same) now rest open_ stop =
      rw (now ∙ same (coming r inbox'), stop a.1) (AcceptedLast-Holds r r₁ payload a)
  Turn-Holds r r₁ r' buf inbox inbox' (more payload a same) now rest open_ stop =
      rw (now ∙ same (coming r inbox'))
        (AcceptedMore-Holds r r₁ r' payload inbox' a (rest (a.1 ∙ open_)))

  stops_at :
      (fuel attempt : ℕ) (r r' : Receiver fs) (net net' : Net)
      → run fs fuel attempt r net ≡ (ok (finished r'), net')
      → r.finished ≡ true
      → r' ≡ r
  stops_at zero attempt r r' net net' e h = unfold run in cc
  stops_at (suc fuel) attempt r r' net net' e h =
      let e' = sym (run_stops fs fuel attempt r net h) ∙ e in cc

  move_along :
      (r r₁ r' : Receiver fs) (inbox inbox₁ : List Event)
      → r₁ ≡ r
      → inbox₁ ≡ inbox
      → Holds r₁ (coming r₁ inbox₁ r₁.next_block) r'
      → Holds r (coming r inbox r.next_block) r'
  move_along r r₁ r' inbox inbox₁ same left h = rw (same, left) at h

  abbrev Runs : ℕ → Type 0
  Runs fuel =
      (attempt : ℕ) (r r' : Receiver fs) (net net' : Net)
      → r.finished ≡ false
      → run fs fuel attempt r net ≡ (ok (finished r'), net')
      → Holds r (coming r net.inbox r.next_block) r'

  silent_round :
      (fuel attempt : ℕ) (r r' : Receiver fs) (net mid net' : Net)
      → Runs fuel
      → r.finished ≡ false
      → recv_one r.peer net ≡ (ok none, mid)
      → (on_silence fs attempt r >>= after_round fs fuel) mid ≡ (ok (finished r'), net')
      → Holds r (coming r net.inbox r.next_block) r'
  silent_round fuel attempt r r' net mid net' ih open_ got e =
      let ((attempt', r₁), behind, ran, e₁) =
        ran-eq-ok (on_silence fs attempt r mid) (after_round fs fuel) e in
      let (same, _, _, inbox) = silence_lem attempt attempt' r r₁ mid behind ran in
      let (first, left) = recv_one-got r.peer net mid (ok none) got in
      rw (upload-heard-none r.neg.blksize r.peer r.next_block net.inbox first) (
        move_along r r₁ r' (heard r.peer net.inbox).1 behind.inbox same (inbox ∙ left)
          (ih attempt' r₁ r' behind net' (ap (λ (x : Receiver fs). x.finished) same ∙ open_) e₁))

  packet_round :
      (fuel attempt : ℕ) (r r' : Receiver fs) (buf : Bytes) (net mid net' : Net)
      → Runs fuel
      → r.finished ≡ false
      → recv_one r.peer net ≡ (ok (some buf), mid)
      → (on_packet fs attempt r (decode buf) >>= after_round fs fuel) mid ≡ (ok (finished r'), net')
      → Holds r (coming r net.inbox r.next_block) r'
  packet_round fuel attempt r r' buf net mid net' ih open_ got e =
      let ((attempt', r₁), behind, ran, e₁) =
        ran-eq-ok (on_packet fs attempt r (decode buf) mid) (after_round fs fuel) e in
      let (turn, inbox) =
        on_packet-Turn fs laws attempt attempt' r r₁ (decode buf) mid behind ran in
      let (first, left) = recv_one-got r.peer net mid (ok (some buf)) got in
      Turn-Holds r r₁ r' buf net.inbox (heard r.peer net.inbox).1 turn
        (upload-heard-some r.neg.blksize r.peer r.next_block net.inbox buf first)
        (λ goes.
          move_along r₁ r₁ r' (heard r.peer net.inbox).1 behind.inbox refl (inbox ∙ left)
            (ih attempt' r₁ r' behind net' goes e₁))
        open_ (stops_at fuel attempt' r₁ r' behind net' e₁)

  rounds_hold :
      (fuel attempt : ℕ) (r r' : Receiver fs) (net mid net' : Net) (got : Option Bytes)
      → Runs fuel
      → r.finished ≡ false
      → recv_one r.peer net ≡ (ok got, mid)
      → (on_received fs attempt r got >>= after_round fs fuel) mid ≡ (ok (finished r'), net')
      → Holds r (coming r net.inbox r.next_block) r'
  rounds_hold fuel attempt r r' net mid net' none ih open_ is e =
      silent_round fuel attempt r r' net mid net' ih open_ is e
  rounds_hold fuel attempt r r' net mid net' (some buf) ih open_ is e =
      packet_round fuel attempt r r' buf net mid net' ih open_ is e

  -- A receiver that returns without an error has stored an upload: the packets of its peer have
  -- held, in order from the block that it awaited, blocks up to a short one, whatever came between
  -- them, and its file has grown by these blocks, decoded in the mode of the transfer.
  pub run-Holds :
      (fuel attempt : ℕ) (r r' : Receiver fs) (net net' : Net)
      → r.finished ≡ false
      → run fs fuel attempt r net ≡ (ok (finished r'), net')
      → Holds r (coming r net.inbox r.next_block) r'
  run-Holds zero attempt r r' net net' open_ e = unfold run in cc
  run-Holds (suc fuel) attempt r r' net net' open_ e =
      let (got, mid, is, e₁) =
        ran-eq-ok (recv_one r.peer net)
          (λ got. on_received fs attempt r got >>= after_round fs fuel)
          (sym (run_round fs fuel attempt r net open_) ∙ e) in
      rounds_hold fuel attempt r r' net mid net' got
        (λ a r₁ r₂ n n' h k. run-Holds fuel a r₁ r₂ n n' h k) open_ is e₁
