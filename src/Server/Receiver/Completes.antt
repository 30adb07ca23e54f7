-- ===== src/Server/Receiver/Completes.antt =====
-- When an upload to `WrqReceiver::run` is complete.
use atftp.Blocks.Decoded.{decoded}
use atftp.Common.{
  ℕ, zero, suc, ◌+◌, ◌≡◌, ◌<◌, inl, inr, refl, sym, ap, ◌∙◌, true, false, List, ◌++◌, Option, none,
  some, length, Bytes, arith,
}
use atftp.Error.{Result, ok, err}
use atftp.Files.{Files, FilesLaws}
use atftp.Io.Receive.{heard, shorter, packet_taken, recv_one-got, ran-ok}
use atftp.Io.Reliable.{IsReliable, recv_one-IsReliable}
use atftp.Io.{Net, Event, ◌>>=◌, recv_one, finished}
use atftp.Proto.Packet.{decode}
use atftp.Server.Receiver.Patient.{
  is_patient, Bears, is_patient-none, is_patient-some, is_patient-err, no_error, on_packet-Left,
}
use atftp.Server.Receiver.Stored.{after_round, run_stops, run_round, silence_lem, coming, run-Holds}
use atftp.Server.Receiver.Succeeds.{TakesWrites, on_packet-Goes, on_silence-Goes}
use atftp.Server.Receiver.Turns.{
  upload, upload-heard-none, upload-heard-some, pick, Turn, idle, last, more, on_packet-Turn,
}
use atftp.Server.Receiver.{Receiver, on_packet, on_silence, on_received, run}
use atftp.Server.Receiver.Ready.{
  Comes, Comes-with_block, nothing_comes, still_enough, false-true, retry_left, Ready, Ready-Idle,
  Ready-AcceptedMore, at_inbox, again,
}

module _ (fs : Files) (laws : FilesLaws fs) (takes : TakesWrites fs) where
  abbrev Completed : ℕ → ℕ → Receiver fs → Net → Type 0
  Completed fuel attempt r net =
      (r' : Receiver fs) × (net' : Net) × (run fs fuel attempt r net ≡ (ok (finished r'), net'))

  abbrev CanFinish : ℕ → Type 0
  CanFinish fuel =
      (attempt : ℕ) (r : Receiver fs) (net : Net)
      → r.finished ≡ false
      → Ready fs laws fuel attempt r net net.inbox
      → Completed fuel attempt r net

  at_end :
      (fuel attempt : ℕ) (r : Receiver fs) (net : Net)
      → 0 < fuel
      → r.finished ≡ true
      → Completed fuel attempt r net
  at_end zero attempt r net more_ over = absurd (omega arith)
  at_end (suc fuel) attempt r net more_ over = (r, net, run_stops fs fuel attempt r net over)

  -- A turn of the loop, and the rest of it.
  turn_completes :
      (fuel attempt l : ℕ) (r r₁ : Receiver fs) (buf : Bytes) (net : Net) (inbox : List Event)
      → CanFinish fuel
      → r.finished ≡ false
      → net.inbox ≡ inbox
      → Turn fs laws r r₁ (decode buf)
      → l + attempt ≡ r.cfg.retries
      → is_patient r.cfg.retries r.peer l inbox ≡ true
      → IsReliable net
      → length inbox < fuel
      → Comes (pick r.neg.blksize r.next_block (decode buf) (coming fs laws r inbox))
      → Completed fuel attempt r₁ net
  turn_completes fuel attempt l r r₁ buf net inbox ih open_ is (idle i same) n p s f comes =
      ih attempt r₁ net (i.finished ∙ open_) (
        at_inbox fs laws fuel attempt r₁ net inbox is (
          Ready-Idle fs laws fuel attempt r r₁ net inbox i (record {
            left = l;
            counted = n;
            patient = p;
            reliable = s;
            enough = f;
            comes = rw (same (coming fs laws r inbox)) at comes;
          })))
  turn_completes fuel attempt l r r₁ buf net inbox ih open_ is (last payload a same) n p s f comes =
      at_end fuel attempt r₁ net (omega arith) a.1
  turn_completes fuel attempt l r r₁ buf net inbox ih open_ is (more payload a same) n p s f comes =
      ih attempt r₁ net (a.1 ∙ open_) (
        at_inbox fs laws fuel attempt r₁ net inbox is (
          Ready-AcceptedMore fs laws fuel attempt l r r₁ payload net inbox a n p s f
            (Comes-with_block payload _ (rw (same (coming fs laws r inbox)) at comes))))

  packet_completes :
      (fuel attempt : ℕ) (r : Receiver fs) (buf : Bytes) (net mid : Net)
      → CanFinish fuel
      → r.finished ≡ false
      → recv_one r.peer net ≡ (ok (some buf), mid)
      → IsReliable mid
      → Ready fs laws (suc fuel) attempt r net net.inbox
      → (r' : Receiver fs) × (net' : Net) × ((on_packet fs attempt r (decode buf)
              >>= after_round fs fuel)
            mid
          ≡ (ok (finished r'), net'))
  packet_completes fuel attempt r buf net mid ih open_ got safe ready =
      let (first, left_) = recv_one-got r.peer net mid (ok (some buf)) got in
      let rest = (heard r.peer net.inbox).1 in
      let heeded =
        sym (is_patient-some r.cfg.retries r.peer ready.left net.inbox buf first) ∙ ready.patient in
      let ((attempt', r₁), behind, handled, safe') =
        on_packet-Goes fs laws takes attempt r (decode buf) mid
          (no_error r.cfg.retries ready.left (decode buf) _ heeded) safe in
      let (l, patient, counted) =
        on_packet-Left fs r.cfg.retries ready.left attempt attempt' r r₁ (decode buf) mid behind
          (λ m. is_patient r.cfg.retries r.peer m rest) handled heeded ready.counted in
      let (turn, inbox) =
        on_packet-Turn fs laws attempt attempt' r r₁ (decode buf) mid behind handled in
      let comes =
        rw (upload-heard-some r.neg.blksize r.peer r.next_block net.inbox buf first) at
          ready.comes in
      let less = packet_taken r.peer net.inbox buf first in
      let enough = ready.enough in
      let (r', net', e) =
        turn_completes fuel attempt' l r r₁ buf behind rest ih open_ (inbox ∙ left_) turn counted
          patient safe' (omega arith) comes in
      (
        r',
        net',
        ran-ok (on_packet fs attempt r (decode buf) mid) (after_round fs fuel) (attempt', r₁) behind
              handled
            ∙ e,
      )

  silence_completes :
      (fuel attempt : ℕ) (r : Receiver fs) (net mid : Net)
      → CanFinish fuel
      → r.finished ≡ false
      → recv_one r.peer net ≡ (ok none, mid)
      → IsReliable mid
      → (ready : Ready fs laws (suc fuel) attempt r net net.inbox)
      → Bears r.cfg.retries r.peer ready.left (heard r.peer net.inbox).1
      → (r' : Receiver fs) × (net' : Net) × ((on_silence fs attempt r >>= after_round fs fuel) mid
          ≡ (ok (finished r'), net'))
  silence_completes fuel attempt r net mid ih open_ got safe ready (inl over) =
      let (first, left_) = recv_one-got r.peer net mid (ok none) got in
      nothing_comes r.neg.blksize r.peer r.next_block (heard r.peer net.inbox).1 over
        (rw (upload-heard-none r.neg.blksize r.peer r.next_block net.inbox first) at ready.comes)
  silence_completes fuel attempt r net mid ih open_ got safe ready (inr (l, is, patient)) =
      let (first, left_) = recv_one-got r.peer net mid (ok none) got in
      let rest = (heard r.peer net.inbox).1 in
      let (more_, counted) = retry_left l ready.left attempt r.cfg.retries is ready.counted in
      let ((attempt', r₁), behind, handled, safe') =
        on_silence-Goes fs laws takes attempt r mid more_ safe in
      let (same, next, _, inbox) = silence_lem fs laws attempt attempt' r r₁ mid behind handled in
      let less = shorter r.peer net.inbox in
      let comes =
        rw (upload-heard-none r.neg.blksize r.peer r.next_block net.inbox first) at ready.comes in
      let (r', net', e) =
        ih attempt' r₁ behind (ap (λ (x : Receiver fs). x.finished) same ∙ open_) (
          at_inbox fs laws fuel attempt' r₁ behind rest (inbox ∙ left_) (
            again fs laws fuel (attempt + 1) attempt' r r₁ behind rest same next (record {
              left = l;
              counted = counted;
              patient = patient;
              reliable = safe';
              enough =
                  still_enough fuel r.neg.blksize r.peer r.next_block net.inbox rest less comes
                    ready.enough;
              comes = comes;
            }))) in
      (
        r',
        net',
        ran-ok (on_silence fs attempt r mid) (after_round fs fuel) (attempt', r₁) behind handled
            ∙ e,
      )

  round_completes :
      (fuel attempt : ℕ) (r : Receiver fs) (net mid : Net) (got : Result (Option Bytes))
      → CanFinish fuel
      → r.finished ≡ false
      → recv_one r.peer net ≡ (got, mid)
      → IsReliable mid
      → Ready fs laws (suc fuel) attempt r net net.inbox
      → (r' : Receiver fs) × (net' : Net) × ((recv_one r.peer >>= λ got.
              on_received fs attempt r got >>= after_round fs fuel)
            net
          ≡ (ok (finished r'), net'))
  round_completes fuel attempt r net mid (err why) ih open_ is safe ready =
      let (first, _) = recv_one-got r.peer net mid (err why) is in
      let over = is_patient-err r.cfg.retries r.peer ready.left net.inbox why first in
      let patient = ready.patient in absurd (false-true (sym over ∙ patient))
  round_completes fuel attempt r net mid (ok none) ih open_ is safe ready =
      let (first, _) = recv_one-got r.peer net mid (ok none) is in
      let (r', net', e) =
        silence_completes fuel attempt r net mid ih open_ is safe ready
          (is_patient-none r.cfg.retries r.peer ready.left net.inbox first ready.patient) in
      (
        r',
        net',
        ran-ok (recv_one r.peer net) (λ got. on_received fs attempt r got >>= after_round fs fuel)
              none mid is
            ∙ e,
      )
  round_completes fuel attempt r net mid (ok (some buf)) ih open_ is safe ready =
      let (r', net', e) = packet_completes fuel attempt r buf net mid ih open_ is safe ready in
      (
        r',
        net',
        ran-ok (recv_one r.peer net) (λ got. on_received fs attempt r got >>= after_round fs fuel)
              (some buf) mid is
            ∙ e,
      )

  loop_completes : (fuel : ℕ) → CanFinish fuel
  loop_completes zero attempt r net open_ ready = let enough = ready.enough in absurd (omega arith)
  loop_completes (suc fuel) attempt r net open_ ready =
      let (r', net', e) =
        round_completes fuel attempt r net (recv_one r.peer net).1 (recv_one r.peer net).0
          (λ a r₁ n h k. loop_completes fuel a r₁ n h k) open_ refl
          (recv_one-IsReliable r.peer net ready.reliable) ready in
      (r', net', run_round fs fuel attempt r net open_ ∙ e)

  same_blocks :
      {a b : List Bytes} {sent : Option (List Bytes)} → sent ≡ some a → sent ≡ some b → b ≡ a
  same_blocks e h = cc

  -- An upload that can be completed is: where the blocks of the peer come, in order, up to a short
  -- one, whatever is repeated, lost or out of order between them, where it sends no ERROR, where
  -- between two DATA packets at most as many deadlines pass as there are retries, and where the
  -- socket and the file take what is sent and written, the loop returns without an error, and the
  -- file has grown by just these blocks, decoded.
  pub run-Completes :
      (fuel : ℕ) (r : Receiver fs) (net : Net) (blocks : List Bytes)
      → r.finished ≡ false
      → upload r.neg.blksize r.peer r.next_block net.inbox ≡ some blocks
      → is_patient r.cfg.retries r.peer r.cfg.retries net.inbox ≡ true
      → IsReliable net
      → length net.inbox < fuel
      → (r' : Receiver fs) × (net' : Net) × (run fs fuel 0 r net ≡ (ok (finished r'), net'))
        × (laws.written r'.file ≡ laws.written r.file ++ decoded r.decoder blocks)
  run-Completes fuel r net blocks open_ sent patient safe enough =
      let (r', net', e) = loop_completes fuel 0 r net open_ (record {
        left = r.cfg.retries;
        counted = omega arith;
        patient = patient;
        reliable = safe;
        enough = enough;
        comes = (blocks, sent);
      }) in
      let (blocks', sent', text) = run-Holds fs laws fuel 0 r r' net net' open_ e in
      let same = same_blocks sent sent' in
      (r', net', e, text ∙ ap (λ (l : List Bytes). laws.written r.file ++ decoded r.decoder l) same)
