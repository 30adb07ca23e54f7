-- ===== src/Server/Receiver/Ends.antt =====
-- How much fuel `WrqReceiver::run` takes: a round takes an event from the inbox, and behind the last
-- event there are as many rounds as retries.
use atftp.Common.{
  ℕ, zero, suc, ◌+◌, ◌≡◌, ◌≢◌, ◌<◌, ◌≤◌, ◌⊎◌, inl, inr, refl, sym, ap, ◌∙◌, false, List, [], Option,
  none, some, length, leb, Bytes, Bool-cases, arith,
}
use atftp.Error.{Result, ok}
use atftp.Files.{Files, FilesLaws}
use atftp.Io.Receive.{ran-eq-ok, heard, shorter, packet_taken, recv_one-got}
use atftp.Io.{Net, Event, ◌>>=◌, recv_one, Ended, out_of_fuel}
use atftp.Proto.Packet.{decode}
use atftp.Server.Receiver.Stored.{after_round, run_stops, run_round, silence_lem}
use atftp.Server.Receiver.Turns.{Turn, idle, last, more, on_packet-Turn}
use atftp.Server.{Config}
use atftp.Server.Receiver.{Receiver, on_packet, on_silence, on_received, run}

-- Fuel for a round per event and per retry, or per retry that is left at the end of the inbox.
abbrev IsEnough : ℕ → ℕ → ℕ → List Event → Type 0
IsEnough fuel retries attempt inbox =
    (length inbox + retries + 2 ≤ fuel)
    ⊎ ((inbox ≡ []) × (0 < fuel) × (retries + 1 ≤ fuel + attempt))

IsEnough-silence :
    (fuel retries attempt : ℕ) (inbox inbox' : List Event)
    → IsEnough (suc fuel) retries attempt inbox
    → leb retries attempt ≡ false
    → (length inbox' < length inbox) ⊎ (inbox' ≡ [])
    → IsEnough fuel retries (attempt + 1) inbox'
IsEnough-silence fuel retries attempt inbox inbox' c again taken = ground arith

IsEnough-packet :
    (fuel retries attempt attempt' : ℕ) (inbox inbox' : List Event)
    → IsEnough (suc fuel) retries attempt inbox
    → length inbox' < length inbox
    → IsEnough fuel retries attempt' inbox'
IsEnough-packet fuel retries attempt attempt' inbox inbox' c taken = ground arith

IsEnough-same :
    (fuel attempt attempt' : ℕ) (cfg cfg' : Config) (inbox inbox' : List Event)
    → cfg' ≡ cfg
    → attempt' ≡ attempt
    → inbox' ≡ inbox
    → IsEnough fuel cfg.retries attempt inbox
    → IsEnough fuel cfg'.retries attempt' inbox'
IsEnough-same fuel attempt attempt' cfg cfg' inbox inbox' c a i enough = rw (c, a, i) enough

module _ (fs : Files) (laws : FilesLaws fs) where
  Turn-cfg : (r r' : Receiver fs) (buf : Bytes) → Turn fs laws r r' (decode buf) → r'.cfg ≡ r.cfg
  Turn-cfg r r' buf (idle i _) = i.cfg
  Turn-cfg r r' buf (last payload a _) = a.0.cfg
  Turn-cfg r r' buf (more payload a _) = a.0.cfg

  abbrev Ends : ℕ → Type 0
  Ends fuel =
      (attempt : ℕ) (r : Receiver fs) (net net' : Net)
      → IsEnough fuel r.cfg.retries attempt net.inbox
      → run fs fuel attempt r net ≡ (ok out_of_fuel, net')
      → ⊥

  never_out_round :
      (fuel attempt : ℕ) (r : Receiver fs) (net mid net' : Net) (got : Option Bytes)
      → Ends fuel
      → IsEnough (suc fuel) r.cfg.retries attempt net.inbox
      → recv_one r.peer net ≡ (ok got, mid)
      → (on_received fs attempt r got >>= after_round fs fuel) mid ≡ (ok out_of_fuel, net')
      → ⊥
  never_out_round fuel attempt r net mid net' none ih enough is e =
      let ((attempt', r₁), behind, ran, e₁) =
        ran-eq-ok (on_silence fs attempt r mid) (after_round fs fuel) e in
      let (same, next, again, inbox) = silence_lem fs laws attempt attempt' r r₁ mid behind ran in
      let (first, left) = recv_one-got r.peer net mid (ok none) is in
      ih attempt' r₁ behind net'
        (IsEnough-same fuel (attempt + 1) attempt' r.cfg r₁.cfg (heard r.peer net.inbox).1
          behind.inbox (ap (λ (x : Receiver fs). x.cfg) same) next (inbox ∙ left)
          (IsEnough-silence fuel r.cfg.retries attempt net.inbox (heard r.peer net.inbox).1 enough
            again (shorter r.peer net.inbox)))
        e₁
  never_out_round fuel attempt r net mid net' (some buf) ih enough is e =
      let ((attempt', r₁), behind, ran, e₁) =
        ran-eq-ok (on_packet fs attempt r (decode buf) mid) (after_round fs fuel) e in
      let (turn, inbox) =
        on_packet-Turn fs laws attempt attempt' r r₁ (decode buf) mid behind ran in
      let (first, left) = recv_one-got r.peer net mid (ok (some buf)) is in
      ih attempt' r₁ behind net'
        (IsEnough-same fuel attempt' attempt' r.cfg r₁.cfg (heard r.peer net.inbox).1 behind.inbox
          (Turn-cfg r r₁ buf turn) refl (inbox ∙ left)
          (IsEnough-packet fuel r.cfg.retries attempt attempt' net.inbox (heard r.peer net.inbox).1
            enough (packet_taken r.peer net.inbox buf first)))
        e₁

  never_out :
      (fuel attempt : ℕ) (r : Receiver fs) (net net' : Net)
      → IsEnough fuel r.cfg.retries attempt net.inbox
      → run fs fuel attempt r net ≡ (ok out_of_fuel, net')
      → ⊥
  never_out zero attempt r net net' enough e = omega arith
  never_out (suc fuel) attempt r net net' enough e = elim (Bool-cases r.finished) [
    | inl over ↦ let e' = sym (run_stops fs fuel attempt r net over) ∙ e in cc
    | inr goes ↦
        let (got, mid, is, e₁) =
          ran-eq-ok (recv_one r.peer net)
            (λ got. on_received fs attempt r got >>= after_round fs fuel)
            (sym (run_round fs fuel attempt r net goes) ∙ e) in
        never_out_round fuel attempt r net mid net' got
          (λ a r₁ n n' h k. never_out fuel a r₁ n n' h k) enough is e₁
  ]

  -- With a round for each event, each retry, and two more, the receiver comes to an end, whatever
  -- arrives: it returns, with or without an error.
  pub run_ends :
      (fuel : ℕ) (r : Receiver fs) (net : Net)
      → length net.inbox + r.cfg.retries + 2 ≤ fuel
      → (run fs fuel 0 r net).0 ≢ ok out_of_fuel
  run_ends fuel r net enough e =
      never_out fuel 0 r net (run fs fuel 0 r net).1 (inl enough)
        (ap (λ (x : Result (Ended (Receiver fs))). (x, (run fs fuel 0 r net).1)) e)
