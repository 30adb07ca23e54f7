-- ===== src/Server/Sender/Ends.antt =====
-- How much fuel `RrqSender::run` takes: the window only moves on a packet, so the outer loop has a
-- round for each event at most; the inner loop has a round for each event and each retry.
use atftp.Common.{
  ℕ, zero, suc, ◌+◌, ◌≡◌, ◌≢◌, ◌<◌, ◌≤◌, ◌⊎◌, inl, inr, refl, sym, ap, ◌∙◌, Bool, true, false, List,
  [], ◌∷◌, Option, none, some, length, leb, Bytes, Bool-cases, arith,
}
use atftp.Error.{Result, ok, err, timeout}
use atftp.Files.{Files}
use atftp.Io.Receive.{ran-eq-ok, continue-eq-ok, shorter, packet_taken, recv_one-got, send_to-inbox}
use atftp.Io.{Address, Net, Event, ◌>>=◌, continue, send_to, recv_one, Ended, finished, out_of_fuel}
use atftp.Proto.Packet.{Packet, rrq, wrq, block_data, ack, error, oack, decode}
use atftp.Server.Sender.Loop.{
  on_packet, on_silence, on_received, unless_moved, await, behind_window, await_move, turn,
  none_in_flight, run,
}
use atftp.Server.Sender.Sends.{
  packet, received_Moves, silence_waits, silence_raises, failed_not_ok, await_form,
}
use atftp.Server.Sender.{Sender, send_frames, send_window, fill_window, consume_ack}
use atftp.Server.{Config}
use atftp.Window.{Frame}

send_frames-inbox :
    (to : Address) (frames : List Frame) (net net' : Net) (u : Unit {0})
    → send_frames to frames net ≡ (ok u, net')
    → net'.inbox ≡ net.inbox
send_frames-inbox to [] net net' u e =
    let same : net' ≡ net = unfold send_frames in cc in ap (λ (n : Net). n.inbox) same
send_frames-inbox to ((bn, payload) ∷ rest) net net' u e =
    let (_, mid, sent, e₁) =
      ran-eq-ok (send_to (packet (bn, payload)) to net) (λ _. send_frames to rest) (step ∙ e) in
    send_frames-inbox to rest mid net' u e₁
    ∙ ap (λ (r : Result (Unit {0}) × Net). r.1.inbox) (sym sent)
    ∙ send_to-inbox (packet (bn, payload)) to net
  where
    step :
        continue
          (send_to (packet (bn, payload)) to net).0
          (λ _. send_frames to rest)
          (send_to (packet (bn, payload)) to net).1
        ≡ send_frames to ((bn, payload) ∷ rest) net
    step = unfold send_frames in refl

module _ (fs : Files) where
  kept :
      (r r' : ℕ × Sender fs × Bool) (net net' : Net)
      → ◌≡◌ {A = Result (ℕ × Sender fs × Bool) × Net} (ok r, net) (ok r', net')
      → (r'.0 ≡ r.0) × (net'.inbox ≡ net.inbox)
  kept r r' net net' e =
      let r_is : r' ≡ r = cc in
      let net_is : net' ≡ net = cc in
      (ap (λ (x : ℕ × Sender fs × Bool). x.0) r_is, ap (λ (n : Net). n.inbox) net_is)

  packet-attempt :
      (attempt : ℕ) (s : Sender fs) (p : Result Packet) (r : ℕ × Sender fs × Bool) (net net' : Net)
      → on_packet fs attempt s p net ≡ (ok r, net')
      → (r.0 ≡ attempt) × (net'.inbox ≡ net.inbox)
  unfolding on_packet
  packet-attempt a s (ok (ack block)) r net net' e =
      kept (a, (consume_ack fs s block).0, (consume_ack fs s block).1) r net net' e
  packet-attempt a s (ok (error code msg)) r net net' e = cc
  packet-attempt a s (ok (rrq f m o)) r net net' e = kept (a, s, false) r net net' e
  packet-attempt a s (ok (wrq f m o)) r net net' e = kept (a, s, false) r net net' e
  packet-attempt a s (ok (block_data b d)) r net net' e = kept (a, s, false) r net net' e
  packet-attempt a s (ok (oack o)) r net net' e = kept (a, s, false) r net net' e
  packet-attempt a s (err x) r net net' e = kept (a, s, false) r net net' e

  silence-attempt :
      (attempt : ℕ) (s : Sender fs) (r : ℕ × Sender fs × Bool) (net net' : Net)
      → on_silence fs attempt s net ≡ (ok r, net')
      → (leb s.cfg.retries attempt ≡ false)
        × (r ≡ (attempt + 1, s, false))
        × (net'.inbox ≡ net.inbox)
  silence-attempt a s r net net' e = elim (Bool-cases (leb s.cfg.retries a)) [
    | inl over ↦
        failed_not_ok fs (on_silence fs a s net) (timeout a) r net' (silence_raises fs a s net over)
          e
    | inr again ↦
        let e₁ = sym (silence_waits fs a s net again) ∙ e in
        let r_is : r ≡ (a + 1, s, false) = cc in
        let net_is : net' ≡ net = cc in (again, r_is, ap (λ (n : Net). n.inbox) net_is)
  ]

  -- What a round of the inner loop takes: an event, or a retry.
  Spends : Sender fs → ℕ → List Event → ℕ × Sender fs × Bool → List Event → Type 0
  Spends s attempt inbox r inbox' =
      (r.1.cfg ≡ s.cfg)
      × (((length inbox' < length inbox) × (r.0 ≡ attempt))
          ⊎ ((r.2 ≡ false)
              × (r.0 ≡ attempt + 1)
              × (attempt < s.cfg.retries)
              × (length inbox' ≤ length inbox)))

  received-Spends :
      (attempt : ℕ) (s : Sender fs) (got : Option Bytes) (r : ℕ × Sender fs × Bool)
      (net mid net' : Net)
      → recv_one s.peer net ≡ (ok got, mid)
      → on_received fs attempt s got mid ≡ (ok r, net')
      → Spends s attempt net.inbox r net'.inbox
  unfolding Spends
  received-Spends a s (some buf) r net mid net' is e =
      let (first, left) = recv_one-got s.peer net mid (ok (some buf)) is in
      let (same, inbox) = packet-attempt a s (decode buf) r mid net' e in
      let (kept_, _) = received_Moves fs a s (some buf) r mid net' e in
      (
        ap (λ (x : Sender fs). x.cfg) kept_,
        inl (rw (inbox ∙ left) (packet_taken s.peer net.inbox buf first), same),
      )
  received-Spends a s none r net mid net' is e =
      let (first, left) = recv_one-got s.peer net mid (ok none) is in
      let (again, r_is, inbox) = silence-attempt a s r mid net' e in
      (
        ap (λ (x : ℕ × Sender fs × Bool). x.1.cfg) r_is,
        inr (
          ap (λ (x : ℕ × Sender fs × Bool). x.2) r_is,
          ap (λ (x : ℕ × Sender fs × Bool). x.0) r_is,
          ground arith,
          rw (inbox ∙ left) (ground (arith, shorter s.peer net.inbox)),
        ),
      )

  -- The inner loop ended because the window has moved, and took an event at least.
  abbrev MovedOn : Sender fs → List Event → Ended (Sender fs) → List Event → Type 0
  MovedOn s inbox end_ inbox' =
      (s' : Sender fs) × (end_ ≡ finished s') × (s'.cfg ≡ s.cfg) × (length inbox' < length inbox)

  MovedOn-later :
      (s s₁ : Sender fs) (inbox inbox₁ inbox' : List Event) (end_ : Ended (Sender fs))
      → s₁.cfg ≡ s.cfg
      → length inbox₁ ≤ length inbox
      → MovedOn s₁ inbox₁ end_ inbox'
      → MovedOn s inbox end_ inbox'
  MovedOn-later s s₁ inbox inbox₁ inbox' end_ cfg less (s', is, cfg', taken) =
      (s', is, cfg' ∙ cfg, omega arith)

  abbrev Waits : ℕ → Type 0
  Waits fuel =
      (attempt : ℕ) (s : Sender fs) (end_ : Ended (Sender fs)) (net net' : Net)
      → attempt ≤ s.cfg.retries
      → length net.inbox + s.cfg.retries + 2 ≤ fuel + attempt
      → await fs fuel attempt s net ≡ (ok end_, net')
      → MovedOn s net.inbox end_ net'.inbox

  spent :
      (fuel attempt : ℕ) (s : Sender fs) (r : ℕ × Sender fs × Bool) (end_ : Ended (Sender fs))
      (inbox : List Event) (mid net' : Net)
      → Waits fuel
      → attempt ≤ s.cfg.retries
      → length inbox + s.cfg.retries + 2 ≤ suc fuel + attempt
      → Spends s attempt inbox r mid.inbox
      → unless_moved fs (await fs fuel) r mid ≡ (ok end_, net')
      → MovedOn s inbox end_ net'.inbox
  unfolding Spends
  spent fuel a s (a', s₁, true) end_ inbox mid net' ih fresh enough (cfg, inl (taken, same)) e =
      let end_is : end_ ≡ finished s₁ = cc in
      let net_is : mid.inbox ≡ net'.inbox = cc in (s₁, end_is, cfg, rw (← net_is) taken)
  spent fuel a s (a', s₁, true) end_ inbox mid net' ih fresh enough (cfg, inr (never, _, _, _)) e =
      absurd (cc)
  spent fuel a s (a', s₁, false) end_ inbox mid net' ih fresh enough (cfg, inl (taken, same)) e =
      let retries : s₁.cfg.retries ≡ s.cfg.retries = ap (λ (c : Config). c.retries) cfg in
      MovedOn-later s s₁ inbox mid.inbox net'.inbox end_ cfg (omega arith)
        (ih a' s₁ end_ mid net' (omega arith) (omega arith) e)
  spent fuel a s (a', s₁, false) end_ inbox mid net' ih fresh enough
        (cfg, inr (_, next, left, less)) e =
      let retries : s₁.cfg.retries ≡ s.cfg.retries = ap (λ (c : Config). c.retries) cfg in
      MovedOn-later s s₁ inbox mid.inbox net'.inbox end_ cfg less
        (ih a' s₁ end_ mid net' (omega arith) (omega arith) e)

  await_ends : (fuel : ℕ) → Waits fuel
  await_ends zero attempt s end_ net net' fresh enough e = absurd (omega arith)
  await_ends (suc fuel) attempt s end_ net net' fresh enough e =
      let (u, n₁, sent, e₁) =
        ran-eq-ok (send_window fs s net)
          (λ _. recv_one s.peer >>= λ got.
            on_received fs attempt s got >>= unless_moved fs (await fs fuel))
          (sym (await_form fs fuel attempt s net) ∙ e) in
      let (got, n₂, heard_, e₂) =
        ran-eq-ok (recv_one s.peer n₁)
          (λ got. on_received fs attempt s got >>= unless_moved fs (await fs fuel)) e₁ in
      let (r, n₃, handled, e₃) =
        ran-eq-ok (on_received fs attempt s got n₂) (unless_moved fs (await fs fuel)) e₂ in
      let same = send_frames-inbox s.peer s.in_flight net n₁ u (unfold send_window in sent) in
      spent fuel attempt s r end_ net.inbox n₃ net'
        (λ a s₁ x n n' f k h. await_ends fuel a s₁ x n n' f k h) fresh enough
        (rw same at (received-Spends attempt s got r n₁ n₂ n₃ heard_ handled)) e₃

  run_form :
      (fuel : ℕ) (s : Sender fs) (net : Net)
      → run fs (suc fuel) s net
        ≡ continue
            (fill_window fs s)
            (λ s'. turn fs (run fs fuel) s' (none_in_flight s'.in_flight))
            net
  run_form fuel s net = unfold run in refl

  turn_ends :
      (fuel : ℕ) (s : Sender fs) (over : Bool) (net net' : Net)
      → ((s₁ : Sender fs) (n : Net)
          → length n.inbox < fuel
          → run fs fuel s₁ n ≢ (ok out_of_fuel, net'))
      → length net.inbox < suc fuel
      → turn fs (run fs fuel) s over net ≢ (ok out_of_fuel, net')
  turn_ends fuel s true net net' ih enough e = cc
  turn_ends fuel s false net net' ih enough e =
      let (end_, mid, waited, e₁) =
        ran-eq-ok (await_move fs s net) (behind_window fs (run fs fuel)) e in
      let (s', is, _, taken) =
        await_ends (length net.inbox + s.cfg.retries + 2) 0 s end_ net mid (omega arith)
          (omega arith) waited in
      ih s' mid (omega arith) (rw is at e₁)

  -- With a round for each event that arrives and one more, the sender comes to an end, whatever
  -- arrives and whatever the file does: it returns, with or without an error.
  pub run_returns :
      (fuel : ℕ) (s : Sender fs) (net net' : Net)
      → length net.inbox < fuel
      → run fs fuel s net ≢ (ok out_of_fuel, net')
  run_returns zero s net net' enough e = omega arith
  run_returns (suc fuel) s net net' enough e =
      let (s₁, filled, e₁) =
        continue-eq-ok (fill_window fs s)
          (λ s'. turn fs (run fs fuel) s' (none_in_flight s'.in_flight))
          (sym (run_form fuel s net) ∙ e) in
      turn_ends fuel s₁ (none_in_flight s₁.in_flight) net net'
        (λ a n k h. run_returns fuel a n net' k h) enough e₁
