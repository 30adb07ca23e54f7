-- ===== src/Server/Sender/Awaits.antt =====
-- What `RrqSender::run` of src/server.rs sends while it waits for a window to move.
use atftp.Common.{
  ℕ, zero, suc, ◌+◌, ◌≡◌, inl, inr, sym, ap, ◌∙◌, Bool, true, false, List, [], ◌∷◌, Option, none,
  some, leb, ◌==◌, Bytes, Bool-cases,
}
use atftp.Error.{Result, ok, err, timeout}
use atftp.Files.{Files}
use atftp.Io.Receive.{ran-eq-ok}
use atftp.Io.{Net, recv_one, ◌>>=◌, finished}
use atftp.Proto.Packet.{Packet, rrq, wrq, block_data, ack, error, oack, decode}
use atftp.Server.Sender.Loop.{on_packet, on_silence, on_received, unless_moved, await}
use atftp.Server.Sender.Sends.{silence_waits, silence_raises, failed_not_ok, await_form}
use atftp.Server.Sender.{Sender, send_window, consume_ack}
use atftp.Window.{Frame, pop_acked, u16_le_in_window}
use atftp.Server.Sender.Adds.{
  Adds, Adds-trans, Within, same_outbox, recv_one-Adds, send_frames-Adds,
}

popped_Within :
    (block windowsize : ℕ) (q : List Frame) (advanced : Bool)
    → Within (pop_acked block windowsize q advanced).0 q
unfolding pop_acked
popped_Within block windowsize [] advanced f has = has
popped_Within block windowsize ((bn, payload) ∷ rest) advanced f has =
    elim (Bool-cases (bn == block)) [
      | inl its ↦ inr (rw its at has)
      | inr other ↦ elim (Bool-cases (u16_le_in_window bn block windowsize)) [
        | inl acked ↦ inr (popped_Within block windowsize rest true f (rw (other, acked) at has))
        | inr open_ ↦ rw (other, open_) at has
      ]
    ]

module _ (fs : Files) where
  -- The handlers send nothing, and put nothing in flight.
  abbrev Quiet : Sender fs → Sender fs → Net → Net → Type 0
  Quiet s s' net net' = (net'.outbox ≡ net.outbox) × Within s'.in_flight s.in_flight

  quiet :
      (s : Sender fs) (r r' : ℕ × Sender fs × Bool) (net net' : Net)
      → ◌≡◌ {A = Result (ℕ × Sender fs × Bool) × Net} (ok r, net) (ok r', net')
      → Within r.1.in_flight s.in_flight
      → Quiet s r'.1 net net'
  quiet s r r' net net' e w =
      let same : r' ≡ r = cc in
      let rest : net' ≡ net = cc in (ap (λ (n : Net). n.outbox) rest, rw same w)

  packet_Quiet :
      (attempt : ℕ) (s : Sender fs) (p : Result Packet) (r : ℕ × Sender fs × Bool) (net net' : Net)
      → on_packet fs attempt s p net ≡ (ok r, net')
      → Quiet s r.1 net net'
  unfolding on_packet
  packet_Quiet a s (ok (ack block)) r net net' e =
      quiet s (a, (consume_ack fs s block).0, (consume_ack fs s block).1) r net net' e
        (unfold consume_ack in popped_Within block s.neg.windowsize s.in_flight false)
  packet_Quiet a s (ok (error code msg)) r net net' e = cc
  packet_Quiet a s (ok (rrq f m o)) r net net' e = quiet s (a, s, false) r net net' e (λ x has. has)
  packet_Quiet a s (ok (wrq f m o)) r net net' e = quiet s (a, s, false) r net net' e (λ x has. has)
  packet_Quiet a s (ok (block_data b d)) r net net' e =
      quiet s (a, s, false) r net net' e (λ x has. has)
  packet_Quiet a s (ok (oack o)) r net net' e = quiet s (a, s, false) r net net' e (λ x has. has)
  packet_Quiet a s (err x) r net net' e = quiet s (a, s, false) r net net' e (λ x has. has)

  received_Quiet :
      (attempt : ℕ) (s : Sender fs) (got : Option Bytes) (r : ℕ × Sender fs × Bool) (net net' : Net)
      → on_received fs attempt s got net ≡ (ok r, net')
      → Quiet s r.1 net net'
  received_Quiet a s (some buf) r net net' e = packet_Quiet a s (decode buf) r net net' e
  received_Quiet a s none r net net' e = elim (Bool-cases (leb s.cfg.retries a)) [
    | inl over ↦
        failed_not_ok fs (on_silence fs a s net) (timeout a) r net' (silence_raises fs a s net over)
          e
    | inr again ↦
        quiet s (a + 1, s, false) r net net' (sym (silence_waits fs a s net again) ∙ e)
          (λ x has. has)
  ]

  -- The inner loop sends what is in flight, and no other blocks.
  abbrev pub Waits : List Frame → Sender fs → Sender fs → Net → Net → Type 0
  Waits frames s s' net net' = Adds frames net.outbox net'.outbox × Within s'.in_flight s.in_flight

  moved_Adds :
      (frames : List Frame) (fuel : ℕ) (s s' : Sender fs) (r : ℕ × Sender fs × Bool)
      (mid net' : Net)
      → Within r.1.in_flight s.in_flight
      → ((attempt : ℕ) (s₁ : Sender fs)
          → Within s₁.in_flight s.in_flight
          → await fs fuel attempt s₁ mid ≡ (ok (finished s'), net')
          → Waits frames s₁ s' mid net')
      → unless_moved fs (await fs fuel) r mid ≡ (ok (finished s'), net')
      → Waits frames r.1 s' mid net'
  moved_Adds frames fuel s s' (attempt', s₁, true) mid net' within ih e =
      let s_is : s' ≡ s₁ = cc in
      let net_is : net' ≡ mid = cc in
      (
        same_outbox frames mid.outbox net'.outbox (ap (λ (n : Net). n.outbox) net_is),
        rw s_is (λ f has. has),
      )
  moved_Adds frames fuel s s' (attempt', s₁, false) mid net' within ih e = ih attempt' s₁ within e

  pub await-Adds :
      (frames : List Frame) (fuel attempt : ℕ) (s s' : Sender fs) (net net' : Net)
      → Within s.in_flight frames
      → await fs fuel attempt s net ≡ (ok (finished s'), net')
      → Waits frames s s' net net'
  await-Adds frames zero attempt s s' net net' w e = unfold await in cc
  await-Adds frames (suc fuel) attempt s s' net net' w e =
      let (u, n₁, sent, e₁) =
        ran-eq-ok (send_window fs s net)
          (λ _. recv_one s.peer >>= λ got.
            on_received fs attempt s got >>= unless_moved fs (await fs fuel))
          (sym (await_form fs fuel attempt s net) ∙ e) in
      let (got, n₂, heard_, e₂) =
        ran-eq-ok (recv_one s.peer n₁)
          (λ got. on_received fs attempt s got >>= unless_moved fs (await fs fuel)) e₁ in
      let (r, n₃, handled, e₃) =
        ran-eq-ok (on_received fs attempt s got n₂) (unless_moved fs (await fs fuel)) e₂ in
      let window =
        send_frames-Adds frames s.peer s.in_flight net n₁ u w (unfold send_window in sent) in
      let (still, within) = received_Quiet attempt s got r n₂ n₃ handled in
      let (rest, inner) =
        moved_Adds frames fuel s s' r n₃ net' within
          (λ a s₁ v k. await-Adds frames fuel a s₁ s' n₃ net' (λ f has. w f (v f has)) k) e₃ in
      (
        Adds-trans frames net.outbox n₁.outbox net'.outbox window (
            Adds-trans frames n₁.outbox n₂.outbox net'.outbox
              (recv_one-Adds frames s.peer n₁ n₂ (ok got) heard_)
              (Adds-trans frames n₂.outbox n₃.outbox net'.outbox
                (same_outbox frames n₂.outbox n₃.outbox still) rest)),
        λ f has. within f (inner f has),
      )
