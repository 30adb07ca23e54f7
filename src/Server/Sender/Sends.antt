-- ===== src/Server/Sender/Sends.antt =====
-- What `RrqSender::run` has sent when it returns.
use atftp.Common.{
  ℕ, zero, suc, ◌+◌, ◌≡◌, inl, inr, refl, sym, ap, ◌∙◌, Bool, true, false, List, [], ◌∷◌, ◌++◌,
  Option, none, some, leb, Bytes, Bool-cases, All, All-map,
}
use atftp.Error.{Error, Result, ok, err, timeout}
use atftp.Files.{Files}
use atftp.Io.Receive.{ran-eq-ok}
use atftp.Io.Sends.{
  Datagrams, Has, Grows, Grows-self, Grows-trans, recv_one-Grows, Has-append, Has-last,
  send_to-eq-ok,
}
use atftp.Io.{Address, Net, ◌>>=◌, continue, send_to, recv_one, finished}
use atftp.Proto.Packet.{Packet, rrq, wrq, block_data, ack, error, oack, decode, encode_into}
use atftp.Server.Sender.Loop.{on_packet, on_silence, on_received, unless_moved, await}
use atftp.Server.Sender.{Sender, send_frames, send_window, consume_ack}
use atftp.Window.{Frame}

abbrev pub packet : Frame → Bytes
packet (bn, payload) = encode_into (block_data bn payload) []

-- Each frame has been sent to the peer.
abbrev pub Sent : Address → List Frame → Datagrams → Type 0
Sent to frames sent = All (λ (f : Frame). Has (to, packet f) sent) frames

pub Sent-Grows :
    (to : Address) (frames : List Frame) (a b : Datagrams)
    → Grows a b
    → Sent to frames a
    → Sent to frames b
Sent-Grows to frames a b (more, e) h = rw e (
    All-map {P = λ (f : Frame). Has (to, packet f) a}
      {Q = λ (f : Frame). Has (to, packet f) (a ++ more)}
      (λ f k. Has-append (to, packet f) a more k) frames h)

pub Sent-behind :
    (to : Address) (front frames : List Frame) (sent : Datagrams)
    → Sent to (front ++ frames) sent
    → Sent to frames sent
Sent-behind to [] frames sent h = h
Sent-behind to (f ∷ front) frames sent h = Sent-behind to front frames sent h.1

send_frames_lem :
    (to : Address) (frames : List Frame) (net net' : Net) (u : Unit {0})
    → send_frames to frames net ≡ (ok u, net')
    → Sent to frames net'.outbox × Grows net.outbox net'.outbox
send_frames_lem to [] net net' u e =
    let same : net ≡ net' = unfold send_frames in cc in (tt, rw (← same) (Grows-self net.outbox))
send_frames_lem to ((bn, payload) ∷ rest) net net' u e =
    let (_, mid, sent, e₁) =
      ran-eq-ok (send_to (packet (bn, payload)) to net) (λ _. send_frames to rest) (step ∙ e) in
    let (behind, grows) = send_frames_lem to rest mid net' u e₁ in
    let first = send_to-eq-ok (packet (bn, payload)) to net mid _ sent in
    let (more, last) = grows in
    (
      (
        rw (last, first)
            (Has-append (to, packet (bn, payload)) (net.outbox ++ (to, packet (bn, payload)) ∷ [])
              more (Has-last (to, packet (bn, payload)) net.outbox)),
        behind,
      ),
      Grows-trans net.outbox mid.outbox net'.outbox ((to, packet (bn, payload)) ∷ [], first) grows,
    )
  where
    step :
        continue
          (send_to (packet (bn, payload)) to net).0
          (λ _. send_frames to rest)
          (send_to (packet (bn, payload)) to net).1
        ≡ send_frames to ((bn, payload) ∷ rest) net
    step = unfold send_frames in refl

module _ (fs : Files) where
  -- Only the blocks in flight have changed, and more may have been sent.
  abbrev pub Moves : Sender fs → Sender fs → Net → Net → Type 0
  Moves s s' net net' = (s' ≡ record s { in_flight = s'.in_flight }) × Grows net.outbox net'.outbox

  returned :
      (s s' : Sender fs) (r r' : ℕ × Sender fs × Bool) (net net' : Net)
      → ◌≡◌ {A = Result (ℕ × Sender fs × Bool) × Net} (ok r, net) (ok r', net')
      → r.1 ≡ record s { in_flight = r.1.in_flight }
      → s' ≡ r'.1
      → Moves s s' net net'
  returned s s' r r' net net' e same is =
      let r_is : r ≡ r' = cc in
      let net_is : net ≡ net' = cc in
      let s_is : s' ≡ r.1 = is ∙ ap (λ (x : ℕ × Sender fs × Bool). x.1) (sym r_is) in
      (rw s_is same, rw (← net_is) (Grows-self net.outbox))

  received_ack :
      (s : Sender fs) (block : ℕ)
      → (consume_ack fs s block).0 ≡ record s { in_flight = (consume_ack fs s block).0.in_flight }
  received_ack s block = unfold consume_ack in refl

  pub packet_Moves :
      (attempt : ℕ) (s : Sender fs) (p : Result Packet) (r : ℕ × Sender fs × Bool) (net net' : Net)
      → on_packet fs attempt s p net ≡ (ok r, net')
      → Moves s r.1 net net'
  unfolding on_packet
  packet_Moves a s (ok (ack block)) r net net' e =
      returned s r.1 (a, (consume_ack fs s block).0, (consume_ack fs s block).1) r net net' e
        (received_ack s block) refl
  packet_Moves a s (ok (error code msg)) r net net' e = cc
  packet_Moves a s (ok (rrq f m o)) r net net' e =
      returned s r.1 (a, s, false) r net net' e refl refl
  packet_Moves a s (ok (wrq f m o)) r net net' e =
      returned s r.1 (a, s, false) r net net' e refl refl
  packet_Moves a s (ok (block_data b d)) r net net' e =
      returned s r.1 (a, s, false) r net net' e refl refl
  packet_Moves a s (ok (oack o)) r net net' e = returned s r.1 (a, s, false) r net net' e refl refl
  packet_Moves a s (err x) r net net' e = returned s r.1 (a, s, false) r net net' e refl refl

  pub silence_waits :
      (attempt : ℕ) (s : Sender fs) (net : Net)
      → leb s.cfg.retries attempt ≡ false
      → on_silence fs attempt s net ≡ (ok (attempt + 1, s, false), net)
  silence_waits attempt s net h = unfold on_silence in simp (h, on_silence)

  pub silence_raises :
      (attempt : ℕ) (s : Sender fs) (net : Net)
      → leb s.cfg.retries attempt ≡ true
      → (on_silence fs attempt s net).0 ≡ err (timeout attempt)
  silence_raises attempt s net h = unfold on_silence in simp (h, on_silence)

  pub failed_not_ok :
      {P : Type 0} {A : Type 0} (x : Result A × Net) (why : Error) (a : A) (net' : Net)
      → x.0 ≡ err why
      → x ≡ (ok a, net')
      → P
  failed_not_ok x why a net' h e = cc

  pub received_Moves :
      (attempt : ℕ) (s : Sender fs) (got : Option Bytes) (r : ℕ × Sender fs × Bool) (net net' : Net)
      → on_received fs attempt s got net ≡ (ok r, net')
      → Moves s r.1 net net'
  received_Moves a s (some buf) r net net' e = packet_Moves a s (decode buf) r net net' e
  received_Moves a s none r net net' e = elim (Bool-cases (leb s.cfg.retries a)) [
    | inl over ↦
        failed_not_ok (on_silence fs a s net) (timeout a) r net' (silence_raises a s net over) e
    | inr again ↦
        returned s r.1 (a + 1, s, false) r net net' (sym (silence_waits a s net again) ∙ e) refl
          refl
  ]

  pub await_form :
      (fuel attempt : ℕ) (s : Sender fs) (net : Net)
      → await fs (suc fuel) attempt s net
        ≡ (send_window fs s >>= λ _. recv_one s.peer >>= λ got.
              on_received fs attempt s got >>= unless_moved fs (await fs fuel))
            net
  await_form fuel attempt s net = unfold await in refl

  Moves-trans :
      (s s₁ s' : Sender fs) (a b c : Net) → Moves s s₁ a b → Moves s₁ s' b c → Moves s s' a c
  Moves-trans s s₁ s' a b c (same, grows) (same', grows') = (
    same' ∙ ap (λ (x : Sender fs). record x { in_flight = s'.in_flight }) same,
    Grows-trans a.outbox b.outbox c.outbox grows grows',
  )

  replied :
      (fuel : ℕ) (s s' : Sender fs) (r : ℕ × Sender fs × Bool) (a b c : Net)
      → Moves s r.1 a b
      → ((attempt : ℕ) (s₁ : Sender fs)
          → await fs fuel attempt s₁ b ≡ (ok (finished s'), c)
          → Moves s₁ s' b c)
      → unless_moved fs (await fs fuel) r b ≡ (ok (finished s'), c)
      → Moves s s' a c
  replied fuel s s' (attempt, s₁, true) a b c m ih e =
      let s_is : s₁ ≡ s' = cc in let net_is : b ≡ c = cc in rw (← s_is, ← net_is) m
  replied fuel s s' (attempt, s₁, false) a b c m ih e =
      Moves-trans s s₁ s' a b c m (ih attempt s₁ e)

  -- The inner loop has sent the window, and changed nothing but what is in flight.
  pub await_lem :
      (fuel attempt : ℕ) (s s' : Sender fs) (net net' : Net)
      → await fs fuel attempt s net ≡ (ok (finished s'), net')
      → Moves s s' net net' × Sent s.peer s.in_flight net'.outbox
  await_lem zero attempt s s' net net' e = unfold await in cc
  await_lem (suc fuel) attempt s s' net net' e =
      let (u, n₁, sent, e₁) =
        ran-eq-ok (send_window fs s net)
          (λ _. recv_one s.peer >>= λ got.
            on_received fs attempt s got >>= unless_moved fs (await fs fuel))
          (sym (await_form fuel attempt s net) ∙ e) in
      let (got, n₂, heard_, e₂) =
        ran-eq-ok (recv_one s.peer n₁)
          (λ got. on_received fs attempt s got >>= unless_moved fs (await fs fuel)) e₁ in
      let (r, n₃, handled, e₃) =
        ran-eq-ok (on_received fs attempt s got n₂) (unless_moved fs (await fs fuel)) e₂ in
      let (window, g₁) = send_frames_lem s.peer s.in_flight net n₁ u (unfold send_window in sent) in
      let (more, g₂) = received_Moves attempt s got r n₂ n₃ handled in
      let (same, grows) =
        replied fuel s s' r n₂ n₃ net' (more, g₂)
          (λ attempt' s₁ k. (await_lem fuel attempt' s₁ s' n₃ net' k).0) e₃ in
      let g₁₂ : Grows n₁.outbox n₂.outbox =
        rw (ap (λ (x : Result (Option Bytes) × Net). x.1.outbox) heard_) at
          (recv_one-Grows s.peer n₁) in
      let rest = Grows-trans n₁.outbox n₂.outbox net'.outbox g₁₂ grows in
      (
        (same, Grows-trans net.outbox n₁.outbox net'.outbox g₁ rest),
        Sent-Grows s.peer s.in_flight n₁.outbox net'.outbox rest window,
      )
