-- ===== src/Client/Request/Answered.antt =====
-- What the first phase of a transfer in src/client.rs has found when it ends well.
use atftp.Client.Request.{Answer, Arm, recv_front, recv_any, on_arm, on_answer, on_any, request}
use atftp.Common.{
  ℕ, zero, suc, ◌+◌, ◌≡◌, refl, sym, ap, ◌∙◌, Bool, true, false, List, [], ◌∷◌, ◌++◌, Option, none,
  some, take, ◌==◌, if◌then◌else◌, Bytes, append_assoc,
}
use atftp.Error.{Result, ok, err, timeout}
use atftp.Io.Receive.{ran-eq-ok, send_to-inbox, returned-eq}
use atftp.Io.{Address, Event, datagram, failure, silence, Net, Io, ◌>>=◌, send_to}
use atftp.Proto.Packet.{Packet, decode}
use atftp.Proto.{max_packet_size}

-- What `recv_any` has taken from the inbox.
abbrev Took : List Event → Option (Address × Bytes) → List Event → Type 0
Took inbox none left = (front : List Event) × (inbox ≡ front ++ left)
Took inbox (some (src, buf)) left =
    (raw : Bytes) × (buf ≡ take max_packet_size raw) × (inbox ≡ datagram src raw ∷ left)

packet-Took :
    (src : Address) (raw : Bytes) (inbox left : List Event) (got : Option (Address × Bytes))
    (buf : Bytes)
    → buf ≡ take max_packet_size raw
    → some (src, buf) ≡ got
    → inbox ≡ left
    → Took (datagram src raw ∷ inbox) got left
packet-Took src raw inbox left got buf is got_is left_is = rw (← got_is, ← left_is) (raw, is, refl)

recv_front-Took :
    (inbox : List Event) (net mid : Net) (got : Option (Address × Bytes))
    → net.inbox ≡ inbox
    → recv_front inbox net ≡ (ok got, mid)
    → Took inbox got mid.inbox
unfolding recv_front
recv_front-Took [] net mid got is e =
    let (got_is, net_is) = returned-eq e in rw (← got_is, ← net_is, is) ([], refl)
recv_front-Took (silence ∷ inbox) net mid got is e =
    let (got_is, net_is) = returned-eq e in rw (← got_is, ← net_is) (silence ∷ [], refl)
recv_front-Took (failure kind ∷ inbox) net mid got is e = cc
recv_front-Took (datagram src raw ∷ inbox) net mid got is e =
    let (got_is, net_is) = returned-eq e in
    packet-Took src raw inbox mid.inbox got (take max_packet_size raw) refl got_is
      (ap (λ (n : Net). n.inbox) net_is)

recv_any-Took :
    (net mid : Net) (got : Option (Address × Bytes))
    → recv_any net ≡ (ok got, mid)
    → Took net.inbox got mid.inbox
unfolding recv_any
recv_any-Took net mid got e = recv_front-Took net.inbox net mid got refl e

module _ (arm : Address → Packet → Arm) where
  -- A packet of the inbox for which the arm leaves the loop, and what that finds.
  pub record Found (inbox : List Event) (answer : Answer) (net' : Net) : Type 0 where
    pub front : List Event
    pub src : Address
    pub raw : Bytes
    pub packet : Packet
    pub action : Io Answer
    pub behind : Net
    pub arrived : inbox ≡ front ++ datagram src raw ∷ behind.inbox
    pub is_packet : decode (take max_packet_size raw) ≡ ok packet
    pub taken : arm src packet ≡ some action
    pub acted : action behind ≡ (ok answer, net')

  Found-later :
      (inbox inbox' front : List Event) (answer : Answer) (net' : Net)
      → inbox ≡ front ++ inbox'
      → Found inbox' answer net'
      → Found inbox answer net'
  Found-later inbox inbox' front answer net' e f = record {
    front = front ++ f.front;
    src = f.src;
    raw = f.raw;
    packet = f.packet;
    action = f.action;
    behind = f.behind;
    arrived =
        e ∙ ap (λ (l : List Event). front ++ l) f.arrived ∙ sym (append_assoc front f.front _);
    is_packet = f.is_packet;
    taken = f.taken;
    acted = f.acted;
  }

  module _ (retries : ℕ) (server : Address) (req : Bytes) where
    request_form :
        (left attempt : ℕ) (net : Net)
        → request arm retries server req (suc left) attempt net
          ≡ (send_to req server >>= λ _. recv_any >>= λ got.
                on_any arm retries server req
                  (request arm retries server req left (attempt + 1))
                  attempt
                  got)
              net
    request_form left attempt net = unfold request in refl

    abbrev Requests : ℕ → Type 0
    Requests left =
        (attempt : ℕ) (answer : Answer) (net net' : Net)
        → request arm retries server req left attempt net ≡ (ok answer, net')
        → Found net.inbox answer net'

    on_arm-Found :
        (left attempt : ℕ) (answer : Answer) (inbox : List Event) (src : Address) (raw : Bytes)
        (packet : Packet) (mid net' : Net) (a : Arm)
        → Requests left
        → inbox ≡ datagram src raw ∷ mid.inbox
        → decode (take max_packet_size raw) ≡ ok packet
        → arm src packet ≡ a
        → on_arm arm retries server req (request arm retries server req left (attempt + 1)) a mid
          ≡ (ok answer, net')
        → Found inbox answer net'
    on_arm-Found left attempt answer inbox src raw packet mid net' none ih is p t e =
        Found-later inbox mid.inbox (datagram src raw ∷ []) answer net' is
          (ih (attempt + 1) answer mid net' e)
    on_arm-Found left attempt answer inbox src raw packet mid net' (some action) ih is p t e =
        record {
          front = [];
          src = src;
          raw = raw;
          packet = packet;
          action = action;
          behind = mid;
          arrived = is;
          is_packet = p;
          taken = t;
          acted = e;
        }

    on_answer-Found :
        (left attempt : ℕ) (answer : Answer) (inbox : List Event) (src : Address) (raw : Bytes)
        (r : Result Packet) (mid net' : Net)
        → Requests left
        → inbox ≡ datagram src raw ∷ mid.inbox
        → decode (take max_packet_size raw) ≡ r
        → on_answer arm retries server req
            (request arm retries server req left (attempt + 1))
            src
            r
            mid
          ≡ (ok answer, net')
        → Found inbox answer net'
    on_answer-Found left attempt answer inbox src raw (err x) mid net' ih is p e = cc
    on_answer-Found left attempt answer inbox src raw (ok packet) mid net' ih is p e =
        on_arm-Found left attempt answer inbox src raw packet mid net' (arm src packet) ih is p refl
          e

    on_silence-Found :
        (left attempt : ℕ) (answer : Answer) (inbox front : List Event) (over : Bool)
        (mid net' : Net)
        → Requests left
        → inbox ≡ front ++ mid.inbox
        → (if over
              then (λ (n : Net). (err (timeout attempt), n))
              else request arm retries server req left (attempt + 1))
            mid
          ≡ (ok answer, net')
        → Found inbox answer net'
    on_silence-Found left attempt answer inbox front true mid net' ih is e = cc
    on_silence-Found left attempt answer inbox front false mid net' ih is e =
        Found-later inbox mid.inbox front answer net' is (ih (attempt + 1) answer mid net' e)

    on_any-Found :
        (left attempt : ℕ) (answer : Answer) (inbox : List Event) (got : Option (Address × Bytes))
        (mid net' : Net)
        → Requests left
        → Took inbox got mid.inbox
        → on_any arm retries server req
            (request arm retries server req left (attempt + 1))
            attempt
            got
            mid
          ≡ (ok answer, net')
        → Found inbox answer net'
    on_any-Found left attempt answer inbox none mid net' ih (front, is) e =
        on_silence-Found left attempt answer inbox front (attempt == retries) mid net' ih is e
    on_any-Found left attempt answer inbox (some (src, buf)) mid net' ih (raw, buf_is, is) e =
        on_answer-Found left attempt answer inbox src raw (decode buf) mid net' ih is
          (ap decode (sym buf_is)) e

    -- A first phase that ends well has found a packet in the inbox that is an answer, and has
    -- taken the inbox up to it.
    pub request-Found : (left : ℕ) → Requests left
    request-Found zero attempt answer net net' e = unfold request in cc
    request-Found (suc left) attempt answer net net' e =
        let (u, n₁, sent, e₁) =
          ran-eq-ok (send_to req server net)
            (λ _. recv_any >>= λ got.
              on_any arm retries server req (request arm retries server req left (attempt + 1))
                attempt got)
            (sym (request_form left attempt net) ∙ e) in
        let (got, n₂, heard_, e₂) =
          ran-eq-ok (recv_any n₁)
            (λ got.
              on_any arm retries server req (request arm retries server req left (attempt + 1))
                attempt got)
            e₁ in
        let same : n₁.inbox ≡ net.inbox =
          ap (λ (r : Result (Unit {0}) × Net). r.1.inbox) (sym sent)
          ∙ send_to-inbox req server net in
        rw same at (
          on_any-Found left attempt answer n₁.inbox got n₂ net' (request-Found left)
            (recv_any-Took n₁ n₂ got heard_) e₂)
