-- ===== src/Server/Sender/Adds.antt =====
-- What src/server.rs sends on the way: its DATA packets are blocks, and the rest are no DATA packets.
use atftp.Common.{
  ◌≡◌, ◌⊎◌, inl, inr, refl, sym, ap, ◌∙◌, List, [], ◌∷◌, ◌++◌, Option, none, some, ◌==◌, length,
  Bytes, Bool-cases, All, All-map, All-append, append_assoc, append-nil,
}
use atftp.Error.{ErrorKind, Result, ok, err, io}
use atftp.Io.Receive.{ran-eq-ok}
use atftp.Io.Sends.{Datagrams, Has, send_to-eq-ok}
use atftp.Io.{
  Address, Event, datagram, failure, silence, Net, continue, send_to, try_send_to, refuse,
  recv_loop, recv_one, unknown_transfer,
}
use atftp.Proto.Code.{unknown_tid}
use atftp.Proto.Packet.Others.{NoData, error-NoData}
use atftp.Proto.Packet.{error, encode_into}
use atftp.Server.Sender.Sends.{packet}
use atftp.Server.Sender.{send_frames}
use atftp.Window.{Frame}

-- What a datagram holds: one of the frames, or no DATA.
abbrev pub Made : List Frame → Address × Bytes → Type 0
Made frames (to, buf) = ((f : Frame) × Has f frames × (buf ≡ packet f)) ⊎ NoData buf

-- More has been sent, each such.
abbrev pub Adds : List Frame → Datagrams → Datagrams → Type 0
Adds frames a b = (more : Datagrams) × (b ≡ a ++ more) × All (Made frames) more

abbrev pub Within : List Frame → List Frame → Type 0
Within fs gs = (f : Frame) → Has f fs → Has f gs

pub Adds-self : (frames : List Frame) (a : Datagrams) → Adds frames a a
Adds-self frames a = ([], sym (append-nil a), tt)

pub Adds-trans :
    (frames : List Frame) (a b c : Datagrams) → Adds frames a b → Adds frames b c → Adds frames a c
Adds-trans frames a b c (m, e, all_m) (n, f, all_n) = (
  m ++ n,
  f ∙ ap (λ (l : Datagrams). l ++ n) e ∙ append_assoc a m n,
  All-append (Made frames) m n all_m all_n,
)

Made-Within : (fs gs : List Frame) (d : Address × Bytes) → Within fs gs → Made fs d → Made gs d
Made-Within fs gs d w (inl (f, has, is)) = inl (f, w f has, is)
Made-Within fs gs d w (inr other) = inr other

pub Adds-Within : (fs gs : List Frame) (a b : Datagrams) → Within fs gs → Adds fs a b → Adds gs a b
Adds-Within fs gs a b w (more, e, all) = (
  more,
  e,
  All-map {P = Made fs} {Q = Made gs} (λ (d : Address × Bytes) k. Made-Within fs gs d w k) more all,
)

pub same_outbox : (frames : List Frame) (a b : Datagrams) → b ≡ a → Adds frames a b
same_outbox frames a b e = ([], e ∙ sym (append-nil a), tt)

pub sent_Adds :
    (frames : List Frame) (buf : Bytes) (to : Address) (net net' : Net) (u : Unit {0})
    → Made frames (to, buf)
    → send_to buf to net ≡ (ok u, net')
    → Adds frames net.outbox net'.outbox
sent_Adds frames buf to net net' u made e =
    ((to, buf) ∷ [], send_to-eq-ok buf to net net' u e, (made, tt))

-- A sending that is let fail adds its datagram, or none.
tried_Adds :
    (frames : List Frame) (buf : Bytes) (to : Address) (net : Net)
    → Made frames (to, buf)
    → Adds frames net.outbox (try_send_to buf to net).outbox
tried_Adds frames buf to net made = go (net.send_fault (length net.outbox)) refl
  where
    go :
        (fault : Option ErrorKind)
        → net.send_fault (length net.outbox) ≡ fault
        → Adds frames net.outbox (try_send_to buf to net).outbox
    go none h =
        let sent : send_to buf to net
            ≡ (ok tt, record net { outbox = net.outbox ++ (to, buf) ∷ [] }) =
          unfold send_to in simp (h, send_to) in
        (
          (to, buf) ∷ [],
          (unfold try_send_to in ap (λ (r : Result (Unit {0}) × Net). r.1.outbox) sent),
          (made, tt),
        )
    go (some kind) h =
        let failed_ : send_to buf to net ≡ (err (io kind), net) =
          unfold send_to in simp (h, send_to) in
        same_outbox frames net.outbox _
          (unfold try_send_to in ap (λ (r : Result (Unit {0}) × Net). r.1.outbox) failed_)

refuse-Adds :
    (frames : List Frame) (src : Address) (net : Net)
    → Adds frames net.outbox (refuse src net).outbox
refuse-Adds frames src net =
    unfold refuse in
    tried_Adds frames (encode_into (error unknown_tid unknown_transfer) []) src net
      (inr (error-NoData unknown_tid unknown_transfer))

recv_loop-Adds :
    (frames : List Frame) (expected : Address) (inbox : List Event) (net : Net)
    → Adds frames net.outbox (recv_loop expected inbox net).1.outbox
unfolding recv_loop
recv_loop-Adds frames expected [] net = Adds-self frames net.outbox
recv_loop-Adds frames expected (silence ∷ inbox) net = Adds-self frames net.outbox
recv_loop-Adds frames expected (failure kind ∷ inbox) net = Adds-self frames net.outbox
recv_loop-Adds frames expected (datagram src buf ∷ inbox) net =
    elim (Bool-cases (src == expected)) [
      | inl same ↦ rw same (Adds-self frames net.outbox)
      | inr stranger ↦ rw stranger (
          Adds-trans frames net.outbox (refuse src net).outbox _ (refuse-Adds frames src net)
            (recv_loop-Adds frames expected inbox (refuse src net)))
    ]

pub recv_one-Adds :
    (frames : List Frame) (expected : Address) (net net' : Net) (r : Result (Option Bytes))
    → recv_one expected net ≡ (r, net')
    → Adds frames net.outbox net'.outbox
recv_one-Adds frames expected net net' r e =
    let adds : Adds frames net.outbox (recv_one expected net).1.outbox =
      unfold recv_one in recv_loop-Adds frames expected net.inbox net in
    rw (ap (λ (x : Result (Option Bytes) × Net). x.1.outbox) e) at adds

pub send_frames-Adds :
    (frames : List Frame) (to : Address) (fs : List Frame) (net net' : Net) (u : Unit {0})
    → Within fs frames
    → send_frames to fs net ≡ (ok u, net')
    → Adds frames net.outbox net'.outbox
send_frames-Adds frames to [] net net' u w e =
    same_outbox frames net.outbox net'.outbox (unfold send_frames in cc)
send_frames-Adds frames to ((bn, payload) ∷ rest) net net' u w e =
    let (u₁, mid, sent, e₁) =
      ran-eq-ok (send_to (packet (bn, payload)) to net) (λ _. send_frames to rest) (step ∙ e) in
    Adds-trans frames net.outbox mid.outbox net'.outbox
      (sent_Adds frames (packet (bn, payload)) to net mid u₁
        (inl ((bn, payload), w (bn, payload) (inl refl), refl)) sent)
      (send_frames-Adds frames to rest mid net' u (λ f has. w f (inr has)) e₁)
  where
    step :
        continue
          (send_to (packet (bn, payload)) to net).0
          (λ _. send_frames to rest)
          (send_to (packet (bn, payload)) to net).1
        ≡ send_frames to ((bn, payload) ∷ rest) net
    step = unfold send_frames in refl
