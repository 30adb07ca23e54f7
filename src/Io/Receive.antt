-- ===== src/Io/Receive.antt =====
-- What `recv_one` takes from the inbox: the packets of strangers up to the first event that is
-- none, and that event. What is sent meanwhile does not matter.
use atftp.Common.{
  ◌≡◌, ◌<◌, ◌⊎◌, inl, inr, refl, sym, ap, ◌∙◌, ◌∙◌, List, [], ◌∷◌, Option, none, some, length, take,
  ◌==◌, if◌then◌else◌, Bool-cases, arith, Bytes, true, false,
}
use atftp.Error.{Result, ok, err, io}
use atftp.Io.{
  Address, Event, datagram, failure, silence, Net, continue, send_to, refuse, recv_loop, recv_one,
}
use atftp.Proto.{max_packet_size}

abbrev pub Heard : Type 0
Heard = Result (Option Bytes) × List Event

unfoldable pub heard : Address → List Event → Heard
heard expected [] = (ok none, [])
heard expected (silence ∷ inbox) = (ok none, inbox)
heard expected (failure kind ∷ inbox) = (err (io kind), inbox)
heard expected (datagram src buf ∷ inbox) =
    if src == expected then (ok (some (take max_packet_size buf)), inbox) else heard expected inbox

pub heard_peer :
    (expected src : Address) (buf : Bytes) (inbox : List Event)
    → src == expected ≡ true
    → heard expected (datagram src buf ∷ inbox) ≡ (ok (some (take max_packet_size buf)), inbox)
heard_peer expected src buf inbox same = unfold heard in rw (same, heard) refl

pub heard_stranger :
    (expected src : Address) (buf : Bytes) (inbox : List Event)
    → src == expected ≡ false
    → heard expected (datagram src buf ∷ inbox) ≡ heard expected inbox
heard_stranger expected src buf inbox stranger = unfold heard in rw (stranger, heard) refl

abbrev seen : Result (Option Bytes) × Net → Heard
seen (r, net) = (r, net.inbox)

recv_loop-heard :
    (expected : Address) (inbox : List Event) (net : Net)
    → seen (recv_loop expected inbox net) ≡ heard expected inbox
unfolding recv_loop heard
recv_loop-heard expected [] net = refl
recv_loop-heard expected (silence ∷ inbox) net = refl
recv_loop-heard expected (failure kind ∷ inbox) net = refl
recv_loop-heard expected (datagram src buf ∷ inbox) net = elim (Bool-cases (src == expected)) [
  | inl same ↦ rw same refl
  | inr stranger ↦ rw stranger (recv_loop-heard expected inbox (refuse src net))
]

-- `recv_one` as a function of the inbox.
recv_one-heard :
    (expected : Address) (net : Net)
    → ((recv_one expected net).0 ≡ (heard expected net.inbox).0)
      × ((recv_one expected net).1.inbox ≡ (heard expected net.inbox).1)
unfolding recv_one
recv_one-heard expected net =
    let same = recv_loop-heard expected net.inbox net in
    (ap (λ (h : Heard). h.0) same, ap (λ (h : Heard). h.1) same)

pub recv_one-got :
    (expected : Address) (net net' : Net) (got : Result (Option Bytes))
    → recv_one expected net ≡ (got, net')
    → ((heard expected net.inbox).0 ≡ got) × (net'.inbox ≡ (heard expected net.inbox).1)
recv_one-got expected net net' got e =
    let (first, left) = recv_one-heard expected net in
    (
      sym first ∙ ap (λ (r : Result (Option Bytes) × Net). r.0) e,
      ap (λ (r : Result (Option Bytes) × Net). r.1.inbox) (sym e) ∙ left,
    )

-- An event is taken, or there was none.
pub heard-length :
    (expected : Address) (inbox : List Event)
    → (length (heard expected inbox).1 < length inbox)
      ⊎ (((heard expected inbox).0 ≡ ok none) × ((heard expected inbox).1 ≡ []))
unfolding heard
heard-length expected [] = inr (refl, refl)
heard-length expected (silence ∷ inbox) = inl (omega arith)
heard-length expected (failure kind ∷ inbox) = inl (omega arith)
heard-length expected (datagram src buf ∷ inbox) = ground (arith, heard-length expected inbox)

pub shorter :
    (peer : Address) (inbox : List Event)
    → (length (heard peer inbox).1 < length inbox) ⊎ ((heard peer inbox).1 ≡ [])
shorter peer inbox = elim (heard-length peer inbox) [
  | inl less ↦ inl less
  | inr (_, over) ↦ inr over
]

pub packet_taken :
    (peer : Address) (inbox : List Event) (buf : Bytes)
    → (heard peer inbox).0 ≡ ok (some buf)
    → length (heard peer inbox).1 < length inbox
packet_taken peer inbox buf h = elim (heard-length peer inbox) [
  | inl less ↦ less
  | inr (none_, _) ↦ absurd (cc)
]

pub send_to-inbox :
    (buf : Bytes) (peer : Address) (net : Net) → (send_to buf peer net).1.inbox ≡ net.inbox
unfolding send_to
send_to-inbox buf peer net = ground arith

module _ {ℓ κ} {A : Type ℓ} {B : Type κ} where
  -- Where a chain of actions succeeds, so did its first, and the rest where that left off.
  pub continue-eq-ok :
      (r : Result A) (rest : A → Net → Result B × Net) {net net' : Net} {b : B}
      → continue r rest net ≡ (ok b, net')
      → (a : A) × (r ≡ ok a) × (rest a net ≡ (ok b, net'))
  continue-eq-ok (ok a) rest e = (a, refl, e)
  continue-eq-ok (err x) rest e = cc

  -- The same where the first action has been run.
  pub ran-eq-ok :
      (run : Result A × Net) (rest : A → Net → Result B × Net) {net' : Net} {b : B}
      → continue run.0 rest run.1 ≡ (ok b, net')
      → (a : A) × (mid : Net) × (run ≡ (ok a, mid)) × (rest a mid ≡ (ok b, net'))
  ran-eq-ok (ok a, mid) rest e = (a, mid, refl, e)
  ran-eq-ok (err x, mid) rest e = cc

  -- And back: an action that has run is followed by the rest.
  pub continue-ok :
      (r : Result A) (rest : A → Net → Result B × Net) (net : Net) (a : A)
      → r ≡ ok a
      → continue r rest net ≡ rest a net
  continue-ok r rest net a e = ap (λ (x : Result A). continue x rest net) e

  pub ran-ok :
      (run : Result A × Net) (rest : A → Net → Result B × Net) (a : A) (mid : Net)
      → run ≡ (ok a, mid)
      → continue run.0 rest run.1 ≡ rest a mid
  ran-ok run rest a mid e = ap (λ (x : Result A × Net). continue x.0 rest x.1) e

module _ {ℓ} {A : Type ℓ} where
  pub returned-eq :
      {a b : A} {net net' : Net}
      → ◌≡◌ {A = Result A × Net} (ok a, net) (ok b, net')
      → (a ≡ b) × (net ≡ net')
  returned-eq e = (cc, cc)
