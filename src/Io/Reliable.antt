-- ===== src/Io/Reliable.antt =====
-- A network on which every sending succeeds, and the actions that succeed on it.
use atftp.Common.{
  ℕ, ◌≡◌, inl, inr, sym, ◌∙◌, List, [], ◌∷◌, ◌++◌, none, length, ◌==◌, Bool-cases, subst, Bytes,
}
use atftp.Error.{Result, ok}
use atftp.Io.Receive.{ran-ok}
use atftp.Io.{
  Address, Event, datagram, failure, silence, Net, ◌>>=◌, send_to, try_send_to, refuse, recv_loop,
  recv_one,
}

abbrev pub IsReliable : Net → Type 0
IsReliable net = (n : ℕ) → net.send_fault n ≡ none

-- An action succeeds, and the network stays reliable.
abbrev pub Goes : {A : Type 0} → (Net → Result A × Net) → Net → Type 0
Goes {A} m net = (a : A) × (net' : Net) × (m net ≡ (ok a, net')) × IsReliable net'

pub send_to-Goes :
    (buf : Bytes) (to : Address) (net : Net) → IsReliable net → Goes (send_to buf to) net
send_to-Goes buf to net safe =
    let quiet = safe (length net.outbox) in
    (
      tt,
      record net { outbox = net.outbox ++ (to, buf) ∷ [] },
      (unfold send_to in simp (quiet, send_to)),
      safe,
    )

module _ {A B : Type 0} where
  pub bind-Goes :
      (m : Net → Result A × Net) (rest : A → Net → Result B × Net) (net : Net)
      → Goes m net
      → ((a : A) (mid : Net) → m net ≡ (ok a, mid) → IsReliable mid → Goes (rest a) mid)
      → Goes (m >>= rest) net
  bind-Goes m rest net (a, mid, ran, safe) next =
      let (b, net', e, safe') = next a mid ran safe in
      (b, net', ran-ok (m net) rest a mid ran ∙ e, safe')

module _ {A : Type 0} where
  -- The same action, written another way.
  pub same-Goes :
      (m m' : Net → Result A × Net) (net : Net) → m net ≡ m' net → Goes m' net → Goes m net
  same-Goes m m' net same (a, net', e, safe) = (a, net', same ∙ e, safe)

try_send_to-IsReliable :
    (buf : Bytes) (to : Address) (net : Net) → IsReliable net → IsReliable (try_send_to buf to net)
try_send_to-IsReliable buf to net safe =
    unfold try_send_to in
    let (_, net', e, safe') = send_to-Goes buf to net safe in
    subst (λ (r : Result (Unit {0}) × Net). IsReliable r.1) (sym e) safe'

refuse-IsReliable : (src : Address) (net : Net) → IsReliable net → IsReliable (refuse src net)
refuse-IsReliable src net safe = unfold refuse in try_send_to-IsReliable _ src net safe

recv_loop-IsReliable :
    (expected : Address) (inbox : List Event) (net : Net)
    → IsReliable net
    → IsReliable (recv_loop expected inbox net).1
unfolding recv_loop
recv_loop-IsReliable expected [] net safe = safe
recv_loop-IsReliable expected (silence ∷ inbox) net safe = safe
recv_loop-IsReliable expected (failure kind ∷ inbox) net safe = safe
recv_loop-IsReliable expected (datagram src buf ∷ inbox) net safe =
    elim (Bool-cases (src == expected)) [
      | inl same ↦ rw same safe
      | inr stranger ↦
          rw stranger
            (recv_loop-IsReliable expected inbox (refuse src net) (refuse-IsReliable src net safe))
    ]

pub recv_one-IsReliable :
    (expected : Address) (net : Net) → IsReliable net → IsReliable (recv_one expected net).1
recv_one-IsReliable expected net safe =
    unfold recv_one in recv_loop-IsReliable expected net.inbox net safe
