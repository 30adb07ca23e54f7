-- ===== src/Io/Sends.antt =====
-- What has been sent stays sent: the outbox only grows.
use atftp.Common.{
  ◌≡◌, ◌⊎◌, inl, inr, refl, sym, ap, ◌∙◌, List, [], ◌∷◌, ◌++◌, Option, none, some, length, ◌==◌,
  Bool-cases, append_assoc, append-nil, Bytes,
}
use atftp.Error.{ErrorKind, Result, ok, err, io}
use atftp.Io.{
  Address, Event, datagram, failure, silence, Net, send_to, try_send_to, refuse, recv_loop,
  recv_one,
}

abbrev pub Datagrams : Type 0
Datagrams = List (Address × Bytes)

-- A list has an item.
abbrev pub Has : {A : Type 0} → A → List A → Type 0
Has x [] = ⊥
Has x (y ∷ ys) = (x ≡ y) ⊎ Has x ys

abbrev pub Grows : Datagrams → Datagrams → Type 0
Grows sent sent' = (more : Datagrams) × (sent' ≡ sent ++ more)

pub Grows-self : (sent : Datagrams) → Grows sent sent
Grows-self sent = ([], sym (append-nil sent))

pub Grows-trans : (a b c : Datagrams) → Grows a b → Grows b c → Grows a c
Grows-trans a b c (m, e) (n, f) =
    (m ++ n, f ∙ ap (λ (l : Datagrams). l ++ n) e ∙ append_assoc a m n)

pub send_to-Grows :
    (buf : Bytes) (to : Address) (net : Net) → Grows net.outbox (send_to buf to net).1.outbox
send_to-Grows buf to net = go (net.send_fault (length net.outbox)) refl
  where
    go :
        (fault : Option ErrorKind)
        → net.send_fault (length net.outbox) ≡ fault
        → Grows net.outbox (send_to buf to net).1.outbox
    go none h = ((to, buf) ∷ [], (unfold send_to in simp (h, send_to)))
    go (some kind) h = unfold send_to in simp (h, send_to) (Grows-self net.outbox)

refuse-Grows : (src : Address) (net : Net) → Grows net.outbox (refuse src net).outbox
refuse-Grows src net = unfold refuse try_send_to in send_to-Grows _ src net

recv_loop-Grows :
    (expected : Address) (inbox : List Event) (net : Net)
    → Grows net.outbox (recv_loop expected inbox net).1.outbox
unfolding recv_loop
recv_loop-Grows expected [] net = Grows-self net.outbox
recv_loop-Grows expected (silence ∷ inbox) net = Grows-self net.outbox
recv_loop-Grows expected (failure kind ∷ inbox) net = Grows-self net.outbox
recv_loop-Grows expected (datagram src buf ∷ inbox) net = elim (Bool-cases (src == expected)) [
  | inl same ↦ rw same (Grows-self net.outbox)
  | inr stranger ↦ rw stranger (
      Grows-trans net.outbox (refuse src net).outbox _ (refuse-Grows src net)
        (recv_loop-Grows expected inbox (refuse src net)))
]

pub recv_one-Grows :
    (expected : Address) (net : Net) → Grows net.outbox (recv_one expected net).1.outbox
recv_one-Grows expected net = unfold recv_one in recv_loop-Grows expected net.inbox net

pub Has-append : {A : Type 0} (x : A) (l m : List A) → Has x l → Has x (l ++ m)
Has-append x [] m h = absurd h
Has-append x (y ∷ l) m (inl e) = inl e
Has-append x (y ∷ l) m (inr h) = inr (Has-append x l m h)

pub Has-last : {A : Type 0} (x : A) (l : List A) → Has x (l ++ x ∷ [])
Has-last x [] = inl refl
Has-last x (y ∷ l) = inr (Has-last x l)

pub send_to-eq-ok :
    (buf : Bytes) (to : Address) (net net' : Net) (u : Unit {0})
    → send_to buf to net ≡ (ok u, net')
    → net'.outbox ≡ net.outbox ++ (to, buf) ∷ []
send_to-eq-ok buf to net net' u e = go (net.send_fault (length net.outbox)) refl
  where
    go :
        (fault : Option ErrorKind)
        → net.send_fault (length net.outbox) ≡ fault
        → net'.outbox ≡ net.outbox ++ (to, buf) ∷ []
    go none h =
        let sent : send_to buf to net
            ≡ (ok tt, record net { outbox = net.outbox ++ (to, buf) ∷ [] }) =
          unfold send_to in simp (h, send_to) in
        ap (λ (r : Result (Unit {0}) × Net). r.1.outbox) (sym e ∙ sent)
    go (some kind) h =
        let failed_ : send_to buf to net ≡ (err (io kind), net) =
          unfold send_to in simp (h, send_to) in
        absurd (let no = sym failed_ ∙ e in cc)
