-- ===== src/Io.antt =====
-- The environment of a transfer: what tokio's UDP socket does for src/server.rs and src/client.rs.
-- The packets that arrive and the fate of each sending are arguments. Time is not modelled: an
-- event says that a packet came before the deadline, or that none did.
pub mod Receive
pub mod Sends
pub mod Reliable
use atftp.Common.{
  ℕ, List, [], ◌∷◌, ◌++◌, Option, none, some, length, take, ◌==◌, if◌then◌else◌, Bytes, codes,
}
use atftp.Error.{ErrorKind, Error, Result, ok, err, io}
use atftp.Proto.Code.{unknown_tid}
use atftp.Proto.Packet.{error, encode_into}
use atftp.Proto.{max_packet_size}

-- A socket address; only equality is used of it.
abbrev pub Address : Type 0
Address = ℕ

-- `recv_from` under `timeout_at`: a datagram, an error of the socket, or the deadline.
pub data Event : Type 0 where
  datagram : Address → Bytes → Event
  failure : ErrorKind → Event
  silence : Event

-- `send_fault n` is the error that sending fails with when `n` datagrams have been sent.
pub record Net : Type 0 where
  pub inbox : List Event
  pub outbox : List (Address × Bytes)
  pub send_fault : ℕ → Option ErrorKind

-- An action of a transfer: what was sent stays sent, also when it fails.
abbrev pub Io {ℓ} : Type ℓ → Type ℓ
Io A = Net → Result A × Net

module _ {ℓ} {A : Type ℓ} where
  abbrev pub pure : A → Io A
  pure a net = (ok a, net)

  abbrev pub raise : Error → Io A
  raise e net = (err e, net)

  abbrev pub lift : Result A → Io A
  lift r net = (r, net)

module _ {ℓ κ} {A : Type ℓ} {B : Type κ} where
  abbrev pub continue : Result A → (A → Net → Result B × Net) → Net → Result B × Net
  continue (ok a) f net = f a net
  continue (err e) f net = (err e, net)

  infixl 5 ◌>>=◌ ◌>>◌
  abbrev pub ◌>>=◌ : (Net → Result A × Net) → (A → Net → Result B × Net) → Net → Result B × Net
  ◌>>=◌ m f net = let (r, net') = m net in continue r f net'

  abbrev pub ◌>>◌ : (Net → Result A × Net) → (Net → Result B × Net) → Net → Result B × Net
  m >> n = m >>= λ _. n

-- How the loop of a transfer ended, or that the model had too little fuel for it.
pub data Ended {ℓ} (A : Type ℓ) : Type ℓ where
  finished : A → Ended A
  panicked out_of_fuel : Ended A

-- `sock.send_to(&buf, peer).await?`
unfoldable pub send_to : Bytes → Address → Io (Unit {0})
send_to buf peer net = elim (net.send_fault (length net.outbox)) [
  | none ↦ (ok tt, record net { outbox = net.outbox ++ (peer, buf) ∷ [] })
  | some kind ↦ (err (io kind), net)
]

-- `let _ = sock.send_to(&buf, peer).await`
unfoldable pub try_send_to : Bytes → Address → Net → Net
unfolding send_to
try_send_to buf peer net = (send_to buf peer net).1

abbrev pub unknown_transfer : Bytes
unknown_transfer = codes "unknown transfer id"

-- The answer to a packet of a stranger.
unfoldable pub refuse : Address → Net → Net
unfolding try_send_to encode_into
refuse src net = try_send_to (encode_into (error unknown_tid unknown_transfer) []) src net

-- `recv_one`, which the server and the client have alike: the loop over the packets of strangers.
-- The buffer holds `max_packet_size` bytes; what is longer is cut off.
unfoldable pub recv_loop : Address → List Event → Net → Result (Option Bytes) × Net
unfolding refuse
recv_loop expected [] net = (ok none, record net { inbox = [] })
recv_loop expected (silence ∷ inbox) net = (ok none, record net { inbox = inbox })
recv_loop expected (failure kind ∷ inbox) net = (err (io kind), record net { inbox = inbox })
recv_loop expected (datagram src buf ∷ inbox) net =
    if src == expected
    then (ok (some (take max_packet_size buf)), record net { inbox = inbox })
    else recv_loop expected inbox (refuse src net)

unfoldable pub recv_one : Address → Io (Option Bytes)
unfolding recv_loop
recv_one expected net = recv_loop expected net.inbox net
