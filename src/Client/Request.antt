-- ===== src/Client/Request.antt =====
-- src/client.rs: the first phase of `do_get` and `do_put`. The request is sent until an answer
-- comes, from whatever address; that address is the peer of the transfer.
pub mod Answered
pub mod Arms
pub mod Sends
use atftp.Common.{
  ℕ, zero, suc, ◌+◌, Bool, List, [], ◌∷◌, Option, none, some, take, ◌==◌, if◌then◌else◌, Bytes,
}
use atftp.Client.{Options, merge_oack}
use atftp.Error.{Error, Result, ok, err, io, timeout}
use atftp.Io.{
  Address, Event, datagram, failure, silence, Net, Io, pure, raise, lift, ◌>>=◌, ◌>>◌, send_to,
}
use atftp.Proto.Packet.{Packet, rrq, wrq, block_data, ack, error, oack, decode}
use atftp.Proto.{max_packet_size}
use atftp.Server.Receiver.{send_ack}
use atftp.Server.{Negotiated, defaults}

-- `timeout_at(deadline, sock.recv_from(..))`, from any sender, on the events that come.
unfoldable pub recv_front : List Event → Io (Option (Address × Bytes))
recv_front [] net = (ok none, net)
recv_front (silence ∷ inbox) net = (ok none, record net { inbox = inbox })
recv_front (failure kind ∷ inbox) net = (err (io kind), record net { inbox = inbox })
recv_front (datagram src buf ∷ inbox) net =
    (ok (some (src, take max_packet_size buf)), record net { inbox = inbox })

unfoldable pub recv_any : Io (Option (Address × Bytes))
unfolding recv_front
recv_any net = recv_front net.inbox net

-- What the first phase finds: `peer`, `neg`, and `first_data` of a download.
pub record Answer : Type 0 where
  pub peer : Address
  pub neg : Negotiated
  pub first_data : Option (ℕ × Bytes)

-- An arm of the `match` on the packet: it leaves the loop with an action, or goes on.
abbrev pub Arm : Type 0
Arm = Option (Io Answer)

unfoldable pub get_arm : Bool → Address → Packet → Arm
unfolding merge_oack send_ack
get_arm want_oack src (oack options) =
    if want_oack
    then some (do
      send_ack src 0
      pure (record { peer = src; neg = merge_oack defaults options; first_data = none }))
    else none
get_arm want_oack src (block_data block payload) =
    some (pure (record { peer = src; neg = defaults; first_data = some (block, payload) }))
get_arm want_oack src (error code msg) = some (raise (Error.peer code msg))
get_arm want_oack src _ = none

unfoldable pub put_arm : Bool → Address → Packet → Arm
unfolding merge_oack
put_arm want_oack src (oack options) =
    if want_oack
    then some (pure (record { peer = src; neg = merge_oack defaults options; first_data = none }))
    else none
put_arm want_oack src (ack block) =
    if block == 0
    then some (pure (record { peer = src; neg = defaults; first_data = none }))
    else none
put_arm want_oack src (error code msg) = some (raise (Error.peer code msg))
put_arm want_oack src _ = none

module _ (arm : Address → Packet → Arm) (retries : ℕ) (server : Address) (req : Bytes) where
  abbrev pub on_arm : Io Answer → Arm → Io Answer
  on_arm next none = next
  on_arm next (some action) = action

  -- What came in is decoded, and an error of that returned.
  abbrev pub on_answer : Io Answer → Address → Result Packet → Io Answer
  on_answer next src (ok packet) = on_arm next (arm src packet)
  on_answer next src (err e) = raise e

  abbrev pub on_any : Io Answer → ℕ → Option (Address × Bytes) → Io Answer
  on_any next attempt none = if attempt == retries then raise (timeout attempt) else next
  on_any next attempt (some (src, buf)) = on_answer next src (decode buf)

  -- `for attempt in 0..=retries`, where `left` attempts are to come, and the `ok_or` behind it.
  unfoldable pub request : ℕ → ℕ → Io Answer
  unfolding send_to recv_any decode
  request zero attempt = raise (timeout retries)
  request (suc left) attempt = do
    send_to req server
    got ← recv_any
    on_any (request left (attempt + 1)) attempt got
