-- ===== src/Client/Request/Sends.antt =====
-- The first phase of `do_put` of src/client.rs sends no DATA.
use atftp.Client.Request.{
  Answer, Arm, put_arm, recv_front, recv_any, on_arm, on_answer, on_any, request,
}
use atftp.Client.{merge_oack}
use atftp.Common.{
  ℕ, zero, suc, ◌+◌, ◌≡◌, Bool, true, false, List, [], ◌∷◌, Option, none, some, ◌==◌, if◌then◌else◌,
  Bytes,
}
use atftp.Error.{Error, Result, ok, err, timeout}
use atftp.Io.{Address, Event, datagram, failure, silence, Net, Io, raise, send_to}
use atftp.Proto.Packet.Others.{NoData}
use atftp.Proto.Packet.{Packet, rrq, wrq, block_data, ack, error, oack, decode}
use atftp.Server.Sender.Adds.{same_outbox}
use atftp.Server.Sender.Greets.{Sends, pure-Sends, raise-Sends, bind-Sends, if-Sends, send_to-Sends}
use atftp.Server.{defaults}
use atftp.Window.{Frame}

module _ (frames : List Frame) where
  abbrev Acts : Arm → Type 0
  Acts none = Unit
  Acts (some action) = Sends frames action

  gate :
      (test : Bool) (action : Io Answer)
      → Sends frames action
      → Acts (if test then some action else none)
  gate true action h = h
  gate false action h = tt

  put_arm-Acts : (want : Bool) (src : Address) (p : Packet) → Acts (put_arm want src p)
  unfolding put_arm
  put_arm-Acts want src (oack options) = gate want _ (
      pure-Sends frames
        (record { peer = src; neg = merge_oack defaults options; first_data = none }))
  put_arm-Acts want src (ack block) =
      gate (block == 0) _
        (pure-Sends frames (record { peer = src; neg = defaults; first_data = none }))
  put_arm-Acts want src (error code msg) = raise-Sends frames (Error.peer code msg)
  put_arm-Acts want src (rrq f m o) = tt
  put_arm-Acts want src (wrq f m o) = tt
  put_arm-Acts want src (block_data b d) = tt

  recv_front_same :
      (inbox : List Event) (net net' : Net) (got : Option (Address × Bytes))
      → recv_front inbox net ≡ (ok got, net')
      → net'.outbox ≡ net.outbox
  unfolding recv_front
  recv_front_same [] net net' got e = cc
  recv_front_same (silence ∷ inbox) net net' got e = cc
  recv_front_same (failure kind ∷ inbox) net net' got e = cc
  recv_front_same (datagram src buf ∷ inbox) net net' got e = cc

  recv_any-Sends : Sends frames recv_any
  recv_any-Sends net net' got e =
      same_outbox frames net.outbox net'.outbox
        (recv_front_same net.inbox net net' got (unfold recv_any in e))

  module _ (want : Bool) (retries : ℕ) (server : Address) (req : Bytes) where
    on_arm-Sends :
        (next : Io Answer) (arm : Arm)
        → Sends frames next
        → Acts arm
        → Sends frames (on_arm (put_arm want) retries server req next arm)
    on_arm-Sends next none h acts = h
    on_arm-Sends next (some action) h acts = acts

    on_any-Sends :
        (next : Io Answer) (attempt : ℕ) (got : Option (Address × Bytes))
        → Sends frames next
        → Sends frames (on_any (put_arm want) retries server req next attempt got)
    on_any-Sends next attempt none h =
        if-Sends frames (attempt == retries) (raise (timeout attempt)) next
          (raise-Sends frames (timeout attempt)) h
    on_any-Sends next attempt (some (src, buf)) h = answered (decode buf)
      where
        answered :
            (r : Result Packet)
            → Sends frames (on_answer (put_arm want) retries server req next src r)
        answered (ok p) = on_arm-Sends next (put_arm want src p) h (put_arm-Acts want src p)
        answered (err why) = raise-Sends frames why

    pub request-Sends :
        (left attempt : ℕ)
        → NoData req
        → Sends frames (request (put_arm want) retries server req left attempt)
    unfolding request
    request-Sends zero attempt other = raise-Sends frames (timeout retries)
    request-Sends (suc left) attempt other =
        bind-Sends frames (send_to req server) _ (send_to-Sends frames req server other) (λ _.
          bind-Sends frames recv_any _ recv_any-Sends (λ got.
            on_any-Sends (request (put_arm want) retries server req left (attempt + 1)) attempt got
              (request-Sends left (attempt + 1) other)))
