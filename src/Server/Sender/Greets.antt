-- ===== src/Server/Sender/Greets.antt =====
-- `send_oack_and_wait_ack0` of src/server.rs sends no DATA.
use atftp.Common.{
  ℕ, zero, suc, ◌+◌, ◌≡◌, inr, ap, Bool, true, false, List, [], Option, none, some, ◌==◌,
  if◌then◌else◌, Bytes,
}
use atftp.Error.{Error, Result, ok, err, timeout}
use atftp.Io.Receive.{ran-eq-ok}
use atftp.Io.{Address, Net, Io, ◌>>=◌, pure, raise, send_to, recv_one}
use atftp.Proto.Options.{OptionSet}
use atftp.Proto.Packet.Others.{NoData, oack-NoData}
use atftp.Proto.Packet.{Packet, rrq, wrq, block_data, ack, error, oack, decode, encode_into}
use atftp.Server.Sender.Adds.{Adds, Adds-trans, same_outbox, sent_Adds, recv_one-Adds}
use atftp.Server.Sender.Loop.{on_ack0, on_reply0, wait_ack0, send_oack_and_wait_ack0}
use atftp.Server.{Config}
use atftp.Window.{Frame}

module _ (frames : List Frame) where
  -- An action that, where it succeeds, has sent no DATA but the frames.
  abbrev pub Sends : {A : Type 0} → (Net → Result A × Net) → Type 0
  Sends {A} m = (net net' : Net) (a : A) → m net ≡ (ok a, net') → Adds frames net.outbox net'.outbox

  pub pure-Sends : {A : Type 0} (a : A) → Sends (pure a)
  pure-Sends a net net' b e =
      let same : net' ≡ net = cc in
      same_outbox frames net.outbox net'.outbox (ap (λ (n : Net). n.outbox) same)

  pub raise-Sends : {A : Type 0} (why : Error) → Sends (raise {A = A} why)
  raise-Sends why net net' b e = cc

  pub bind-Sends :
      {A B : Type 0} (m : Net → Result A × Net) (rest : A → Net → Result B × Net)
      → Sends m
      → ((a : A) → Sends (rest a))
      → Sends (m >>= rest)
  bind-Sends m rest first behind net net' b e =
      let (a, mid, ran, e₁) = ran-eq-ok (m net) rest e in
      Adds-trans frames net.outbox mid.outbox net'.outbox (first net mid a ran)
        (behind a mid net' b e₁)

  pub if-Sends :
      {A : Type 0} (test : Bool) (m n : Net → Result A × Net)
      → Sends m
      → Sends n
      → Sends (if test then m else n)
  if-Sends true m n a b = a
  if-Sends false m n a b = b

  pub send_to-Sends : (buf : Bytes) (to : Address) → NoData buf → Sends (send_to buf to)
  send_to-Sends buf to other net net' u e = sent_Adds frames buf to net net' u (inr other) e

  pub recv_one-Sends : (from : Address) → Sends (recv_one from)
  recv_one-Sends from net net' got e = recv_one-Adds frames from net net' (ok got) e

  on_ack0-Sends : (next : Io (Unit {0})) (r : Result Packet) → Sends next → Sends (on_ack0 next r)
  on_ack0-Sends next (ok (ack block)) h = if-Sends (block == 0) (pure tt) next (pure-Sends tt) h
  on_ack0-Sends next (ok (error code msg)) h = raise-Sends (Error.peer code msg)
  on_ack0-Sends next (ok (rrq f m o)) h = h
  on_ack0-Sends next (ok (wrq f m o)) h = h
  on_ack0-Sends next (ok (block_data b d)) h = h
  on_ack0-Sends next (ok (oack o)) h = h
  on_ack0-Sends next (err x) h = h

  on_reply0-Sends :
      (next : Io (Unit {0})) (attempt retries : ℕ) (got : Option Bytes)
      → Sends next
      → Sends (on_reply0 next attempt retries got)
  on_reply0-Sends next attempt retries none h =
      if-Sends (attempt == retries) (raise (timeout attempt)) next (raise-Sends (timeout attempt)) h
  on_reply0-Sends next attempt retries (some buf) h = on_ack0-Sends next (decode buf) h

  wait_ack0-Sends :
      (left attempt retries : ℕ) (to : Address) (buf : Bytes)
      → NoData buf
      → Sends (wait_ack0 left attempt retries to buf)
  unfolding wait_ack0
  wait_ack0-Sends zero attempt retries to buf other = raise-Sends (timeout retries)
  wait_ack0-Sends (suc left) attempt retries to buf other =
      bind-Sends (send_to buf to) _ (send_to-Sends buf to other) (λ _.
        bind-Sends (recv_one to) _ (recv_one-Sends to) (λ got.
          on_reply0-Sends (wait_ack0 left (attempt + 1) retries to buf) attempt retries got
            (wait_ack0-Sends left (attempt + 1) retries to buf other)))

  pub send_oack_and_wait_ack0-Sends :
      (cfg : Config) (to : Address) (options : OptionSet)
      → Sends (send_oack_and_wait_ack0 cfg to options)
  send_oack_and_wait_ack0-Sends cfg to options =
      unfold send_oack_and_wait_ack0 in
      wait_ack0-Sends (cfg.retries + 1) 0 cfg.retries to (encode_into (oack options) [])
        (oack-NoData options)
