-- ===== src/Client/Upload/Loop.antt =====
-- src/client.rs: `do_put`: the loops, which are on fuel, the inner one, which waits for the window to
-- move, on a round for each event, each retry, and two more.
use atftp.Client.Request.{put_arm, request}
use atftp.Client.Source.{ClientSender}
use atftp.Client.{Options, build_request_options}
use atftp.Common.{
  ℕ, zero, suc, ◌+◌, Bool, true, false, not, ◌&&◌, [], Option, none, some, length, leb,
  if◌then◌else◌, Bytes,
}
use atftp.Error.{Error, Result, ok, err, timeout}
use atftp.Files.{Files}
use atftp.Io.{
  Address, Io, pure, raise, lift, ◌>>=◌, ◌>>◌, recv_one, Ended, finished, panicked, out_of_fuel,
}
use atftp.Proto.Options.{is_empty}
use atftp.Proto.Packet.{Packet, wrq, ack, error, decode, encode_into}
use atftp.Server.Sender.Loop.{none_in_flight}
use atftp.Server.Sender.{send_frames}
use atftp.Server.{Negotiated}
use atftp.Window.{client_consume_ack}
use atftp.Client.Upload.{Upload, fill_flight, new_upload}

module _ (fs : Files) where
  module _ (neg : Negotiated) where
    -- The arms of the `match decode(..)`; the Boolean says that the window has moved.
    unfoldable pub on_ack : ℕ → Upload fs → Result Packet → Io (ℕ × Upload fs × Bool)
    unfolding client_consume_ack
    on_ack attempt u (ok (ack block)) =
        let (in_flight, advanced) = client_consume_ack u.in_flight block neg.windowsize in
        pure (attempt, record u { in_flight = in_flight }, advanced)
    on_ack attempt u (ok (error code msg)) = raise (Error.peer code msg)
    on_ack attempt u (ok _) = pure (attempt, u, false)
    on_ack attempt u (err _) = pure (attempt, u, false)

    unfoldable pub no_ack : ℕ → ℕ → Upload fs → Io (ℕ × Upload fs × Bool)
    no_ack retries attempt u = elim (leb retries attempt) [
      | true ↦ raise (timeout attempt)
      | false ↦ pure (attempt + 1, u, false)
    ]

    abbrev pub on_reply : ℕ → ℕ → Upload fs → Option Bytes → Io (ℕ × Upload fs × Bool)
    on_reply retries attempt u none = no_ack retries attempt u
    on_reply retries attempt u (some buf) = on_ack attempt u (decode buf)

    abbrev pub until_moved :
        (ℕ → Upload fs → Io (Ended (Upload fs))) → ℕ × Upload fs × Bool → Io (Ended (Upload fs))
    until_moved next (attempt, u, true) = pure (finished u)
    until_moved next (attempt, u, false) = next attempt u

    module _ (peer : Address) (retries : ℕ) where
      -- The inner loop: the window is sent until an acknowledgement moves it.
      unfoldable pub await_ack : ℕ → ℕ → Upload fs → Io (Ended (Upload fs))
      unfolding send_frames recv_one on_ack no_ack decode
      await_ack zero attempt u = pure out_of_fuel
      await_ack (suc fuel) attempt u = do
        send_frames peer u.in_flight
        got ← recv_one peer
        moved ← on_reply retries attempt u got
        until_moved (await_ack fuel) moved

      -- Behind an acknowledgement: the end, when nothing is in flight and the last block was sent.
      abbrev pub behind_ack :
          (Upload fs → Io (Ended (Upload fs))) → Ended (Upload fs) → Io (Ended (Upload fs))
      behind_ack next (finished u) =
          if none_in_flight u.in_flight && u.last_sent_short then pure (finished u) else next u
      behind_ack next panicked = pure panicked
      behind_ack next out_of_fuel = pure out_of_fuel

      abbrev pub await_any : Upload fs → Io (Ended (Upload fs))
      await_any u net = await_ack (length net.inbox + retries + 2) 0 u net

      -- Behind the fill: with nothing in flight the transfer is over.
      abbrev pub send_flight :
          (Upload fs → Io (Ended (Upload fs))) → Upload fs → Bool → Io (Ended (Upload fs))
      send_flight next u true = pure (finished u)
      send_flight next u false = await_any u >>= behind_ack next

      unfoldable pub upload_all : ℕ → Upload fs → Io (Ended (Upload fs))
      unfolding fill_flight await_ack
      upload_all zero u = pure out_of_fuel
      upload_all (suc fuel) u = do
        u' ← lift (fill_flight fs neg neg.windowsize u)
        send_flight (upload_all fuel) u' (none_in_flight u'.in_flight)

  abbrev pub write_request : Options → Bytes → Option ℕ → Bytes
  write_request opts remote source_len =
      encode_into (wrq remote opts.mode (build_request_options opts source_len)) []

  -- The request, and the transfer with whoever answers it.
  unfoldable pub do_put :
      ℕ → Options → Address → Bytes → ClientSender fs.Handle → Option ℕ → Io (Ended (Upload fs))
  unfolding request put_arm encode_into build_request_options is_empty upload_all
  do_put fuel opts server remote sender source_len = do
    answer ←
        request (put_arm (not (is_empty (build_request_options opts source_len)))) opts.retries
          server (write_request opts remote source_len) (opts.retries + 1) 0
    upload_all answer.neg answer.peer opts.retries fuel (new_upload fs sender answer.neg.blksize)
