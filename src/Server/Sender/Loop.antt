-- ===== src/Server/Sender/Loop.antt =====
-- src/server.rs: `RrqSender::run`, `send_oack_and_wait_ack0` and `serve_rrq`.
use atftp.Common.{
  ℕ, zero, suc, ◌+◌, Bool, true, false, not, List, [], ◌∷◌, Option, none, some, length, leb, ◌==◌,
  if◌then◌else◌, Bytes, codes,
}
use atftp.Error.{Error, Result, ok, err, io, timeout}
use atftp.Files.{Files, Attempt, done, failed}
use atftp.Io.{
  Address, Io, pure, raise, lift, ◌>>=◌, ◌>>◌, send_to, recv_one, Ended, finished, panicked,
  out_of_fuel,
}
use atftp.PathSafe.{resolve}
use atftp.Proto.Code.{not_defined}
use atftp.Proto.Options.{Mode, net_ascii, octet, OptionSet, is_empty}
use atftp.Proto.Packet.{Packet, ack, error, oack, decode, encode_into}
use atftp.Server.Negotiate.{Offer, negotiate}
use atftp.Server.Sender.{Sender, fill_window, send_window, consume_ack}
use atftp.Server.Serve.{deny}
use atftp.Server.{Config, Negotiated, send_error, map_io_to_error}
use atftp.Window.{Frame}

abbrev pub none_in_flight : List Frame → Bool
none_in_flight [] = true
none_in_flight (_ ∷ _) = false

-- What stops the wait for ACK(0): the packet itself, or an error.
abbrev pub on_ack0 : Io (Unit {0}) → Result Packet → Io (Unit {0})
on_ack0 next (ok (ack block)) = if block == 0 then pure tt else next
on_ack0 next (ok (error code msg)) = raise (Error.peer code msg)
on_ack0 next (ok _) = next
on_ack0 next (err _) = next

-- A time-out uses up the attempt; the last one is an error.
abbrev pub on_reply0 : Io (Unit {0}) → ℕ → ℕ → Option Bytes → Io (Unit {0})
on_reply0 next attempt retries none = if attempt == retries then raise (timeout attempt) else next
on_reply0 next attempt retries (some rxbuf) = on_ack0 next (decode rxbuf)

-- `for attempt in 0..=retries`: `left` are the attempts to come.
unfoldable pub wait_ack0 : ℕ → ℕ → ℕ → Address → Bytes → Io (Unit {0})
unfolding send_to recv_one decode
wait_ack0 zero attempt retries to buf = raise (timeout retries)
wait_ack0 (suc left) attempt retries to buf = do
  send_to buf to
  got ← recv_one to
  on_reply0 (wait_ack0 left (attempt + 1) retries to buf) attempt retries got

unfoldable pub send_oack_and_wait_ack0 : Config → Address → OptionSet → Io (Unit {0})
unfolding wait_ack0 encode_into
send_oack_and_wait_ack0 cfg to options =
    wait_ack0 (cfg.retries + 1) 0 cfg.retries to (encode_into (oack options) [])

module _ (fs : Files) where
  -- The arms of the `match decode(..)`; the Boolean says that the window has moved.
  unfoldable pub on_packet : ℕ → Sender fs → Result Packet → Io (ℕ × Sender fs × Bool)
  unfolding consume_ack
  on_packet attempt s (ok (ack block)) =
      let (s', advanced) = consume_ack fs s block in pure (attempt, s', advanced)
  on_packet attempt s (ok (error code msg)) = raise (Error.peer code msg)
  on_packet attempt s (ok _) = pure (attempt, s, false)
  on_packet attempt s (err _) = pure (attempt, s, false)

  unfoldable pub on_silence : ℕ → Sender fs → Io (ℕ × Sender fs × Bool)
  unfolding send_error
  on_silence attempt s = elim (leb s.cfg.retries attempt) [
    | true ↦ λ net. (err (timeout attempt), send_error s.peer not_defined (codes "timed out") net)
    | false ↦ pure (attempt + 1, s, false)
  ]

  abbrev pub on_received : ℕ → Sender fs → Option Bytes → Io (ℕ × Sender fs × Bool)
  on_received attempt s none = on_silence attempt s
  on_received attempt s (some buf) = on_packet attempt s (decode buf)

  abbrev pub unless_moved :
      (ℕ → Sender fs → Io (Ended (Sender fs))) → ℕ × Sender fs × Bool → Io (Ended (Sender fs))
  unless_moved next (attempt, s, true) = pure (finished s)
  unless_moved next (attempt, s, false) = next attempt s

  -- The inner loop: the window is sent until an acknowledgement moves it.
  unfoldable pub await : ℕ → ℕ → Sender fs → Io (Ended (Sender fs))
  unfolding send_window recv_one on_packet on_silence decode
  await zero attempt s = pure out_of_fuel
  await (suc fuel) attempt s = do
    send_window fs s
    got ← recv_one s.peer
    moved ← on_received attempt s got
    unless_moved (await fuel) moved

  abbrev pub behind_window :
      (Sender fs → Io (Ended (Sender fs))) → Ended (Sender fs) → Io (Ended (Sender fs))
  behind_window next (finished s) = next s
  behind_window next panicked = pure panicked
  behind_window next out_of_fuel = pure out_of_fuel

  -- The fuel of the inner loop is a round for each event, each retry, and two more.
  abbrev pub await_move : Sender fs → Io (Ended (Sender fs))
  await_move s net = await (length net.inbox + s.cfg.retries + 2) 0 s net

  -- Behind `fill_window`: with nothing in flight the transfer is over.
  abbrev pub turn : (Sender fs → Io (Ended (Sender fs))) → Sender fs → Bool → Io (Ended (Sender fs))
  turn next s true = pure (finished s)
  turn next s false = await_move s >>= behind_window next

  unfoldable pub run : ℕ → Sender fs → Io (Ended (Sender fs))
  unfolding fill_window await
  run zero s = pure out_of_fuel
  run (suc fuel) s = do
    s' ← lift (fill_window fs s)
    turn (run fuel) s' (none_in_flight s'.in_flight)

  abbrev pub encodes : Mode → Bool
  encodes net_ascii = true
  encodes octet = false

  abbrev pub new_sender : Config → Address → Negotiated → Mode → fs.Handle → Sender fs
  new_sender cfg peer neg mode file = record {
    peer = peer;
    cfg = cfg;
    neg = neg;
    encoder = encodes mode;
    feed = record { source = file; pending = []; eof = false };
    in_flight = [];
    next_block = 1;
    last_sent_short = false;
  }

  unfoldable pub send :
      ℕ → Config → Address → Mode → fs.Handle → Option Offer → Io (Ended (Sender fs))
  unfolding is_empty send_oack_and_wait_ack0 run
  send fuel cfg peer mode file none = pure panicked
  send fuel cfg peer mode file (some (answer, neg)) = do
    (if not (is_empty answer) then send_oack_and_wait_ack0 cfg peer answer else pure tt)
    run fuel (new_sender cfg peer neg mode file)

  -- An error of the metadata is returned without an answer.
  unfoldable pub send_sized :
      ℕ → Config → Address → Mode → OptionSet → fs.Handle → Attempt ℕ → Io (Ended (Sender fs))
  unfolding send negotiate
  send_sized fuel cfg peer mode options file (failed kind) = raise (io kind)
  send_sized fuel cfg peer mode options file (done size) =
      send fuel cfg peer mode file (negotiate cfg options (some size))

  unfoldable pub send_from :
      ℕ → Config → Address → Mode → OptionSet → Attempt fs.Handle → Io (Ended (Sender fs))
  unfolding send_sized map_io_to_error
  send_from fuel cfg peer mode options (failed kind) = map_io_to_error peer kind
  send_from fuel cfg peer mode options (done file) =
      send_sized fuel cfg peer mode options file (fs.len file)

  unfoldable pub read_at :
      ℕ → Config → Address → Mode → OptionSet → Result Bytes → Io (Ended (Sender fs))
  unfolding send_from deny
  read_at fuel cfg peer mode options (err e) = deny peer e
  read_at fuel cfg peer mode options (ok path) =
      send_from fuel cfg peer mode options (fs.open_read path)

  unfoldable pub serve_rrq :
      ℕ → Config → Address → Bytes → Mode → OptionSet → Io (Ended (Sender fs))
  unfolding read_at resolve
  serve_rrq fuel cfg peer filename mode options =
      read_at fuel cfg peer mode options (resolve cfg.root filename)
