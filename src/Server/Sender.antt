-- ===== src/Server/Sender.antt =====
-- src/server.rs: `RrqSender`, the server's side of a read request. The file, `pending` and `eof` are
-- the feed of Blocks. The loops of `run` are on fuel: the inner one, which waits for the window to
-- move, on a round for each event, each retry, and two more.
pub mod Loop
pub mod Fills
pub mod Sends
pub mod Adds
pub mod Awaits
pub mod Greets
pub mod Delivers
pub mod Serves
pub mod Ends
use atftp.Blocks.{Feed, fill_pending, cut}
use atftp.Common.{
  ℕ, zero, suc, ◌+◌, Bool, true, false, List, [], ◌∷◌, ◌++◌, Option, none, some, length, ltb, leb,
  if◌then◌else◌, Bytes, codes,
}
use atftp.Error.{Error, Result, ok, err, peer, timeout, ◌>>=◌}
use atftp.Files.{Files, from_io}
use atftp.Io.{Address, Net, Io, pure, continue, send_to, recv_one, Ended, finished, out_of_fuel}
use atftp.Proto.Code.{not_defined}
use atftp.Proto.Options.{OptionSet}
use atftp.Proto.Packet.{Packet, rrq, wrq, block_data, ack, error, oack, decode, encode_into}
use atftp.Server.{Config, Negotiated, send_error}
use atftp.Window.{Frame, pop_acked, wrapping_add}

pub record RrqSender (H : Type 0) : Type 0 where
  pub peer : Address
  pub cfg : Config
  pub neg : Negotiated
  pub encoder : Bool
  pub feed : Feed H
  pub in_flight : List Frame
  pub next_block : ℕ
  pub last_sent_short : Bool

-- The frames of a window, one by one; the first failure ends it.
unfoldable pub send_frames : Address → List Frame → Io (Unit {0})
unfolding send_to encode_into
send_frames to [] net = (ok tt, net)
send_frames to ((bn, payload) ∷ rest) net =
    let (sent, net') = send_to (encode_into (block_data bn payload) []) to net in
    continue sent (λ _. send_frames to rest) net'

module _ (fs : Files) where
  abbrev pub Sender : Type 0
  Sender = RrqSender fs.Handle

  abbrev pub read_file : fs.Handle → ℕ → Result (Bytes × fs.Handle)
  read_file h n = from_io (fs.read h n)

  abbrev pub take_block : Sender → Bytes × Feed fs.Handle × Bool → Option Bytes × Sender
  take_block s (block, feed, short) =
      (some block, record s { feed = feed; last_sent_short = short })

  unfoldable pub read_one_block : Sender → Result (Option Bytes × Sender)
  unfolding fill_pending cut
  read_one_block s = elim s.last_sent_short [
    | true ↦ ok (none, s)
    | false ↦ do
      feed ← fill_pending (read_file) s.encoder (s.neg.blksize + 1) s.neg.blksize s.feed
      ok (take_block s (cut s.neg.blksize feed))
  ]

  abbrev pub push_back : Sender → Bytes → Sender
  push_back s block = record s {
    in_flight = s.in_flight ++ (s.next_block, block) ∷ [];
    next_block = wrapping_add s.next_block 1;
  }

  -- A block is put in flight, and the loop goes on; without one it ends.
  abbrev pub put_in_flight : (Sender → Result Sender) → Option Bytes × Sender → Result Sender
  put_in_flight next (none, s) = ok s
  put_in_flight next (some block, s) = next (push_back s block)

  -- `while self.in_flight.len() < windowsize`: as many rounds as the window has places.
  unfoldable pub fill_places : ℕ → Sender → Result Sender
  unfolding read_one_block
  fill_places zero s = ok s
  fill_places (suc places) s = elim (ltb (length s.in_flight) s.neg.windowsize) [
    | true ↦ read_one_block s >>= put_in_flight (fill_places places)
    | false ↦ ok s
  ]

  unfoldable pub fill_window : Sender → Result Sender
  unfolding fill_places
  fill_window s = fill_places s.neg.windowsize s

  unfoldable pub send_window : Sender → Io (Unit {0})
  unfolding send_frames
  send_window s = send_frames s.peer s.in_flight

  -- The state behind the loop, and whether the window moved.
  unfoldable pub consume_ack : Sender → ℕ → Sender × Bool
  unfolding pop_acked
  consume_ack s block =
      let (in_flight, advanced) = pop_acked block s.neg.windowsize s.in_flight false in
      (record s { in_flight = in_flight }, advanced)
