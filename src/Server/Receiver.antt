-- ===== src/Server/Receiver.antt =====
-- src/server.rs: `WrqReceiver`, the server's side of a write request, and `serve_wrq`. The loop of
-- `run` is on fuel, and returns the receiver, so that its file can be looked at. The child Ends
-- shows how much fuel is enough.
pub mod Writes
pub mod Turns
pub mod Stored
pub mod Ends
pub mod Succeeds
pub mod Patient
pub mod Ready
pub mod Completes
use atftp.Common.{
  ℕ, zero, suc, ◌+◌, Bool, true, false, List, [], ◌∷◌, ◌++◌, Option, none, some, length, ltb, leb,
  ◌==◌, if◌then◌else◌, Bytes, codes,
}
use atftp.Error.{Error, Result, ok, err, io, peer, timeout}
use atftp.Files.{Files, Attempt, done, failed, from_io}
use atftp.Io.{
  Address, Net, Io, pure, raise, lift, continue, ◌>>=◌, ◌>>◌, send_to, recv_one, Ended, finished,
  panicked, out_of_fuel,
}
use atftp.Netascii.{FromWire, new, from_wire, finish}
use atftp.PathSafe.{resolve}
use atftp.Proto.Code.{not_defined, access_violation}
use atftp.Proto.Options.{Mode, net_ascii, octet, OptionSet, is_empty}
use atftp.Proto.Packet.{Packet, block_data, ack, error, oack, decode, encode_into}
use atftp.Server.Negotiate.{Offer, negotiate}
use atftp.Server.{Config, Negotiated, send_error, map_io_to_error}
use atftp.Window.{wrapping_add}

pub record WrqReceiver (H : Type 0) : Type 0 where
  pub peer : Address
  pub cfg : Config
  pub neg : Negotiated
  pub file : H
  pub decoder : Option FromWire
  pub next_block : ℕ
  pub blocks_in_window : ℕ
  pub last_acked : ℕ
  pub finished : Bool

unfoldable pub send_ack : Address → ℕ → Io (Unit {0})
unfolding send_to encode_into
send_ack to block = send_to (encode_into (ack block) []) to

unfoldable pub send_initial_oack : Address → OptionSet → Io (Unit {0})
unfolding send_to encode_into
send_initial_oack to options = send_to (encode_into (oack options) []) to

module _ (fs : Files) where
  abbrev pub Receiver : Type 0
  Receiver = WrqReceiver fs.Handle

  abbrev pub written_by : Receiver → Option FromWire → Attempt fs.Handle → Result Receiver
  written_by r dec (done h) = ok (record r { file = h; decoder = dec })
  written_by r dec (failed kind) = err (io kind)

  -- The two arms of `write_block`.
  unfoldable pub write_through : Receiver → Bytes → Option FromWire → Result Receiver
  unfolding from_wire
  write_through r block none = written_by r none (fs.write_all r.file block)
  write_through r block (some dec) =
      let (dec', out) = from_wire dec block [] in written_by r (some dec') (fs.write_all r.file out)

  unfoldable pub write_block : Receiver → Bytes → Result Receiver
  unfolding write_through
  write_block r block = write_through r block r.decoder

  -- The tail of the decoder, written only where there is one.
  abbrev pub write_tail : Receiver → FromWire × Bytes → Result Receiver
  write_tail r (dec, []) = ok (record r { decoder = some dec })
  write_tail r (dec, b ∷ tail) = written_by r (some dec) (fs.write_all r.file (b ∷ tail))

  abbrev pub flushed : Result Receiver → Result Receiver
  flushed (ok r) = written_by r r.decoder (fs.flush r.file)
  flushed (err e) = err e

  abbrev pub write_rest : Receiver → Option FromWire → Result Receiver
  write_rest r none = ok r
  write_rest r (some dec) = write_tail r (finish dec [])

  -- What is done to the file behind the last block: the tail, and the flush.
  unfoldable pub close : Receiver → Result Receiver
  unfolding finish
  close r = flushed (write_rest r r.decoder)

  -- The fields that change when a block is in the file. The `+= 1` is on a `u16`.
  abbrev pub advance : Receiver → ℕ → Receiver
  advance r block = record r {
    last_acked = block;
    next_block = wrapping_add r.next_block 1;
    blocks_in_window = wrapping_add r.blocks_in_window 1;
  }

  -- Behind the last block: the file is closed, and the block acknowledged.
  unfoldable pub conclude : Receiver → ℕ → Io Receiver
  unfolding close send_ack
  conclude r block = do
    r' ← lift (close r)
    send_ack r.peer block
    pure (record r' { finished = true })

  -- Behind any other block: an acknowledgement where the window is full.
  unfoldable pub close_window : Receiver → ℕ → Io Receiver
  unfolding send_ack
  close_window r block = elim (leb r.neg.windowsize r.blocks_in_window) [
    | true ↦ do send_ack r.peer block; pure (record r { blocks_in_window = 0 })
    | false ↦ pure r
  ]

  unfoldable pub accept : Receiver → ℕ → Bytes → Io Receiver
  unfolding write_block conclude close_window
  accept r block payload = do
    r' ← lift (write_block r payload)
    (if ltb (length payload) r.neg.blksize
        then conclude (advance r' block) block
        else close_window (advance r' block) block)

  -- A block out of order: the last acknowledgement again.
  unfoldable pub resend_ack : Receiver → Io Receiver
  unfolding send_ack
  resend_ack r = do send_ack r.peer r.last_acked; pure (record r { blocks_in_window = 0 })

  unfoldable pub on_data : Receiver → ℕ → Bytes → Io Receiver
  unfolding accept resend_ack
  on_data r block payload = if block == r.next_block then accept r block payload else resend_ack r

  -- The arms of the `match decode(..)`, with `attempt`.
  unfoldable pub on_packet : ℕ → Receiver → Result Packet → Io (ℕ × Receiver)
  unfolding on_data
  on_packet attempt r (ok (block_data block payload)) = do
    r' ← on_data r block payload
    pure (0, r')
  on_packet attempt r (ok (error code msg)) = raise (Error.peer code msg)
  on_packet attempt r (ok _) = pure (attempt, r)
  on_packet attempt r (err _) = pure (attempt, r)

  unfoldable pub on_silence : ℕ → Receiver → Io (ℕ × Receiver)
  unfolding send_error send_ack
  on_silence attempt r = elim (leb r.cfg.retries attempt) [
    | true ↦ λ net. (err (timeout attempt), send_error r.peer not_defined (codes "timed out") net)
    | false ↦ do send_ack r.peer r.last_acked; pure (attempt + 1, r)
  ]

  abbrev pub on_received : ℕ → Receiver → Option Bytes → Io (ℕ × Receiver)
  on_received attempt r none = on_silence attempt r
  on_received attempt r (some buf) = on_packet attempt r (decode buf)

  -- `while !self.finished`
  unfoldable pub run : ℕ → ℕ → Receiver → Io (Ended Receiver)
  unfolding recv_one on_packet on_silence decode
  run zero attempt r = pure out_of_fuel
  run (suc fuel) attempt r = elim r.finished [
    | true ↦ pure (finished r)
    | false ↦ do
      got ← recv_one r.peer
      (attempt', r') ← on_received attempt r got
      run fuel attempt' r'
  ]
