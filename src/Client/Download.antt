-- ===== src/Client/Download.antt =====
-- src/client.rs: `do_get`. The loop is on fuel and returns its state, so that the sink can be looked
-- at; `opts`, the parameters and the peer do not change in it.
pub mod Sinks
pub mod Keeps
pub mod Counts
pub mod Alike
pub mod Loaded
pub mod Gets
pub mod Ends
use atftp.Client.Request.{Answer, get_arm, request}
use atftp.Client.Sink.{Writer, put_block, finish_sink, u64_mod}
use atftp.Client.{Options, build_request_options}
use atftp.Common.{
  ℕ, zero, suc, ◌+◌, Bool, true, false, not, [], ◌∷◌, Option, none, some, length, ltb, leb, ◌==◌,
  if◌then◌else◌, Bytes,
}
use atftp.Error.{Error, Result, ok, err, timeout, unexpected_packet}
use atftp.Files.{Files}
use atftp.Io.{
  Address, Net, Io, pure, raise, lift, ◌>>=◌, ◌>>◌, recv_one, Ended, finished, out_of_fuel,
}
use atftp.Proto.Options.{OptionSet, is_empty}
use atftp.Proto.Packet.{Packet, rrq, wrq, block_data, ack, error, oack, decode, encode_into}
use atftp.Server.Receiver.{send_ack}
use atftp.Server.{Negotiated}
use atftp.Window.{wrapping_add}

module _ (fs : Files) where
  -- The variables of the loop, and the writer.
  pub record Download : Type 0 where
    pub writer : Writer fs
    pub next_block : ℕ
    pub blocks_in_window : ℕ
    pub last_acked : ℕ
    pub finished : Bool

  abbrev pub new_download : Writer fs → Download
  new_download writer = record {
    writer = writer;
    next_block = 1;
    blocks_in_window = 0;
    last_acked = 0;
    finished = false;
  }

  module _ (neg : Negotiated) (peer : Address) where
    -- The `+= 1` is on a `u16`.
    abbrev pub step_on : Download → ℕ → Download
    step_on d block = record d {
      last_acked = block;
      next_block = wrapping_add d.next_block 1;
      blocks_in_window = wrapping_add d.blocks_in_window 1;
    }

    -- Behind the last block: the acknowledgement, and then the end of the sink.
    unfoldable pub end_with : Download → ℕ → Io Download
    unfolding finish_sink send_ack
    end_with d block = do
      send_ack peer block
      writer ← lift (finish_sink fs d.writer)
      pure (record d { writer = writer; finished = true })

    unfoldable pub ack_full : Download → ℕ → Io Download
    unfolding send_ack
    ack_full d block = elim (leb neg.windowsize d.blocks_in_window) [
      | true ↦ do send_ack peer block; pure (record d { blocks_in_window = 0 })
      | false ↦ pure d
    ]

    -- A block in its turn.
    unfoldable pub store_block : Download → ℕ → Bytes → Io Download
    unfolding put_block end_with ack_full
    store_block d block payload = do
      writer ← lift (put_block fs d.writer payload)
      (if ltb (length payload) neg.blksize
          then end_with (step_on (record d { writer = writer }) block) block
          else ack_full (step_on (record d { writer = writer }) block) block)

    -- A block out of order.
    unfoldable pub ack_again : Download → Io Download
    unfolding send_ack
    ack_again d = do send_ack peer d.last_acked; pure (record d { blocks_in_window = 0 })

    unfoldable pub on_block : Download → ℕ → Bytes → Io Download
    unfolding store_block ack_again
    on_block d block payload =
        if block == d.next_block then store_block d block payload else ack_again d

    -- The arms of the `match decode(..)`, with `attempt`.
    unfoldable pub on_reply : ℕ → Download → Result Packet → Io (ℕ × Download)
    unfolding on_block
    on_reply attempt d (ok (block_data block payload)) = do
      d' ← on_block d block payload
      pure (0, d')
    on_reply attempt d (ok (error code msg)) = raise (Error.peer code msg)
    on_reply attempt d (ok _) = pure (attempt, d)
    on_reply attempt d (err _) = pure (attempt, d)

    unfoldable pub on_timeout : ℕ → ℕ → Download → Io (ℕ × Download)
    unfolding send_ack
    on_timeout retries attempt d = elim (leb retries attempt) [
      | true ↦ raise (timeout attempt)
      | false ↦ do send_ack peer d.last_acked; pure (attempt + 1, d)
    ]

    abbrev pub on_got : ℕ → ℕ → Download → Option Bytes → Io (ℕ × Download)
    on_got retries attempt d none = on_timeout retries attempt d
    on_got retries attempt d (some buf) = on_reply attempt d (decode buf)

    -- `while !finished`
    unfoldable pub download : ℕ → ℕ → ℕ → Download → Io (Ended Download)
    unfolding recv_one on_reply on_timeout decode
    download zero retries attempt d = pure out_of_fuel
    download (suc fuel) retries attempt d = elim d.finished [
      | true ↦ pure (finished d)
      | false ↦ do
        got ← recv_one peer
        (attempt', d') ← on_got retries attempt d got
        download fuel retries attempt' d'
    ]

  -- `first_data`: block 1 is stored as in the loop, any other is an error.
  abbrev pub first : Answer → Writer fs → Option (ℕ × Bytes) → Io Download
  first answer writer none = pure (new_download writer)
  first answer writer (some (block, payload)) =
      if block == 1
      then store_block answer.neg answer.peer (new_download writer) block payload
      else raise unexpected_packet

  unfoldable pub with_answer : ℕ → Options → Writer fs → Answer → Io (Ended Download)
  unfolding store_block download
  with_answer fuel opts writer answer = do
    d ← first answer writer answer.first_data
    download answer.neg answer.peer fuel opts.retries 0 d

  abbrev pub read_request : Options → Bytes → Bytes
  read_request opts remote = encode_into (rrq remote opts.mode (build_request_options opts none)) []

  -- The request, and the transfer with whoever answers it.
  unfoldable pub do_get : ℕ → Options → Address → Bytes → Writer fs → Io (Ended Download)
  unfolding request get_arm encode_into build_request_options is_empty with_answer
  do_get fuel opts server remote writer = do
    answer ←
        request (get_arm (not (is_empty (build_request_options opts none)))) opts.retries server
          (read_request opts remote) (opts.retries + 1) 0
    with_answer fuel opts writer answer
