-- ===== src/Server/Initial.antt =====
-- src/server.rs: `handle_initial`, the first packet of a client on the listening socket. The socket
-- of the transfer is bound before the packet is looked at; `bound` is how that went.
pub mod Handles
pub mod Ends
use atftp.Common.{ℕ, Bytes}
use atftp.Error.{Result, ok, err}
use atftp.Files.{Files, Attempt, from_io}
use atftp.Io.{Address, Io, pure, lift, ◌>>=◌, ◌>>◌, Ended}
use atftp.Proto.Packet.{Packet, rrq, wrq, decode}
use atftp.Server.Receiver.{Receiver}
use atftp.Server.Sender.Loop.{serve_rrq}
use atftp.Server.Sender.{Sender}
use atftp.Server.Serve.{serve_wrq}
use atftp.Server.{Config}

-- How a first packet was dealt with.
pub data Handled (fs : Files) : Type 0 where
  ignored : Handled fs
  sent : Ended (Sender fs) → Handled fs
  received : Ended (Receiver fs) → Handled fs

module _ (fs : Files) where
  abbrev pub serve : ℕ → Config → Address → Packet → Io (Handled fs)
  serve fuel cfg peer (rrq filename mode options) = do
    end_ ← serve_rrq fs fuel cfg peer filename mode options
    pure (sent end_)
  serve fuel cfg peer (wrq filename mode options) = do
    end_ ← serve_wrq fs fuel cfg peer filename mode options
    pure (received end_)
  serve fuel cfg peer _ = pure ignored

  abbrev pub handle_decoded :
      ℕ → Config → Address → Attempt (Unit {0}) → Result Packet → Io (Handled fs)
  handle_decoded fuel cfg peer bound (err e) = pure ignored
  handle_decoded fuel cfg peer bound (ok packet) = do
    lift (from_io bound)
    serve fuel cfg peer packet

  unfoldable pub handle_initial :
      ℕ → Config → Address → Attempt (Unit {0}) → Bytes → Io (Handled fs)
  unfolding decode serve_rrq serve_wrq
  handle_initial fuel cfg peer bound frame = handle_decoded fuel cfg peer bound (decode frame)
