-- ===== src/Server/Serve.antt =====
-- src/server.rs: `serve_wrq`, from the request to the loop of the transfer. The panic of `negotiate`
-- is an end of its own; `fuel` is that of the loop.
pub mod Stores
pub mod Completes
use atftp.Common.{
  ℕ, zero, suc, Bool, true, false, not, List, [], Option, none, some, if◌then◌else◌, Bytes, codes,
}
use atftp.Error.{Error, Result, ok, err}
use atftp.Files.{Files, Attempt, done, failed}
use atftp.Io.{Address, Net, Io, pure, continue, ◌>>=◌, ◌>>◌, Ended, panicked}
use atftp.Netascii.{FromWire, new}
use atftp.PathSafe.{resolve}
use atftp.Proto.Code.{access_violation}
use atftp.Proto.Options.{Mode, net_ascii, octet, OptionSet, is_empty}
use atftp.Server.Negotiate.{Offer, negotiate}
use atftp.Server.Receiver.{WrqReceiver, Receiver, send_ack, send_initial_oack, run}
use atftp.Server.{Config, Negotiated, send_error, map_io_to_error}

-- A filename that `resolve` refuses is answered, and its error returned.
unfoldable pub deny {ℓ} : {A : Type ℓ} → Address → Error → Io A
unfolding send_error
deny peer e net = (err e, send_error peer access_violation (codes "access violation") net)

abbrev pub decoder_of : Mode → Option FromWire
decoder_of net_ascii = some new
decoder_of octet = none

module _ (fs : Files) where
  abbrev pub new_receiver : Config → Address → Negotiated → Mode → fs.Handle → Receiver fs
  new_receiver cfg peer neg mode file = record {
    peer = peer;
    cfg = cfg;
    neg = neg;
    file = file;
    decoder = decoder_of mode;
    next_block = 1;
    blocks_in_window = 0;
    last_acked = 0;
    finished = false;
  }

  -- An OACK where it names an option, and ACK(0) where it does not.
  unfoldable pub greet : Address → OptionSet → Io (Unit {0})
  unfolding is_empty send_ack send_initial_oack
  greet peer oack = if not (is_empty oack) then send_initial_oack peer oack else send_ack peer 0

  unfoldable pub receive :
      ℕ → Config → Address → Mode → fs.Handle → Option Offer → Io (Ended (Receiver fs))
  unfolding greet run
  receive fuel cfg peer mode file none = pure panicked
  receive fuel cfg peer mode file (some (oack, neg)) = do
    greet peer oack
    run fs fuel 0 (new_receiver cfg peer neg mode file)

  unfoldable pub receive_into :
      ℕ → Config → Address → Mode → OptionSet → Attempt fs.Handle → Io (Ended (Receiver fs))
  unfolding receive negotiate map_io_to_error
  receive_into fuel cfg peer mode options (failed kind) = map_io_to_error peer kind
  receive_into fuel cfg peer mode options (done file) =
      receive fuel cfg peer mode file (negotiate cfg options none)

  unfoldable pub write_to :
      ℕ → Config → Address → Mode → OptionSet → Result Bytes → Io (Ended (Receiver fs))
  unfolding receive_into deny
  write_to fuel cfg peer mode options (err e) = deny peer e
  write_to fuel cfg peer mode options (ok path) =
      receive_into fuel cfg peer mode options (fs.open_write cfg.allow_overwrite path)

  unfoldable pub serve_wrq :
      ℕ → Config → Address → Bytes → Mode → OptionSet → Io (Ended (Receiver fs))
  unfolding write_to resolve
  serve_wrq fuel cfg peer filename mode options =
      write_to fuel cfg peer mode options (resolve cfg.root filename)
