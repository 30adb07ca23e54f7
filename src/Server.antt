-- ===== src/Server.antt =====
-- src/server.rs: the configuration and its builder. The transfers are in the modules below.
-- A duration is a number of seconds.
pub mod Negotiate
pub mod Sender
pub mod Receiver
pub mod Serve
pub mod Initial
pub mod Builder
pub mod Accept
use atftp.Common.{ℕ, Bool, true, false, [], Bytes, codes}
use atftp.Error.{ErrorKind, not_found, permission_denied, already_exists, other, err, io}
use atftp.Io.{Address, Net, Io, try_send_to}
use atftp.Proto.Code.{ErrorCode, not_defined, file_not_found, access_violation, file_exists}
use atftp.Proto.Packet.{error, encode_into}
use atftp.Proto.{default_block_size, default_timeout_secs, default_window_size, max_block_size}

pub record Config : Type 0 where
  pub listen : Address
  pub root : Bytes
  pub allow_overwrite : Bool
  pub timeout : ℕ
  pub retries : ℕ
  pub max_block_size : ℕ
  pub allow_windowsize : Bool

-- `Config::default`, at the listening address that stands for `0.0.0.0:69`.
unfoldable pub default_config : Address → Config
default_config any_port_69 = record {
  listen = any_port_69;
  root = codes ".";
  allow_overwrite = false;
  timeout = default_timeout_secs;
  retries = 5;
  max_block_size = max_block_size;
  allow_windowsize = true;
}

-- The parameters of a transfer; the client declares the same record.
pub record Negotiated : Type 0 where
  pub blksize : ℕ
  pub timeout : ℕ
  pub windowsize : ℕ

-- `Negotiated::defaults`
abbrev pub defaults : Negotiated
defaults = record {
  blksize = default_block_size;
  timeout = default_timeout_secs;
  windowsize = default_window_size;
}

-- `send_error`: a failure to send is ignored.
unfoldable pub send_error : Address → ErrorCode → Bytes → Net → Net
unfolding try_send_to encode_into
send_error peer code msg net = try_send_to (encode_into (error code msg) []) peer net

-- The code and the text for an error of a file.
unfoldable pub code_of_io : ErrorKind → ErrorCode × Bytes
code_of_io not_found = (file_not_found, codes "file not found")
code_of_io permission_denied = (access_violation, codes "access violation")
code_of_io already_exists = (file_exists, codes "file already exists")
code_of_io other = (not_defined, codes "i/o error")

-- `map_io_to_error`, and the return of its error.
unfoldable pub map_io_to_error {ℓ} : {A : Type ℓ} → Address → ErrorKind → Io A
unfolding send_error code_of_io
map_io_to_error peer kind net =
    let (code, msg) = code_of_io kind in (err (io kind), send_error peer code msg net)
