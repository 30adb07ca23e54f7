-- ===== src/Client.antt =====
-- src/client.rs: the options of a transfer, the request that is built of them, and what the client
-- takes from the server's OACK. The parameters of a transfer are the server's record, which the
-- client declares alike.
pub mod Agrees
pub mod Sink
pub mod Request
pub mod Download
pub mod Source
pub mod Upload
pub mod Transfers
use atftp.Common.{ℕ, Bool, true, false, Option, none, some, if◌then◌else◌}
use atftp.Proto.Options.{
  Mode, octet, OptionValue, block_size, timeout, transfer_size, window_size, OptionSet, empty,
  insert, get_block_size, get_timeout, get_window_size,
}
use atftp.Proto.{default_timeout_secs}
use atftp.Server.{Negotiated}

pub record Options : Type 0 where
  pub mode : Mode
  pub blksize : Option ℕ
  pub timeout_secs : Option ℕ
  pub windowsize : Option ℕ
  pub request_tsize : Bool
  pub retries : ℕ
  pub timeout : ℕ

-- `Options::default`
abbrev pub default_options : Options
default_options = record {
  mode = octet;
  blksize = none;
  timeout_secs = none;
  windowsize = none;
  request_tsize = false;
  retries = 5;
  timeout = default_timeout_secs;
}

-- An `if let` around an insertion.
unfoldable pub insert_some : (ℕ → OptionValue) → Option ℕ → OptionSet → OptionSet
unfolding insert
insert_some kind none set = set
insert_some kind (some v) set = insert set (kind v)

abbrev pub unwrap_or : Option ℕ → ℕ → ℕ
unwrap_or none default = default
unwrap_or (some v) default = v

unfoldable pub build_request_options : Options → Option ℕ → OptionSet
unfolding insert_some
build_request_options opts tsize_for_put =
    let sized = if opts.request_tsize then some (unwrap_or tsize_for_put 0) else none in
    insert_some window_size opts.windowsize (
      insert_some transfer_size sized
        (insert_some timeout opts.timeout_secs (insert_some block_size opts.blksize empty)))

unfoldable pub merge_oack : Negotiated → OptionSet → Negotiated
unfolding get_block_size get_timeout get_window_size
merge_oack initial oack = record {
  blksize = unwrap_or (get_block_size oack) initial.blksize;
  timeout = unwrap_or (get_timeout oack) initial.timeout;
  windowsize = unwrap_or (get_window_size oack) initial.windowsize;
}
