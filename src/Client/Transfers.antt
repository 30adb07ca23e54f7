-- ===== src/Client/Transfers.antt =====
-- src/client.rs: `Client`, its transfers, and its builder.
pub mod Results
use atftp.Client.Download.{Download, do_get}
use atftp.Client.Sink.{Writer, new_file, new_vec, into_vec}
use atftp.Client.Source.{SourceOf, file, slice, new_source}
use atftp.Client.Upload.{Upload}
use atftp.Client.Upload.Loop.{do_put}
use atftp.Client.{Options, default_options}
use atftp.Common.{ℕ, Bool, Option, none, some, length, Bytes}
use atftp.Files.{Files, from_io}
use atftp.Io.{Address, Io, pure, lift, ◌>>=◌, Ended, finished, panicked, out_of_fuel}
use atftp.Proto.Options.{Mode}

pub record Client : Type 0 where
  pub server : Address
  pub options : Options

-- `Client::new`
abbrev pub new_client : Address → Client
new_client server = record { server = server; options = default_options }

-- `Client::with_options`
abbrev pub with_options : Address → Options → Client
with_options server options = record { server = server; options = options }

-- `ClientBuilder`: a chain of setters is the fold of this over them.
pub data Setter : Type 0 where
  mode : Mode → Setter
  blksize timeout negotiate_timeout windowsize retries : ℕ → Setter
  request_tsize : Bool → Setter

unfoldable pub set : Setter → Options → Options
set (mode m) options = record options { mode = m }
set (blksize n) options = record options { blksize = some n }
set (timeout d) options = record options { timeout = d }
set (negotiate_timeout secs) options = record options { timeout_secs = some secs }
set (windowsize n) options = record options { windowsize = some n }
set (retries n) options = record options { retries = n }
set (request_tsize yes_) options = record options { request_tsize = yes_ }

-- `ClientBuilder::build`
abbrev pub build : Options → Address → Client
build options server = record { server = server; options = options }

module _ (fs : Files) (fuel : ℕ) (client : Client) where
  -- `writer.bytes_written()`, which `do_get` returns.
  abbrev pub bytes_written : Ended (Download fs) → Ended ℕ
  bytes_written (finished d) = finished d.writer.bytes
  bytes_written panicked = panicked
  bytes_written out_of_fuel = out_of_fuel

  abbrev pub or_panic : Option Bytes → Ended Bytes
  or_panic none = panicked
  or_panic (some v) = finished v

  abbrev pub vec_of : Ended (Download fs) → Ended Bytes
  vec_of (finished d) = or_panic (into_vec d.writer)
  vec_of panicked = panicked
  vec_of out_of_fuel = out_of_fuel

  abbrev pub total_of : Ended (Upload fs) → Ended ℕ
  total_of (finished u) = finished u.total
  total_of panicked = panicked
  total_of out_of_fuel = out_of_fuel

  unfoldable pub get : Bytes → Bytes → Io (Ended ℕ)
  unfolding new_file do_get
  get remote local = do
    receiver ← lift (new_file fs local client.options.mode)
    end_ ← do_get fs fuel client.options client.server remote receiver
    pure (bytes_written end_)

  unfoldable pub get_to_vec : Bytes → Io (Ended Bytes)
  unfolding new_vec into_vec do_get
  get_to_vec remote = do
    end_ ← do_get fs fuel client.options client.server remote (new_vec client.options.mode)
    pure (vec_of end_)

  unfoldable pub put : Bytes → Bytes → Io (Ended ℕ)
  unfolding new_source do_put
  put remote local = do
    handle ← lift (from_io (fs.open_read local))
    size ← lift (from_io (fs.len handle))
    end_ ←
        do_put fs fuel client.options client.server remote
          (new_source (file handle) client.options.mode) (some size)
    pure (total_of end_)

  unfoldable pub put_bytes : Bytes → Bytes → Io (Ended ℕ)
  unfolding new_source do_put
  put_bytes remote data_ = do
    end_ ←
        do_put fs fuel client.options client.server remote
          (new_source (slice data_ 0) client.options.mode) (some (length data_))
    pure (total_of end_)
