-- ===== src/Client/Source.antt =====
-- src/client.rs: `Source` and `Sender`, where an upload comes from: a file or a slice, cut into
-- blocks as in Blocks, in the mode of the transfer.
use atftp.Blocks.{Feed, fill_pending, cut}
use atftp.Common.{ℕ, ◌+◌, Bool, true, false, [], Option, none, some, length, take, drop, min, Bytes}
use atftp.Error.{Result, ok, ◌>>=◌}
use atftp.Files.{Files, Attempt, done, failed, from_io}
use atftp.Proto.Options.{Mode, net_ascii, octet}

pub data Source (H : Type 0) : Type 0 where
  file : H → Source H
  slice : Bytes → ℕ → Source H

-- `Sender`: the source, `pending` and `eof` are the feed.
pub record ClientSender (H : Type 0) : Type 0 where
  pub feed : Feed (Source H)
  pub encoder : Bool
  pub blksize : ℕ
  pub final_emitted : Bool

abbrev pub encoding : Mode → Bool
encoding net_ascii = true
encoding octet = false

-- `Sender::new`
unfoldable pub new_source : {H : Type 0} → Source H → Mode → ClientSender H
new_source source mode = record {
  feed = record { source = source; pending = []; eof = false };
  encoder = encoding mode;
  blksize = 0;
  final_emitted = false;
}

-- `Sender::set_blksize`
abbrev pub set_blksize : {H : Type 0} → ClientSender H → ℕ → ClientSender H
set_blksize s blksize = record s { blksize = blksize }

module _ (fs : Files) where
  abbrev pub SourceOf : Type 0
  SourceOf = Source fs.Handle

  abbrev pub from_file : Attempt (Bytes × fs.Handle) → Attempt (Bytes × SourceOf)
  from_file (done (buf, h)) = done (buf, file h)
  from_file (failed kind) = failed kind

  abbrev pub from_slice : Bytes → ℕ → Bytes → Bytes × SourceOf
  from_slice data_ pos chunk = (chunk, slice data_ (pos + length chunk))

  -- `Sender::read_chunk`, with a buffer of `n` bytes.
  unfoldable pub read_chunk : SourceOf → ℕ → Attempt (Bytes × SourceOf)
  read_chunk (file h) n = from_file (fs.read h n)
  read_chunk (slice data_ pos) n =
      let remaining = drop pos data_ in
      done (from_slice data_ pos (take (min (length remaining) n) remaining))

  abbrev pub read_source : SourceOf → ℕ → Result (Bytes × SourceOf)
  read_source source n = from_io (read_chunk source n)

  abbrev pub emit :
      ClientSender fs.Handle → Bytes × Feed SourceOf × Bool → Option Bytes × ClientSender fs.Handle
  emit s (block, feed, final) = (some block, record s { feed = feed; final_emitted = final })

  -- `Sender::next_block`
  unfoldable pub next_block :
      ClientSender fs.Handle → Result (Option Bytes × ClientSender fs.Handle)
  unfolding fill_pending cut read_chunk
  next_block s = elim s.final_emitted [
    | true ↦ ok (none, s)
    | false ↦ do
      feed ← fill_pending read_source s.encoder (s.blksize + 1) s.blksize s.feed
      ok (emit s (cut s.blksize feed))
  ]
