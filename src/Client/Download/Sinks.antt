-- ===== src/Client/Download/Sinks.antt =====
-- The writer of a download in src/client.rs as the file of a receiver in src/server.rs: the client's
-- sink with its count is a file to the server.
use atftp.Client.Download.{Download}
use atftp.Client.Sink.{
  Sink, Writer, write_sink, flush_sink, counted, write_raw, write_decoded, put_block, put_tail,
  put_rest, in_sink, flush_rest, finish_sink, u64_mod,
}
use atftp.Common.{
  ℕ, ◌+◌, ◌%◌, ◌≡◌, refl, ap, ◌∙◌, false, [], ◌∷◌, Option, none, some, length, Bytes,
}
use atftp.Error.{Result, ok, err, other}
use atftp.Files.{Files, Attempt, done, failed}
use atftp.Io.{Address}
use atftp.Netascii.{FromWire, from_wire, finish}
use atftp.Server.Receiver.{
  Receiver, written_by, write_through, write_block, write_tail, write_rest, flushed, close,
}
use atftp.Server.{Config, Negotiated}

module _ (fs : Files) where
  abbrev pub Counted : Type 0
  Counted = Sink fs.Handle × ℕ

  abbrev pub count_more : ℕ → Bytes → Attempt (Sink fs.Handle) → Attempt Counted
  count_more bytes buf (done sink) = done (sink, (bytes + length buf) % u64_mod)
  count_more bytes buf (failed kind) = failed kind

  abbrev pub count_same : ℕ → Attempt (Sink fs.Handle) → Attempt Counted
  count_same bytes (done sink) = done (sink, bytes)
  count_same bytes (failed kind) = failed kind

  -- The sinks as the files of a receiver; they are not read, and never opened again.
  abbrev pub sinks : Files
  sinks = record {
    Handle = Counted;
    open_read = λ path. failed other;
    len = λ h. failed other;
    read = λ h n. failed other;
    open_write = λ overwrite path. failed other;
    write_all = λ h buf. count_more h.1 buf (write_sink fs h.0 buf);
    flush = λ h. count_same h.1 (flush_sink fs h.0);
  }

  abbrev pub retrying : ℕ → Config
  retrying retries = record {
    listen = 0;
    root = [];
    allow_overwrite = false;
    timeout = 0;
    retries = retries;
    max_block_size = 0;
    allow_windowsize = false;
  }

  module _ (neg : Negotiated) (peer : Address) (retries : ℕ) where
    -- A download as a receiver of the server.
    abbrev pub as_receiver : Download fs → Receiver sinks
    as_receiver d = record {
      peer = peer;
      cfg = retrying retries;
      neg = neg;
      file = (d.writer.sink, d.writer.bytes);
      decoder = d.writer.decoder;
      next_block = d.next_block;
      blocks_in_window = d.blocks_in_window;
      last_acked = d.last_acked;
      finished = d.finished;
    }

    abbrev pub with_writer : Download fs → Writer fs → Receiver sinks
    with_writer d w = as_receiver (record d { writer = w })

    -- The writer as the server's receiver sees it.
    abbrev pub seen_by : Download fs → Result (Writer fs) → Result (Receiver sinks)
    seen_by d (ok w) = ok (with_writer d w)
    seen_by d (err e) = err e

    counted_seen :
        (d : Download fs) (w : Writer fs) (dec : Option FromWire) (buf : Bytes)
        (a : Attempt (Sink fs.Handle))
        → written_by sinks (with_writer d w) dec (count_more w.bytes buf a)
          ≡ seen_by d (counted fs (record w { decoder = dec }) buf a)
    counted_seen d w dec buf (done sink) = refl
    counted_seen d w dec buf (failed kind) = refl

    same_decoder :
        (w : Writer fs) (dec : Option FromWire) → w.decoder ≡ dec → record w { decoder = dec } ≡ w
    same_decoder w dec h = rw (← h) refl

    write_raw_seen :
        (d : Download fs) (w : Writer fs) (dec : Option FromWire) (buf : Bytes)
        → written_by sinks (with_writer d w) dec (count_more w.bytes buf (write_sink fs w.sink buf))
          ≡ seen_by d (write_raw fs (record w { decoder = dec }) buf)
    write_raw_seen d w dec buf =
        unfold write_raw in counted_seen d w dec buf (write_sink fs w.sink buf)

    write_through_seen :
        (d : Download fs) (w : Writer fs) (block : Bytes) (dec : Option FromWire)
        → w.decoder ≡ dec
        → write_through sinks (with_writer d w) block dec ≡ seen_by d (write_decoded fs w block dec)
    unfolding write_through
    write_through_seen d w block none h =
        write_raw_seen d w none block
        ∙ ap (λ (x : Writer fs). seen_by d (write_raw fs x block)) (same_decoder w none h)
    write_through_seen d w block (some dec) h =
        let (dec', out) = from_wire dec block [] in write_raw_seen d w (some dec') out

    pub put_block_seen :
        (d : Download fs) (w : Writer fs) (block : Bytes)
        → write_block sinks (with_writer d w) block ≡ seen_by d (put_block fs w block)
    put_block_seen d w block =
        unfold write_block put_block in write_through_seen d w block w.decoder refl

    tail_seen :
        (d : Download fs) (w : Writer fs) (dec : FromWire) (tail : Bytes)
        → write_tail sinks (with_writer d w) (dec, tail) ≡ seen_by d (put_tail fs w (dec, tail))
    tail_seen d w dec [] = refl
    tail_seen d w dec (b ∷ tail) = write_raw_seen d w (some dec) (b ∷ tail)

    rest_seen :
        (d : Download fs) (w : Writer fs) (dec : Option FromWire)
        → write_rest sinks (with_writer d w) dec ≡ seen_by d (put_rest fs w dec)
    rest_seen d w none = refl
    rest_seen d w (some dec) = tail_seen d w (finish dec []).0 (finish dec []).1

    in_sink_seen :
        (d : Download fs) (w : Writer fs) (a : Attempt (Sink fs.Handle))
        → written_by sinks (with_writer d w) w.decoder (count_same w.bytes a)
          ≡ seen_by d (in_sink fs w a)
    in_sink_seen d w (done sink) = refl
    in_sink_seen d w (failed kind) = refl

    flushed_seen :
        (d : Download fs) (r : Result (Writer fs))
        → flushed sinks (seen_by d r) ≡ seen_by d (flush_rest fs r)
    flushed_seen d (ok w) = in_sink_seen d w (flush_sink fs w.sink)
    flushed_seen d (err e) = refl

    pub finish_seen :
        (d : Download fs) (w : Writer fs)
        → close sinks (with_writer d w) ≡ seen_by d (finish_sink fs w)
    finish_seen d w =
        unfold close finish_sink in
        ap (flushed sinks) (rest_seen d w w.decoder) ∙ flushed_seen d (put_rest fs w w.decoder)
