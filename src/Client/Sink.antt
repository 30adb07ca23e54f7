-- ===== src/Client/Sink.antt =====
-- src/client.rs: `Sink` and `Receiver`, where a download goes: a file or a vector, with the decoder
-- of the mode and the count of the bytes that were written, a `u64`.
pub mod Keeps
use atftp.Common.{ℕ, ◌+◌, ◌%◌, ◌^◌, Bool, true, [], ◌∷◌, ◌++◌, Option, none, some, length, Bytes}
use atftp.Error.{Result, ok, err, io}
use atftp.Files.{Files, Attempt, done, failed}
use atftp.Netascii.{FromWire, from_wire, finish}
use atftp.Proto.Options.{Mode}
use atftp.Server.Serve.{decoder_of}

abbrev pub u64_mod : ℕ
u64_mod = 2 ^ 64

pub data Sink (H : Type 0) : Type 0 where
  file : H → Sink H
  vec : Bytes → Sink H

-- `Receiver`
pub record ClientReceiver (H : Type 0) : Type 0 where
  pub sink : Sink H
  pub decoder : Option FromWire
  pub bytes : ℕ

-- `Receiver::new_vec`
unfoldable pub new_vec : {H : Type 0} → Mode → ClientReceiver H
new_vec mode = record { sink = vec []; decoder = decoder_of mode; bytes = 0 }

abbrev pub vec_in : {H : Type 0} → Sink H → Option Bytes
vec_in (vec v) = some v
vec_in (file h) = none

-- `into_vec`; `none` is the panic on a file.
unfoldable pub into_vec : {H : Type 0} → ClientReceiver H → Option Bytes
into_vec w = vec_in w.sink

module _ (fs : Files) where
  abbrev pub Writer : Type 0
  Writer = ClientReceiver fs.Handle

  abbrev pub new_writer : Mode → Attempt fs.Handle → Result Writer
  new_writer mode (done h) = ok (record { sink = file h; decoder = decoder_of mode; bytes = 0 })
  new_writer mode (failed kind) = err (io kind)

  -- `Receiver::new_file`: an existing file is truncated.
  unfoldable pub new_file : Bytes → Mode → Result Writer
  new_file local mode = new_writer mode (fs.open_write true local)

  abbrev pub write_sink : Sink fs.Handle → Bytes → Attempt (Sink fs.Handle)
  write_sink (vec v) buf = done (vec (v ++ buf))
  write_sink (file h) buf = elim (fs.write_all h buf) [
    | done h' ↦ done (file h')
    | failed kind ↦ failed kind
  ]

  abbrev pub flush_sink : Sink fs.Handle → Attempt (Sink fs.Handle)
  flush_sink (vec v) = done (vec v)
  flush_sink (file h) = elim (fs.flush h) [ done h' ↦ done (file h') | failed kind ↦ failed kind ]

  -- The bytes are counted where they have been written.
  abbrev pub counted : Writer → Bytes → Attempt (Sink fs.Handle) → Result Writer
  counted w buf (done sink) =
      ok (record w { sink = sink; bytes = (w.bytes + length buf) % u64_mod })
  counted w buf (failed kind) = err (io kind)

  unfoldable pub write_raw : Writer → Bytes → Result Writer
  write_raw w buf = counted w buf (write_sink w.sink buf)

  -- The two arms of `write_block`.
  abbrev pub write_decoded : Writer → Bytes → Option FromWire → Result Writer
  write_decoded w block none = write_raw w block
  write_decoded w block (some dec) =
      let (dec', out) = from_wire dec block [] in write_raw (record w { decoder = some dec' }) out

  -- `Receiver::write_block`
  unfoldable pub put_block : Writer → Bytes → Result Writer
  unfolding write_raw from_wire
  put_block w block = write_decoded w block w.decoder

  -- The tail of the decoder, written only where there is one.
  abbrev pub put_tail : Writer → FromWire × Bytes → Result Writer
  put_tail w (dec, []) = ok (record w { decoder = some dec })
  put_tail w (dec, b ∷ tail) = write_raw (record w { decoder = some dec }) (b ∷ tail)

  abbrev pub put_rest : Writer → Option FromWire → Result Writer
  put_rest w none = ok w
  put_rest w (some dec) = put_tail w (finish dec [])

  abbrev pub in_sink : Writer → Attempt (Sink fs.Handle) → Result Writer
  in_sink w (done sink) = ok (record w { sink = sink })
  in_sink w (failed kind) = err (io kind)

  abbrev pub flush_rest : Result Writer → Result Writer
  flush_rest (ok w) = in_sink w (flush_sink w.sink)
  flush_rest (err e) = err e

  -- `Receiver::finish`
  unfoldable pub finish_sink : Writer → Result Writer
  unfolding write_raw finish
  finish_sink w = flush_rest (put_rest w w.decoder)
