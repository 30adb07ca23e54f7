-- ===== src/Client/Download/Counts.antt =====
-- The count of the bytes that a download of src/client.rs has written.
use atftp.Client.Sink.Keeps.{put_block-Keeps, finish_sink-Keeps}
use atftp.Client.Sink.{
  Sink, file, vec, Writer, write_sink, flush_sink, put_block, finish_sink, u64_mod,
}
use atftp.Common.{
  ℕ, ◌+◌, ◌%◌, ◌≡◌, ◌<◌, refl, sym, ap, ◌∙◌, ◌++◌, length, Bytes, length-append, arith,
}
use atftp.Error.{ok}
use atftp.Files.{Files, FilesLaws, Attempt, done, failed}

module _ (fs : Files) (laws : FilesLaws fs) where
  -- What a sink holds.
  abbrev pub text : Sink fs.Handle → Bytes
  text (file h) = laws.written h
  text (vec v) = v

  pub write_sink_lem :
      (sink sink' : Sink fs.Handle) (buf : Bytes)
      → write_sink fs sink buf ≡ done sink'
      → text sink' ≡ text sink ++ buf
  write_sink_lem (vec v) sink' buf e = let same : vec (v ++ buf) ≡ sink' = cc in rw (← same) refl
  write_sink_lem (file h) sink' buf e = go (fs.write_all h buf) refl e
    where
      go :
          (a : Attempt fs.Handle)
          → fs.write_all h buf ≡ a
          → elim a [ done h' ↦ done (file h') | failed kind ↦ failed kind ] ≡ done sink'
          → text sink' ≡ laws.written h ++ buf
      go (done h') is e' =
          let same : file h' ≡ sink' = cc in rw (← same) (laws.write_adds h h' buf is)
      go (failed kind) is e' = cc

  pub flush_sink_lem :
      (sink sink' : Sink fs.Handle) → flush_sink fs sink ≡ done sink' → text sink' ≡ text sink
  flush_sink_lem (vec v) sink' e = let same : vec v ≡ sink' = cc in rw (← same) refl
  flush_sink_lem (file h) sink' e = go (fs.flush h) refl e
    where
      go :
          (a : Attempt fs.Handle)
          → fs.flush h ≡ a
          → elim a [ done h' ↦ done (file h') | failed kind ↦ failed kind ] ≡ done sink'
          → text sink' ≡ laws.written h
      go (done h') is e' = let same : file h' ≡ sink' = cc in rw (← same) (laws.flush_keeps h h' is)
      go (failed kind) is e' = cc

  -- The count is that of the bytes behind the first `start`, as a `u64`.
  abbrev pub Counts : ℕ → Writer fs → Type 0
  Counts start w =
      (w.bytes < u64_mod) × ((w.bytes + start) % u64_mod ≡ length (text w.sink) % u64_mod)

  counts_on :
      (start bytes size more : ℕ)
      → (bytes + start) % u64_mod ≡ size % u64_mod
      → ((bytes + more) % u64_mod < u64_mod)
        × (((bytes + more) % u64_mod + start) % u64_mod ≡ (size + more) % u64_mod)
  counts_on start bytes size more h = (omega arith, omega arith)

  abbrev Counted : ℕ → Sink fs.Handle → ℕ → Type 0
  Counted start sink bytes =
      (bytes < u64_mod) × ((bytes + start) % u64_mod ≡ length (text sink) % u64_mod)

  writes_counted :
      (start : ℕ) (sink sink' : Sink fs.Handle) (bytes : ℕ) (buf : Bytes)
      → write_sink fs sink buf ≡ done sink'
      → Counted start sink bytes
      → Counted start sink' ((bytes + length buf) % u64_mod)
  writes_counted start sink sink' bytes buf is (fits, same) =
      let (fits', same') = counts_on start bytes (length (text sink)) (length buf) same in
      (
        fits',
        same'
            ∙ ap (λ (n : ℕ). n % u64_mod)
                (sym (length-append (text sink) buf)
                  ∙ ap (length {A = ℕ}) (sym (write_sink_lem sink sink' buf is))),
      )

  flushes_counted :
      (start : ℕ) (sink sink' : Sink fs.Handle) (bytes : ℕ)
      → flush_sink fs sink ≡ done sink'
      → Counted start sink bytes
      → Counted start sink' bytes
  flushes_counted start sink sink' bytes is (fits, same) =
      (fits, same ∙ ap (λ (t : Bytes). length t % u64_mod) (sym (flush_sink_lem sink sink' is)))

  pub put_block-Counts :
      (start : ℕ) (w w' : Writer fs) (block : Bytes)
      → put_block fs w block ≡ ok w'
      → Counts start w
      → Counts start w'
  put_block-Counts start =
      put_block-Keeps fs (Counted start) (writes_counted start) (flushes_counted start)

  pub finish_sink-Counts :
      (start : ℕ) (w w' : Writer fs) → finish_sink fs w ≡ ok w' → Counts start w → Counts start w'
  finish_sink-Counts start =
      finish_sink-Keeps fs (Counted start) (writes_counted start) (flushes_counted start)
