-- ===== src/Client/Sink/Keeps.antt =====
-- What a write and a flush keep of a sink and its count, the operations of `Receiver` in
-- src/client.rs keep.
use atftp.Client.Sink.{
  Sink, Writer, write_sink, flush_sink, counted, write_raw, write_decoded, put_block, put_tail,
  put_rest, in_sink, flush_rest, finish_sink, u64_mod,
}
use atftp.Common.{ℕ, ◌+◌, ◌%◌, ◌≡◌, refl, [], ◌∷◌, Option, none, some, length, Bytes, subst}
use atftp.Error.{Result, ok, err}
use atftp.Files.{Files, Attempt, done, failed}
use atftp.Netascii.{FromWire, from_wire, finish}

module _ (fs : Files) (P : Sink fs.Handle → ℕ → Type 0)
    (writes : (sink sink' : Sink fs.Handle) (bytes : ℕ) (buf : Bytes)
      → write_sink fs sink buf ≡ done sink'
      → P sink bytes
      → P sink' ((bytes + length buf) % u64_mod))
    (flushes : (sink sink' : Sink fs.Handle) (bytes : ℕ)
      → flush_sink fs sink ≡ done sink'
      → P sink bytes
      → P sink' bytes) where
  abbrev pub Keeps : Writer fs → Type 0
  Keeps w = P w.sink w.bytes

  counted-Keeps : (w w' : Writer fs) (buf : Bytes) → write_raw fs w buf ≡ ok w' → Keeps w → Keeps w'
  counted-Keeps w w' buf e c = go (write_sink fs w.sink buf) refl (unfold write_raw in e)
    where
      go :
          (a : Attempt (Sink fs.Handle))
          → write_sink fs w.sink buf ≡ a
          → counted fs w buf a ≡ ok w'
          → Keeps w'
      go (failed kind) is e' = cc
      go (done sink) is e' =
          let w_is : record w { sink = sink; bytes = (w.bytes + length buf) % u64_mod } ≡ w' = cc in
          subst Keeps w_is (writes w.sink sink w.bytes buf is c)

  pub put_block-Keeps :
      (w w' : Writer fs) (block : Bytes) → put_block fs w block ≡ ok w' → Keeps w → Keeps w'
  put_block-Keeps w w' block e c = go w.decoder (unfold put_block in e)
    where
      go : (dec : Option FromWire) → write_decoded fs w block dec ≡ ok w' → Keeps w'
      go none e' = counted-Keeps w w' block e' c
      go (some dec) e' =
          counted-Keeps (record w { decoder = some (from_wire dec block []).0 }) w'
            (from_wire dec block []).1 e' c

  put_tail-Keeps :
      (w w' : Writer fs) (dec : FromWire) (tail : Bytes)
      → put_tail fs w (dec, tail) ≡ ok w'
      → Keeps w
      → Keeps w'
  put_tail-Keeps w w' dec [] e c =
      let same : record w { decoder = some dec } ≡ w' = cc in subst Keeps same c
  put_tail-Keeps w w' dec (b ∷ tail) e c =
      counted-Keeps (record w { decoder = some dec }) w' (b ∷ tail) e c

  put_rest-Keeps :
      (w w' : Writer fs) (dec : Option FromWire) → put_rest fs w dec ≡ ok w' → Keeps w → Keeps w'
  put_rest-Keeps w w' none e c = let same : w ≡ w' = cc in subst Keeps same c
  put_rest-Keeps w w' (some dec) e c = put_tail-Keeps w w' (finish dec []).0 (finish dec []).1 e c

  in_sink-Keeps :
      (w w' : Writer fs) → in_sink fs w (flush_sink fs w.sink) ≡ ok w' → Keeps w → Keeps w'
  in_sink-Keeps w w' e c = go (flush_sink fs w.sink) refl e
    where
      go :
          (a : Attempt (Sink fs.Handle))
          → flush_sink fs w.sink ≡ a
          → in_sink fs w a ≡ ok w'
          → Keeps w'
      go (failed kind) is e' = cc
      go (done sink) is e' =
          let w_is : record w { sink = sink } ≡ w' = cc in
          subst Keeps w_is (flushes w.sink sink w.bytes is c)

  pub finish_sink-Keeps : (w w' : Writer fs) → finish_sink fs w ≡ ok w' → Keeps w → Keeps w'
  finish_sink-Keeps w w' e c = go (put_rest fs w w.decoder) refl (unfold finish_sink in e)
    where
      go :
          (r : Result (Writer fs))
          → put_rest fs w w.decoder ≡ r
          → flush_rest fs r ≡ ok w'
          → Keeps w'
      go (err x) is e' = cc
      go (ok w₁) is e' = in_sink-Keeps w₁ w' e' (put_rest-Keeps w w₁ w.decoder is c)
