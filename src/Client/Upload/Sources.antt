-- ===== src/Client/Upload/Sources.antt =====
-- The source of an upload in src/client.rs as the file of a sender in src/server.rs.
use atftp.Client.Download.Sinks.{retrying}
use atftp.Client.Source.{file, slice, SourceOf, from_file, from_slice, read_chunk}
use atftp.Client.Upload.{Upload}
use atftp.Common.{
  ℕ, zero, suc, ◌+◌, ◌≡◌, ◌<◌, refl, sym, ap, ◌∙◌, [], ◌∷◌, ◌++◌, length, take, drop, min, Bytes,
  take-append-drop, length-take, arith,
}
use atftp.Error.{other}
use atftp.Files.{Files, FilesLaws, Attempt, done, failed}
use atftp.Io.{Address}
use atftp.Server.Sender.{Sender}
use atftp.Server.{Negotiated}

drop_at : (k l : ℕ) (s : Bytes) → k ≡ l → drop k s ≡ drop l s
drop_at k l s h = ap (λ (n : ℕ). drop n s) h

drop-drop : (m n : ℕ) (s : Bytes) → drop n (drop m s) ≡ drop (m + n) s
drop-drop zero n s = drop_at n (0 + n) s (omega arith)
drop-drop (suc m) zero [] = drop_at (suc m) (suc m + 0) [] (omega arith)
drop-drop (suc m) (suc n) [] = drop_at (suc (m + suc n)) (suc m + suc n) [] (omega arith)
drop-drop (suc m) n (b ∷ s) =
    drop-drop m n s ∙ drop_at (suc (m + n)) (suc m + n) (b ∷ s) (omega arith)

taken_none : (r : Bytes) (n : ℕ) → 0 < n → length (take (min (length r) n) r) ≡ 0 → r ≡ []
taken_none [] n pos h = refl
taken_none (b ∷ r) n pos h = absurd (omega (arith, length-take (min (length (b ∷ r)) n) (b ∷ r)))

module _ (fs : Files) where
  -- The sources as the files of a sender; they are opened already, and never written.
  abbrev pub sources : Files
  sources = record {
    Handle = SourceOf fs;
    open_read = λ path. failed other;
    len = λ h. failed other;
    read = λ h n. read_chunk fs h n;
    open_write = λ overwrite path. failed other;
    write_all = λ h buf. failed other;
    flush = λ h. failed other;
  }

  module _ (neg : Negotiated) (peer : Address) (retries : ℕ) where
    -- An upload as a sender of the server.
    abbrev pub as_sender : Upload fs → Sender sources
    as_sender u = record {
      peer = peer;
      cfg = retrying fs retries;
      neg = neg;
      encoder = u.sender.encoder;
      feed = u.sender.feed;
      in_flight = u.in_flight;
      next_block = u.next_number;
      last_sent_short = u.last_sent_short;
    }

module _ (fs : Files) (laws : FilesLaws fs) where
  pub no_write :
      (h' : SourceOf fs) (bs : Bytes)
      → ◌≡◌ {A = Attempt (SourceOf fs)} (failed other) (done h')
      → [] ≡ [] ++ bs
  no_write h' bs e = cc

  -- What is left of a source.
  abbrev pub left_of : SourceOf fs → Bytes
  left_of (file h) = laws.content h
  left_of (slice data_ pos) = drop pos data_

  from_file_lem :
      (h : fs.Handle) (a : Attempt (Bytes × fs.Handle)) (h' : SourceOf fs) (bs : Bytes)
      → from_file fs a ≡ done (bs, h')
      → (k : fs.Handle) × (a ≡ done (bs, k)) × (h' ≡ file k)
  from_file_lem h (done (buf, k)) h' bs e = (k, cc, cc)
  from_file_lem h (failed kind) h' bs e = cc

  slice_lem :
      (data_ : Bytes) (pos n : ℕ)
      → drop pos data_
        ≡ take (min (length (drop pos data_)) n) (drop pos data_)
          ++ drop (pos + length (take (min (length (drop pos data_)) n) (drop pos data_))) data_
  slice_lem data_ pos n =
      let r = drop pos data_ in
      let k = min (length r) n in
      let size : length (take k r) ≡ k = omega (arith, length-take k r) in
      sym (take-append-drop k r)
      ∙ ap (λ (t : Bytes). take k r ++ t)
          (drop-drop pos k data_ ∙ ap (λ (m : ℕ). drop (pos + m) data_) (sym size))

  pub read_front :
      (h h' : SourceOf fs) (n : ℕ) (bs : Bytes)
      → read_chunk fs h n ≡ done (bs, h')
      → left_of h ≡ bs ++ left_of h'
  unfolding read_chunk
  read_front (file h) h' n bs e =
      let (k, is, h'_is) = from_file_lem h (fs.read h n) h' bs e in
      rw h'_is (laws.read_front h k n bs is)
  read_front (slice data_ pos) h' n bs e =
      go (take (min (length (drop pos data_)) n) (drop pos data_)) (slice_lem data_ pos n) e
    where
      go :
          (chunk : Bytes)
          → drop pos data_ ≡ chunk ++ drop (pos + length chunk) data_
          → ◌≡◌ {A = Attempt (Bytes × SourceOf fs)}
              (done (from_slice fs data_ pos chunk))
              (done (bs, h'))
          → drop pos data_ ≡ bs ++ left_of h'
      go chunk split e' =
          let bs_is : chunk ≡ bs = cc in
          let h'_is : slice data_ (pos + length chunk) ≡ h' = cc in rw (← bs_is, ← h'_is) split

  pub read_end :
      (h h' : SourceOf fs) (n : ℕ) → 0 < n → read_chunk fs h n ≡ done ([], h') → left_of h ≡ []
  unfolding read_chunk
  read_end (file h) h' n pos e =
      let (k, is, h'_is) = from_file_lem h (fs.read h n) h' [] e in laws.read_end h k n pos is
  read_end (slice data_ pos) h' n pos_n e =
      taken_none (drop pos data_) n pos_n (ap (length {A = ℕ}) (none_taken _ e))
    where
      none_taken :
          (chunk : Bytes)
          → ◌≡◌ {A = Attempt (Bytes × SourceOf fs)}
              (done (from_slice fs data_ pos chunk))
              (done ([], h'))
          → chunk ≡ []
      none_taken chunk e' = cc

  abbrev pub sources_laws : FilesLaws (sources fs)
  sources_laws = record {
    content = left_of;
    written = λ h. [];
    read_front = read_front;
    read_end = read_end;
    write_adds = λ h h' bs e. no_write h' bs e;
    flush_keeps = λ h h' e. refl;
  }
