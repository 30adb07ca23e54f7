-- ===== src/Files.antt =====
-- The files of a transfer: what tokio's `File` and `OpenOptions` do for src/server.rs and
-- src/client.rs. They are not in the repository, so they are parameters, with the documented
-- behaviour that the transfers rely on as laws.
use atftp.Common.{ℕ, ◌<◌, ◌≡◌, Bool, [], ◌++◌, length, take, drop, Bytes}
use atftp.Error.{ErrorKind, Result, ok, err, io}

-- The result of a call into tokio.
pub data Attempt {ℓ} (A : Type ℓ) : Type ℓ where
  done : A → Attempt A
  failed : ErrorKind → Attempt A

-- The `?` on such a result.
abbrev pub from_io {ℓ} : {A : Type ℓ} → Attempt A → Result A
from_io (done a) = ok a
from_io (failed kind) = err (io kind)

-- `open_read` is `File::open`, `len` the length in the metadata, `open_write` the opening for a
-- write request or a download: with `true` an existing file is truncated, with `false` it is an
-- error.
pub record Files : Type 1 where
  pub Handle : Type 0
  pub open_read : Bytes → Attempt Handle
  pub len : Handle → Attempt ℕ
  pub read : Handle → ℕ → Attempt (Bytes × Handle)
  pub open_write : Bool → Bytes → Attempt Handle
  pub write_all : Handle → Bytes → Attempt Handle
  pub flush : Handle → Attempt Handle

-- A read takes some bytes off the front of what is left, at most as many as asked for, and none
-- only where nothing is left. A write adds its bytes at the end.
pub record FilesLaws (fs : Files) : Type 0 where
  pub content : fs.Handle → Bytes
  pub written : fs.Handle → Bytes
  pub read_front :
      (h h' : fs.Handle) (n : ℕ) (bs : Bytes)
      → fs.read h n ≡ done (bs, h')
      → content h ≡ bs ++ content h'
  pub read_end : (h h' : fs.Handle) (n : ℕ) → 0 < n → fs.read h n ≡ done ([], h') → content h ≡ []
  pub write_adds :
      (h h' : fs.Handle) (bs : Bytes) → fs.write_all h bs ≡ done h' → written h' ≡ written h ++ bs
  pub flush_keeps : (h h' : fs.Handle) → fs.flush h ≡ done h' → written h' ≡ written h

-- Files in memory: one file `start` to read, and new files that start empty.
abbrev pub memory : Bytes → Files
memory start = record {
  Handle = Bytes;
  open_read = λ path. done start;
  len = λ h. done (length h);
  read = λ h n. done (take n h, drop n h);
  open_write = λ overwrite path. done [];
  write_all = λ h bs. done (h ++ bs);
  flush = λ h. done h;
}
