-- ===== src/Tests/Disk.antt =====
-- The files in memory of Files obey the laws, whatever the file to read holds.
use atftp.Common.{
  ℕ, ◌≡◌, ◌<◌, ◌++◌, refl, ap, [], ◌∷◌, length, arith, take-append-drop, length-take, Bytes,
}
use atftp.Files.{Files, FilesLaws, Attempt, memory, done}

taken-eq :
    {h h' bs bs' : Bytes}
    → ◌≡◌ {A = Attempt (Bytes × Bytes)} (done (bs, h)) (done (bs', h'))
    → (bs ≡ bs') × (h ≡ h')
taken-eq e = (cc, cc)

module _ (start : Bytes) where
  abbrev disk : Files
  disk = memory start

  pub disk-front :
      (h h' : Bytes) (n : ℕ) (bs : Bytes) → disk.read h n ≡ done (bs, h') → h ≡ bs ++ h'
  disk-front h h' n bs e = ground (arith, take-append-drop n h, taken-eq e)

  pub disk-end : (h h' : Bytes) (n : ℕ) → 0 < n → disk.read h n ≡ done ([], h') → h ≡ []
  disk-end [] h' n pos e = refl
  disk-end (b ∷ h) h' n pos e =
      ground (arith, length-take n (b ∷ h), ap (length {A = ℕ}) (taken-eq e).0)

  pub disk-adds : (h h' bs : Bytes) → disk.write_all h bs ≡ done h' → h' ≡ h ++ bs
  disk-adds h h' bs e = cc

  pub disk-keeps : (h h' : Bytes) → disk.flush h ≡ done h' → h' ≡ h
  disk-keeps h h' e = cc

  abbrev pub memory_laws : FilesLaws disk
  memory_laws = record {
    content = λ h. h;
    written = λ h. h;
    read_front = disk-front;
    read_end = disk-end;
    write_adds = disk-adds;
    flush_keeps = disk-keeps;
  }
