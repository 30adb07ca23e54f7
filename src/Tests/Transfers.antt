-- ===== src/Tests/Transfers.antt =====
-- Blocks of a source in memory (`read_one_block` of src/server.rs).
use atftp.Blocks.Stream.{SourceLaws, IsHonest, Filled, fill_pending_stream}
use atftp.Blocks.{Feed, extend, fill_pending, cut}
use atftp.Common.{
  ℕ, ◌≡◌, ◌<◌, ◌++◌, refl, ap, true, false, [], ◌∷◌, take, drop, length, Bytes, codes, arith,
  take-append-drop, length-take,
}
use atftp.Error.{Result, ok}

abbrev read_memory : Bytes → ℕ → Result (Bytes × Bytes)
read_memory h n = ok (take n h, drop n h)

first-eq :
    {A B : Type 0} {a a' : A} {b b' : B}
    → ◌≡◌ {A = Result (A × B)} (ok (a, b)) (ok (a', b'))
    → a ≡ a'
first-eq e = cc

read_memory-front :
    (h h' : Bytes) (n : ℕ) (bs : Bytes) → read_memory h n ≡ ok (bs, h') → h ≡ bs ++ h'
read_memory-front h h' n bs e = ground (arith, take-append-drop n h)

read_memory-end : (h h' : Bytes) (n : ℕ) → 0 < n → read_memory h n ≡ ok ([], h') → h ≡ []
read_memory-end [] h' n pos e = refl
read_memory-end (b ∷ h) h' n pos e =
    ground (arith, length-take n (b ∷ h), ap (length {A = ℕ}) (first-eq e))

abbrev memory_laws : SourceLaws read_memory
memory_laws = record {
  content = λ h. h;
  read_front = read_memory-front;
  read_end = read_memory-end;
}

-- A source whose text is encoded: the line ending is two bytes on the wire.
abbrev unread : Feed Bytes
unread = record { source = codes "ab\ncd"; pending = []; eof = false }

abbrev filled : Feed Bytes
filled = record { source = codes "d"; pending = codes "ab\r\nc"; eof = false }

unread-filled : fill_pending read_memory true 5 4 unread ≡ ok filled
unfolding fill_pending extend
unread-filled = refl

filled-cut : cut 4 filled ≡ (codes "ab\r\n", record filled { pending = codes "c" }, false)
unfolding cut
filled-cut = refl

unread-IsHonest : IsHonest read_memory true memory_laws unread
unread-IsHonest ended = cc

fill_pending_stream_example : Filled read_memory true memory_laws unread filled
fill_pending_stream_example =
    fill_pending_stream read_memory true memory_laws 5 4 unread filled (omega arith) unread-IsHonest
      unread-filled

filled-IsHonest : IsHonest read_memory true memory_laws filled
filled-IsHonest ended = cc
