-- ===== src/Text/Utf8.antt =====
-- `std::str::from_utf8`: well-formed byte sequences, by the table of the Unicode standard.
use atftp.Common.{
  ℕ, zero, suc, Bool, false, ◌&&◌, [], ◌∷◌, Option, none, some, ltb, leb, ◌==◌, if◌then◌else◌,
  Bytes,
}

-- Continuation bytes still to come, and the range of the next one.
pub record Pending : Type 0 where
  pub rest : ℕ
  pub low : ℕ
  pub high : ℕ

abbrev pub tail_bytes : ℕ → Pending
tail_bytes n = record { rest = n; low = 0x80; high = 0xbf }

-- What the first byte of a character asks for.
first_byte : ℕ → Option Pending
first_byte b =
    if ltb b 0x80
    then some (tail_bytes 0)
    else if ltb b 0xc2
    then none
    else if ltb b 0xe0
    then some (tail_bytes 1)
    else if b == 0xe0
    then some (record { rest = 2; low = 0xa0; high = 0xbf })
    else if b == 0xed
    then some (record { rest = 2; low = 0x80; high = 0x9f })
    else if ltb b 0xf0
    then some (tail_bytes 2)
    else if b == 0xf0
    then some (record { rest = 3; low = 0x90; high = 0xbf })
    else if ltb b 0xf4
    then some (tail_bytes 3)
    else if b == 0xf4
    then some (record { rest = 3; low = 0x80; high = 0x8f })
    else none

next_byte : ℕ → Pending → ℕ → Option Pending
unfolding first_byte
next_byte zero p b = first_byte b
next_byte (suc n) p b = if leb p.low b && leb b p.high then some (tail_bytes n) else none

unfoldable pub utf8_from : Pending → Bytes → Bool
unfolding next_byte
utf8_from p [] = p.rest == 0
utf8_from p (b ∷ s) = elim (next_byte p.rest p b) [ none ↦ false | some q ↦ utf8_from q s ]

unfoldable pub is_utf8 : Bytes → Bool
unfolding utf8_from
is_utf8 s = utf8_from (tail_bytes 0) s

unfoldable pub from_utf8 : Bytes → Option Bytes
unfolding is_utf8
from_utf8 s = if is_utf8 s then some s else none
