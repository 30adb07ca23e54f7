-- ===== src/Proto/Options/Valid.antt =====
-- src/proto/options.rs, `OptionValue::parse`: what it accepts.
use atftp.Common.{◌≤◌, ◌≡◌, refl, arith, Bytes, codes}
use atftp.Error.{ok}
use atftp.Proto.{min_block_size, max_block_size}
use atftp.Proto.Options.{
  OptionValue, block_size, timeout, transfer_size, window_size, name, value_string, parse, u8_max,
  u16_max, u64_max, mode_from_str, as_wire, Mode, net_ascii, octet,
}
use atftp.Text.{str_eq_iff, to_ascii_lowercase, parse_uint-to_string, parse_uint-le}

-- The values that the RFCs allow for each option.
abbrev pub IsValid : OptionValue → Type 0
IsValid (block_size v) = (min_block_size ≤ v) × (v ≤ max_block_size)
IsValid (timeout v) = (1 ≤ v) × (v ≤ u8_max)
IsValid (transfer_size v) = v ≤ u64_max
IsValid (window_size v) = (1 ≤ v) × (v ≤ u16_max)

-- An option that is in range is read back from its name and its text.
pub parse-name : (o : OptionValue) → IsValid o → parse (name o) (value_string o) ≡ ok o
unfolding parse name value_string
parse-name (block_size v) h = rw (parse_uint-to_string u16_max v (omega arith)) (ground arith)
parse-name (timeout v) h = rw (parse_uint-to_string u8_max v (omega arith)) (ground arith)
parse-name (transfer_size v) h = rw (parse_uint-to_string u64_max v (omega arith))
parse-name (window_size v) h = rw (parse_uint-to_string u16_max v (omega arith)) (ground arith)

pub mode_from_str-as_wire : (m : Mode) → mode_from_str (as_wire m) ≡ ok m
unfolding mode_from_str as_wire
mode_from_str-as_wire net_ascii = refl
mode_from_str-as_wire octet = refl

abbrev Sound : Bytes → OptionValue → Type 0
Sound n o = IsValid o × (to_ascii_lowercase n ≡ name o)

-- What is accepted is in range, and is the option that the text names in any case.
pub parse_sound :
    (n v : Bytes) (o : OptionValue) → parse n v ≡ ok o → IsValid o × (to_ascii_lowercase n ≡ name o)
unfolding parse name
parse_sound n v (block_size k) h =
    ground (arith, str_eq_iff (to_ascii_lowercase n) (codes "blksize"))
parse_sound n v (timeout k) h =
    ground
      (arith, str_eq_iff (to_ascii_lowercase n) (codes "timeout"), parse_uint-le u8_max v {r = k})
parse_sound n v (transfer_size k) h =
    ground
      (arith, str_eq_iff (to_ascii_lowercase n) (codes "tsize"), parse_uint-le u64_max v {r = k})
parse_sound n v (window_size k) h =
    ground (
      arith,
      str_eq_iff (to_ascii_lowercase n) (codes "windowsize"),
      parse_uint-le u16_max v {r = k},
    )
