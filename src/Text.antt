-- ===== src/Text.antt =====
-- What the program uses of Rust's `str` and unsigned integers. A string is its bytes.
mod Case
mod Decimal
mod Utf8
pub use Case.{str_eq_refl, str_eq_iff}
unfoldable pub use Case.{str_eq, to_ascii_lowercase, eq_ignore_ascii_case, lower}
unfoldable pub use Decimal.{to_string, parse_uint}
pub use Decimal.{parse_uint-to_string, parse_uint-le, to_string-All, IsPlain}
unfoldable pub use Utf8.{from_utf8, utf8_from, is_utf8}
