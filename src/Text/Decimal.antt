-- ===== src/Text/Decimal.antt =====
-- Unsigned integers in decimal: `to_string`, and `parse` of `u8`, `u16` and `u64`.
use atftp.Common.{
  ℕ, zero, suc, ◌+◌, ◌-◌, ◌*◌, ◌/◌, ◌%◌, ◌≤◌, ◌<◌, ◌≡◌, ◌≢◌, refl, ◌∙◌, ◌&&◌, [], ◌∷◌, Option, none,
  some, arith, ltb, leb, ◌==◌, if◌then◌else◌, Bytes, All,
}

-- Digits in front of `out`; the fuel is more than the number.
digits : ℕ → ℕ → Bytes → Bytes
digits zero n out = out
digits (suc f) n out =
    let more = digits f (n / 10) ((b'0' + n % 10) ∷ out) in
    if ltb n 10 then (b'0' + n) ∷ out else more

unfoldable pub to_string : ℕ → Bytes
unfolding digits
to_string n = digits (suc n) n []

-- The loop of `from_str_radix`; `max` is the type's largest value.
scan : ℕ → ℕ → Bytes → Option ℕ
scan max n [] = some n
scan max n (c ∷ s) =
    let d = c - b'0' in
    if leb b'0' c && leb c b'9' && leb (n * 10 + d) max then scan max (n * 10 + d) s else none

after_sign : ℕ → Bytes → Option ℕ
after_sign max [] = none
after_sign max (c ∷ s) = scan max 0 (c ∷ s)

-- One leading plus is allowed; an empty text and a lone sign are not numbers.
unfoldable pub parse_uint : ℕ → Bytes → Option ℕ
unfolding scan after_sign
parse_uint max [] = none
parse_uint max (c ∷ s) = if c == b'+' then after_sign max s else scan max 0 (c ∷ s)

scan-digits :
    (max f n : ℕ) (out : Bytes) → n < f → n ≤ max → scan max 0 (digits f n out) ≡ scan max n out
unfolding scan digits
scan-digits max zero n out h k = absurd (omega arith)
scan-digits max (suc f) n out h k =
    ground (arith, scan-digits max f (n / 10) ((b'0' + n % 10) ∷ out))

-- Printable ASCII: no NUL, and one byte to a character.
abbrev pub IsPlain : ℕ → Type 0
IsPlain c = (0 < c) × (c < 128)

abbrev IsDigit : ℕ → Type 0
IsDigit c = (b'0' ≤ c) × (c ≤ b'9')

digits-All : (f n : ℕ) (out : Bytes) → All IsDigit out → All IsDigit (digits f n out)
unfolding digits
digits-All zero n out h = h
digits-All (suc f) n out h = ground (arith, digits-All f (n / 10) ((b'0' + n % 10) ∷ out))

digits-ne-nil : (f n : ℕ) (out : Bytes) → n < f → digits f n out ≢ []
unfolding digits
digits-ne-nil zero n out h = absurd (omega arith)
digits-ne-nil (suc f) n out h = ground (arith, digits-ne-nil f (n / 10) ((b'0' + n % 10) ∷ out))

All-IsPlain : (s : Bytes) → All IsDigit s → All IsPlain s
All-IsPlain [] h = tt
All-IsPlain (c ∷ s) h = ((omega arith, omega arith), All-IsPlain s h.1)

pub to_string-All : (n : ℕ) → All IsPlain (to_string n)
unfolding to_string
to_string-All n = All-IsPlain _ (digits-All (suc n) n [] tt)

parse_uint-scan : (max : ℕ) (s : Bytes) → s ≢ [] → All IsDigit s → parse_uint max s ≡ scan max 0 s
unfolding parse_uint
parse_uint-scan max [] h d = absurd (h refl)
parse_uint-scan max (c ∷ s) h d = ground arith

-- What `to_string` prints is read back by the parser of any type that holds the number.
pub parse_uint-to_string : (max n : ℕ) → n ≤ max → parse_uint max (to_string n) ≡ some n
unfolding to_string scan
parse_uint-to_string max n h =
    parse_uint-scan max _ (digits-ne-nil (suc n) n [] (omega arith)) (digits-All (suc n) n [] tt)
    ∙ scan-digits max (suc n) n [] (omega arith) h

scan-le : (max n : ℕ) (s : Bytes) {r : ℕ} → n ≤ max → scan max n s ≡ some r → r ≤ max
unfolding scan
scan-le max n [] h e = ground arith
scan-le max n (c ∷ s) {r} h e = ground (arith, scan-le max (n * 10 + (c - b'0')) s {r = r})

-- A parsed number fits its type.
pub parse_uint-le : (max : ℕ) (s : Bytes) {r : ℕ} → parse_uint max s ≡ some r → r ≤ max
unfolding parse_uint
parse_uint-le max [] e = cc
parse_uint-le max (c ∷ []) {r} e = ground (arith, scan-le max 0 (c ∷ []) {r = r})
parse_uint-le max (c ∷ d ∷ s) {r} e =
    ground (arith, scan-le max 0 (d ∷ s) {r = r}, scan-le max 0 (c ∷ d ∷ s) {r = r})
