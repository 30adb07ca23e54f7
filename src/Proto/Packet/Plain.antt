-- ===== src/Proto/Packet/Plain.antt =====
-- Strings on the wire: text without a NUL that is well-formed UTF-8, and its NUL.
use atftp.Common.{
  ℕ, ◌<◌, ◌≡◌, ◌≢◌, refl, ap, true, [], ◌∷◌, ◌++◌, some, length, length-append, All, arith, Bytes,
}
use atftp.Error.{ok}
use atftp.Proto.Options.{
  Mode, net_ascii, octet, OptionValue, block_size, timeout, transfer_size, window_size, name,
  value_string, as_wire,
}
use atftp.Proto.Packet.{split_nul, take_cstr}
use atftp.Text.{is_utf8, to_string-All, IsPlain}

abbrev pub HasNoNul : Bytes → Type 0
HasNoNul = All (λ b. b ≢ 0)

-- What a string field can hold.
pub record IsText (s : Bytes) : Type 0 where
  pub no_nul : HasNoNul s
  pub utf8 : is_utf8 s ≡ true

pub split_nul-append : (s rest : Bytes) → HasNoNul s → split_nul (s ++ 0 ∷ rest) ≡ some (s, rest)
unfolding split_nul
split_nul-append [] rest h = refl
split_nul-append (b ∷ s) rest h = ground (arith, split_nul-append s rest h.1)

pub split_nul_sound :
    (s text rest : Bytes) → split_nul s ≡ some (text, rest) → (s ≡ text ++ 0 ∷ rest) × HasNoNul text
unfolding split_nul
split_nul_sound [] text rest e = cc
split_nul_sound (b ∷ s) [] rest e = ground arith
split_nul_sound (b ∷ s) (c ∷ text) rest e = ground (arith, split_nul_sound s text rest)

-- A text and its NUL are read off the front of the cursor.
pub take_cstr-append : (s rest : Bytes) → IsText s → take_cstr (s ++ 0 ∷ rest) ≡ ok (s, rest)
unfolding take_cstr
take_cstr-append s rest h = ground (arith, split_nul-append s rest h.no_nul, h.utf8)

-- What is read is a text, and the cursor was that text, its NUL and the new cursor.
pub take_cstr_sound :
    (s text rest : Bytes) → take_cstr s ≡ ok (text, rest) → (s ≡ text ++ 0 ∷ rest) × IsText text
unfolding take_cstr
take_cstr_sound s text rest e = ground (arith, split_nul_sound s text rest)

pub take_cstr-lt : (s text rest : Bytes) → take_cstr s ≡ ok (text, rest) → length rest < length s
take_cstr-lt s text rest e =
    omega
      (arith, ap (length {A = ℕ}) (take_cstr_sound s text rest e).0, length-append text (0 ∷ rest))

is_utf8-IsPlain : (s : Bytes) → All IsPlain s → is_utf8 s ≡ true
unfolding is_utf8
is_utf8-IsPlain [] h = refl
is_utf8-IsPlain (b ∷ s) h = ground (arith, is_utf8-IsPlain s h.1)

HasNoNul-IsPlain : (s : Bytes) → All IsPlain s → HasNoNul s
HasNoNul-IsPlain [] h = tt
HasNoNul-IsPlain (b ∷ s) h = (omega arith, HasNoNul-IsPlain s h.1)

pub IsText-IsPlain : (s : Bytes) → All IsPlain s → IsText s
IsText-IsPlain s h = record { no_nul = HasNoNul-IsPlain s h; utf8 = is_utf8-IsPlain s h }

pub IsText-as_wire : (m : Mode) → IsText (as_wire m)
unfolding as_wire
IsText-as_wire net_ascii = IsText-IsPlain _ (omega arith)
IsText-as_wire octet = IsText-IsPlain _ (omega arith)

pub IsText-name : (o : OptionValue) → IsText (name o)
unfolding name
IsText-name (block_size v) = IsText-IsPlain _ (omega arith)
IsText-name (timeout v) = IsText-IsPlain _ (omega arith)
IsText-name (transfer_size v) = IsText-IsPlain _ (omega arith)
IsText-name (window_size v) = IsText-IsPlain _ (omega arith)

pub IsText-value_string : (o : OptionValue) → IsText (value_string o)
unfolding value_string
IsText-value_string (block_size v) = IsText-IsPlain _ (to_string-All v)
IsText-value_string (timeout v) = IsText-IsPlain _ (to_string-All v)
IsText-value_string (transfer_size v) = IsText-IsPlain _ (to_string-All v)
IsText-value_string (window_size v) = IsText-IsPlain _ (to_string-All v)
