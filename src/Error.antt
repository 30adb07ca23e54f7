-- ===== src/Error.antt =====
-- src/error.rs: the error type of the crate, and its result type.
use atftp.Common.{ℕ, ◌≡◌, refl, Bytes, Option, none, some}
use atftp.Proto.Code.{ErrorCode}

-- `std::io::ErrorKind`, as far as the program tells its values apart.
pub data ErrorKind : Type 0 where
  not_found permission_denied already_exists other : ErrorKind

-- The texts of `Malformed`.
pub data Defect : Type 0 where
  packet_shorter_than_opcode data_missing_block_number : Defect
  ack_missing_block_number error_too_short : Defect

pub data Error : Type 0 where
  io : ErrorKind → Error
  malformed : Defect → Error
  unknown_opcode : ℕ → Error
  invalid_utf8 missing_nul : Error
  invalid_mode : Bytes → Error
  invalid_option : Bytes → Bytes → Error
  peer : ErrorCode → Bytes → Error
  timeout : ℕ → Error
  unexpected_packet : Error
  invalid_path : Bytes → Error
  file_too_large cancelled : Error

pub data Result {ℓ} (A : Type ℓ) : Type ℓ where
  err : Error → Result A
  ok : A → Result A

module _ {ℓ} {A : Type ℓ} where
  -- `Option::ok_or`, and `map_err` on a parse result.
  abbrev pub ok_or : Option A → Error → Result A
  ok_or none otherwise = err otherwise
  ok_or (some a) otherwise = ok a

  pub ok_or-eq-ok :
      (o : Option A) (otherwise : Error) {a : A} → ok_or o otherwise ≡ ok a → o ≡ some a
  ok_or-eq-ok none otherwise h = cc
  ok_or-eq-ok (some a) otherwise h = cc

module _ {ℓ κ} {A : Type ℓ} {B : Type κ} where
  -- The operator `?`: an error is returned at once.
  infixl 5 ◌>>=◌
  abbrev pub ◌>>=◌ : Result A → (A → Result B) → Result B
  err failure >>= next = err failure
  ok value >>= next = next value

  -- Where a chain succeeds, its first step did, and so did the rest on the value of that step.
  pub >>=-eq-ok :
      (r : Result A) (next : A → Result B) {last : B}
      → (r >>= next) ≡ ok last
      → (value : A) × (r ≡ ok value) × (next value ≡ ok last)
  >>=-eq-ok (err failure) next e = cc
  >>=-eq-ok (ok value) next e = (value, refl, e)
