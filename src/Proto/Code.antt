-- ===== src/Proto/Code.antt =====
-- src/proto/opcode.rs, `ErrorCode`. A `u16` is a number below 2 ^ 16.
use atftp.Common.{ℕ, ◌≡◌, refl, ◌<◌, ◌^◌, arith, ◌==◌, if◌then◌else◌}

pub data ErrorCode : Type 0 where
  not_defined file_not_found access_violation disk_full illegal_operation : ErrorCode
  unknown_tid file_exists no_such_user option_negotiation : ErrorCode

-- `code as u16`
unfoldable pub as_u16 : ErrorCode → ℕ
as_u16 not_defined = 0
as_u16 file_not_found = 1
as_u16 access_violation = 2
as_u16 disk_full = 3
as_u16 illegal_operation = 4
as_u16 unknown_tid = 5
as_u16 file_exists = 6
as_u16 no_such_user = 7
as_u16 option_negotiation = 8

unfoldable pub from_u16 : ℕ → ErrorCode
from_u16 v =
    if v == 1
    then file_not_found
    else if v == 2
    then access_violation
    else if v == 3
    then disk_full
    else if v == 4
    then illegal_operation
    else if v == 5
    then unknown_tid
    else if v == 6
    then file_exists
    else if v == 7
    then no_such_user
    else if v == 8
    then option_negotiation
    else not_defined

pub from_u16-as_u16 : (c : ErrorCode) → from_u16 (as_u16 c) ≡ c
unfolding from_u16 as_u16
from_u16-as_u16 not_defined = refl
from_u16-as_u16 _ = refl

pub as_u16-lt : (c : ErrorCode) → as_u16 c < 2 ^ 16
unfolding as_u16
as_u16-lt not_defined = omega arith
as_u16-lt _ = omega arith
