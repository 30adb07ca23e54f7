-- ===== src/Proto/Opcode.antt =====
-- src/proto/opcode.rs, `Opcode`.
use atftp.Common.{ℕ, ◌≡◌, refl, arith, ◌==◌, if◌then◌else◌}
use atftp.Error.{Result, ok, err, unknown_opcode}

-- `block_data` is the source's `Data`.
pub data Opcode : Type 0 where
  rrq wrq block_data ack error oack : Opcode

-- `opcode as u16`
unfoldable pub as_u16 : Opcode → ℕ
as_u16 rrq = 1
as_u16 wrq = 2
as_u16 block_data = 3
as_u16 ack = 4
as_u16 error = 5
as_u16 oack = 6

unfoldable pub from_u16 : ℕ → Result Opcode
from_u16 v =
    if v == 1
    then ok rrq
    else if v == 2
    then ok wrq
    else if v == 3
    then ok block_data
    else if v == 4
    then ok ack
    else if v == 5
    then ok error
    else if v == 6
    then ok oack
    else err (unknown_opcode v)

pub from_u16-as_u16 : (c : Opcode) → from_u16 (as_u16 c) ≡ ok c
unfolding from_u16 as_u16
from_u16-as_u16 rrq = refl
from_u16-as_u16 _ = refl

pub from_u16-eq-ok : (v : ℕ) {c : Opcode} → from_u16 v ≡ ok c → v ≡ as_u16 c
unfolding from_u16 as_u16
from_u16-eq-ok v {c = rrq} h = ground arith
from_u16-eq-ok v {c = _} h = ground arith
