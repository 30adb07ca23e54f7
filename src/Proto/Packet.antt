-- ===== src/Proto/Packet.antt =====
-- src/proto/packet.rs: packets, `decode` and `encode_into`. A `?` is a bind of the result type.
pub mod Loop
pub mod Plain
pub mod RoundTrip
pub mod Sound
pub mod Others
use atftp.Common.{
  ℕ, zero, suc, ◌+◌, ◌*◌, ◌/◌, ◌%◌, Bool, true, false, List, [], ◌∷◌, ◌++◌, Option, none, some,
  length, ◌==◌, if◌then◌else◌, Bytes,
}
use atftp.Error.{
  Error, Result, ok, err, ok_or, ◌>>=◌, malformed, packet_shorter_than_opcode,
  data_missing_block_number, ack_missing_block_number, error_too_short, missing_nul, invalid_utf8,
}
use atftp.Proto.Code.{ErrorCode}
use atftp.Proto.Code
use atftp.Proto.Opcode.{Opcode}
use atftp.Proto.Opcode
use atftp.Proto.Options.{
  Mode, OptionSet, OptionValue, as_wire, mode_from_str, name, value_string, from_pairs,
}
use atftp.Text.{from_utf8}

-- `block_data` is the source's `Data`.
pub data Packet : Type 0 where
  rrq wrq : Bytes → Mode → OptionSet → Packet
  block_data : ℕ → Bytes → Packet
  ack : ℕ → Packet
  error : ErrorCode → Bytes → Packet
  oack : OptionSet → Packet

unfoldable pub from_be_bytes : ℕ → ℕ → ℕ
from_be_bytes hi lo = hi * 256 + lo

-- The methods of `BytesMut`.
abbrev pub put_slice : Bytes → Bytes → Bytes
put_slice out s = out ++ s

unfoldable pub put_u16 : Bytes → ℕ → Bytes
put_u16 out v = out ++ (v / 256) ∷ (v % 256) ∷ []

abbrev pub put_u8 : Bytes → ℕ → Bytes
put_u8 out b = out ++ b ∷ []

unfoldable pub put_cstr : Bytes → Bytes → Bytes
put_cstr out s = put_u8 (put_slice out s) 0

-- The loop over `options.iter()`.
unfoldable pub put_options : Bytes → List OptionValue → Bytes
unfolding put_cstr
put_options out [] = out
put_options out (o ∷ os) = put_options (put_cstr (put_cstr out (name o)) (value_string o)) os

unfoldable pub encode_request : Opcode → Bytes → Mode → OptionSet → Bytes → Bytes
unfolding put_u16 put_cstr put_options Opcode.as_u16
encode_request opcode filename mode options out =
    put_options (put_cstr (put_cstr (put_u16 out (Opcode.as_u16 opcode)) filename) (as_wire mode))
      options.items

unfoldable pub encode_into : Packet → Bytes → Bytes
unfolding encode_request put_u16 put_options Opcode.as_u16 Code.as_u16
encode_into (rrq filename mode options) out = encode_request Opcode.rrq filename mode options out
encode_into (wrq filename mode options) out = encode_request Opcode.wrq filename mode options out
encode_into (block_data block payload) out =
    put_slice (put_u16 (put_u16 out (Opcode.as_u16 Opcode.block_data)) block) payload
encode_into (ack block) out = put_u16 (put_u16 out (Opcode.as_u16 Opcode.ack)) block
encode_into (error code msg) out =
    put_u8 (put_slice (put_u16 (put_u16 out (Opcode.as_u16 Opcode.error)) (Code.as_u16 code)) msg) 0
encode_into (oack options) out = put_options (put_u16 out (Opcode.as_u16 Opcode.oack)) options.items

-- The bytes before the first NUL, and those behind it.
unfoldable pub split_nul : Bytes → Option (Bytes × Bytes)
split_nul [] = none
split_nul (b ∷ s) =
    if b == 0
    then some ([], s)
    else elim (split_nul s) [ none ↦ none | some (text, rest) ↦ some (b ∷ text, rest) ]

-- The string, and the cursor behind its NUL.
unfoldable pub take_cstr : Bytes → Result (Bytes × Bytes)
unfolding split_nul from_utf8
take_cstr cursor = do
  (text, rest) ← ok_or (split_nul cursor) missing_nul
  owned ← ok_or (from_utf8 text) invalid_utf8
  ok (owned, rest)

-- `while !cursor.is_empty()`. A round takes two bytes at least, so the length of the cursor is
-- fuel enough: at fuel zero the cursor is empty.
unfoldable pub read_pairs : ℕ → Bytes → Result (List (Bytes × Bytes))
unfolding take_cstr
read_pairs zero cursor = ok []
read_pairs (suc fuel) [] = ok []
read_pairs (suc fuel) (b ∷ s) = do
  (n, behind_name) ← take_cstr (b ∷ s)
  (v, rest) ← take_cstr behind_name
  pairs ← read_pairs fuel rest
  ok ((n, v) ∷ pairs)

unfoldable pub decode_request : (Bytes → Mode → OptionSet → Packet) → Bytes → Result Packet
unfolding take_cstr read_pairs mode_from_str
decode_request request body = do
  (filename, behind_name) ← take_cstr body
  (mode_str, cursor) ← take_cstr behind_name
  mode ← mode_from_str mode_str
  pairs ← read_pairs (length cursor) cursor
  ok (request filename mode (from_pairs pairs))

unfoldable pub decode_data : Bytes → Result Packet
decode_data (hi ∷ lo ∷ payload) = ok (block_data (from_be_bytes hi lo) payload)
decode_data _ = err (malformed data_missing_block_number)

unfoldable pub decode_ack : Bytes → Result Packet
decode_ack (hi ∷ lo ∷ _) = ok (ack (from_be_bytes hi lo))
decode_ack _ = err (malformed ack_missing_block_number)

unfoldable pub decode_error : Bytes → Result Packet
unfolding take_cstr Code.from_u16
decode_error (hi ∷ lo ∷ b ∷ s) = do
  (msg, _) ← take_cstr (b ∷ s)
  ok (error (Code.from_u16 (from_be_bytes hi lo)) msg)
decode_error _ = err (malformed error_too_short)

unfoldable pub decode_oack : Bytes → Result Packet
unfolding read_pairs
decode_oack body = do pairs ← read_pairs (length body) body; ok (oack (from_pairs pairs))

-- The match of `decode` on the opcode.
unfoldable pub decode_body : Opcode → Bytes → Result Packet
unfolding decode_request decode_data decode_ack decode_error decode_oack from_be_bytes
decode_body Opcode.rrq body = decode_request rrq body
decode_body Opcode.wrq body = decode_request wrq body
decode_body Opcode.block_data body = decode_data body
decode_body Opcode.ack body = decode_ack body
decode_body Opcode.error body = decode_error body
decode_body Opcode.oack body = decode_oack body

unfoldable pub decode : Bytes → Result Packet
unfolding decode_body Opcode.from_u16
decode (hi ∷ lo ∷ body) = do opcode ← Opcode.from_u16 (from_be_bytes hi lo); decode_body opcode body
decode _ = err (malformed packet_shorter_than_opcode)
