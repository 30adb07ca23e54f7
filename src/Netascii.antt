-- ===== src/Netascii.antt =====
-- src/netascii.rs: the streaming translators between the disk and the wire.
pub mod Chunks
pub mod RoundTrip
use atftp.Common.{ℕ, Bool, true, false, List, [], ◌∷◌, ◌++◌, length, ◌==◌, if◌then◌else◌, Bytes}

abbrev pub lf : ℕ
lf = b'\n'

abbrev pub cr : ℕ
cr = b'\r'

-- What one byte of the source is on the wire.
unfoldable pub wire_byte : ℕ → Bytes
wire_byte b = if b == lf then cr ∷ lf ∷ [] else if b == cr then cr ∷ 0 ∷ [] else b ∷ []

unfoldable pub push_all : Bytes → Bytes → Bytes
unfolding wire_byte
push_all [] out = out
push_all (b ∷ input) out = push_all input (out ++ wire_byte b)

-- `ToWire` has no state. The number is that of the bytes consumed.
unfoldable pub to_wire : Bytes → Bytes → ℕ × Bytes
unfolding push_all
to_wire input out = (length input, push_all input out)

pub record FromWire : Type 0 where
  pub pending_cr : Bool

abbrev pub new : FromWire
new = record { pending_cr = false }

-- A byte behind a CR.
abbrev after_cr : ℕ → Bytes
after_cr b = if b == lf then lf ∷ [] else if b == 0 then cr ∷ [] else cr ∷ b ∷ []

-- One round of the loop, on `pending_cr`: the new flag, and what is pushed.
unfoldable pub step : Bool → ℕ → FromWire × Bytes
step true b = (record { pending_cr = false }, after_cr b)
step false b =
    if b == cr then (record { pending_cr = true }, []) else (record { pending_cr = false }, b ∷ [])

unfoldable pub from_wire : FromWire → Bytes → Bytes → FromWire × Bytes
unfolding step
from_wire d [] out = (d, out)
from_wire d (b ∷ input) out =
    let (d', pushed) = step d.pending_cr b in from_wire d' input (out ++ pushed)

unfoldable pub finish : FromWire → Bytes → FromWire × Bytes
finish d out = if d.pending_cr then (record { pending_cr = false }, out ++ cr ∷ []) else (d, out)

-- The whole of a stream that arrives in chunks, as `write_block` and `finish` of the server and
-- the client feed it.
unfoldable pub from_chunks : FromWire → List Bytes → Bytes → Bytes
unfolding from_wire finish
from_chunks d [] out = (finish d out).1
from_chunks d (c ∷ chunks) out = let (d', out') = from_wire d c out in from_chunks d' chunks out'
