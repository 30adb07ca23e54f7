-- ===== src/Blocks/Decoded.antt =====
-- What `write_block` and the end of a transfer write to a file, in src/server.rs and src/client.rs:
-- the output of each block, and of the decoder's end, are the decoded stream.
use atftp.Common.{
  ◌≡◌, refl, sym, ap, ◌∙◌, List, [], ◌∷◌, ◌++◌, Option, none, some, Bytes, append_assoc, append-nil,
  arith,
}
use atftp.Netascii.Chunks.{concat}
use atftp.Netascii.{FromWire, step, from_wire, finish, from_chunks}

-- The decoder behind a block, and what the block gives.
unfoldable pub stage : Option FromWire → Bytes → Option FromWire × Bytes
stage none block = (none, block)
stage (some dec) block = (some (from_wire dec block []).0, (from_wire dec block []).1)

-- What the end of the stream gives.
unfoldable pub tail_of : Option FromWire → Bytes
tail_of none = []
tail_of (some dec) = (finish dec []).1

-- The text that blocks stand for, in the mode of the transfer.
abbrev pub decoded : Option FromWire → List Bytes → Bytes
decoded none blocks = concat blocks
decoded (some dec) blocks = from_chunks dec blocks []

from_wire-out :
    (dec : FromWire) (s out : Bytes)
    → from_wire dec s out ≡ ((from_wire dec s []).0, out ++ (from_wire dec s []).1)
unfolding from_wire
from_wire-out dec [] out = ap (λ (o : Bytes). (dec, o)) (sym (append-nil out))
from_wire-out dec (b ∷ s) out =
    let (dec', pushed) = step dec.pending_cr b in
    rw (from_wire-out dec' s (out ++ pushed), from_wire-out dec' s pushed, append_assoc) refl

finish-out : (dec : FromWire) (out : Bytes) → (finish dec out).1 ≡ out ++ (finish dec []).1
finish-out dec out = unfold finish in ground (arith, append-nil out)

from_chunks-out :
    (dec : FromWire) (blocks : List Bytes) (out : Bytes)
    → from_chunks dec blocks out ≡ out ++ from_chunks dec blocks []
unfolding from_chunks
from_chunks-out dec [] out = finish-out dec out
from_chunks-out dec (c ∷ blocks) out =
    ap (λ (r : FromWire × Bytes). from_chunks r.0 blocks r.1) (from_wire-out dec c out)
    ∙ from_chunks-out (from_wire dec c []).0 blocks (out ++ (from_wire dec c []).1)
    ∙ append_assoc out (from_wire dec c []).1 _
    ∙ ap (λ (s : Bytes). out ++ s)
        (sym (from_chunks-out (from_wire dec c []).0 blocks (from_wire dec c []).1))

pub decoded-cons :
    (dec : Option FromWire) (block : Bytes) (blocks : List Bytes)
    → decoded dec (block ∷ blocks) ≡ (stage dec block).1 ++ decoded (stage dec block).0 blocks
unfolding stage
decoded-cons none block blocks = refl
decoded-cons (some dec) block blocks =
    first ∙ from_chunks-out (from_wire dec block []).0 blocks (from_wire dec block []).1
  where
    first :
        from_chunks dec (block ∷ blocks) []
        ≡ from_chunks (from_wire dec block []).0 blocks (from_wire dec block []).1
    first = unfold from_chunks in refl

pub decoded-nil : (dec : Option FromWire) → decoded dec [] ≡ tail_of dec
unfolding tail_of
decoded-nil none = refl
decoded-nil (some dec) = unfold from_chunks in refl
