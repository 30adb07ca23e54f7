-- ===== src/Netascii/Chunks.antt =====
-- src/netascii.rs: where the chunks of a stream end makes no difference.
use atftp.Common.{◌≡◌, refl, sym, ap, ◌∙◌, List, [], ◌∷◌, ◌++◌, Bytes, append_assoc, append-nil}
use atftp.Netascii.{FromWire, push_all, wire_byte, step, from_wire, finish, from_chunks}

abbrev pub concat : List Bytes → Bytes
concat [] = []
concat (c ∷ cs) = c ++ concat cs

-- What `ToWire` emits for a text.
abbrev pub wire : Bytes → Bytes
wire [] = []
wire (b ∷ s) = wire_byte b ++ wire s

pub push_all_lem : (s out : Bytes) → push_all s out ≡ out ++ wire s
unfolding push_all
push_all_lem [] out = sym (append-nil out)
push_all_lem (b ∷ s) out =
    push_all_lem s (out ++ wire_byte b) ∙ append_assoc out (wire_byte b) (wire s)

pub wire-append : (s t : Bytes) → wire (s ++ t) ≡ wire s ++ wire t
wire-append [] t = refl
wire-append (b ∷ s) t = simp (wire-append s t, append_assoc)

pub from_wire-append :
    (d : FromWire) (s t out : Bytes)
    → from_wire d (s ++ t) out ≡ from_wire (from_wire d s out).0 t (from_wire d s out).1
unfolding from_wire
from_wire-append d [] t out = refl
from_wire-append d (b ∷ s) t out =
    from_wire-append (step d.pending_cr b).0 s t (out ++ (step d.pending_cr b).1)

-- `translate` on the whole stream, then `finish`.
abbrev pub from_stream : FromWire → Bytes → Bytes → Bytes
from_stream d s out = (finish (from_wire d s out).0 (from_wire d s out).1).1

-- Cutting a stream into chunks, even between the two bytes of a line ending, does not change what
-- is decoded.
pub from_chunks-concat :
    (d : FromWire) (chunks : List Bytes) (out : Bytes)
    → from_chunks d chunks out ≡ from_stream d (concat chunks) out
from_chunks-concat d [] out = unfold from_chunks in refl
from_chunks-concat d (c ∷ chunks) out =
    first
    ∙ from_chunks-concat (from_wire d c out).0 chunks (from_wire d c out).1
    ∙ ap (λ (r : FromWire × Bytes). (finish r.0 r.1).1)
        (sym (from_wire-append d c (concat chunks) out))
  where
    first :
        from_chunks d (c ∷ chunks) out
        ≡ from_chunks (from_wire d c out).0 chunks (from_wire d c out).1
    first = unfold from_chunks in refl
