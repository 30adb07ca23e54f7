-- ===== src/Netascii/RoundTrip.antt =====
-- src/netascii.rs: the two translators undo one another.
use atftp.Common.{
  Bool-cases, ==_iff, &&-eq-true, inl, inr, ℕ, ◌*◌, ◌≤◌, ◌≡◌, refl, sym, ap, ◌∙◌, Bool, true, false,
  not, ◌&&◌, ◌||◌, List, [], ◌∷◌, ◌++◌, length, arith, ◌==◌, if◌then◌else◌, Bytes, append_assoc,
  append-nil,
}
use atftp.Netascii.{lf, cr, wire_byte, to_wire, FromWire, new, from_wire, finish, from_chunks}
use atftp.Netascii.Chunks.{concat, wire, push_all_lem, from_chunks-concat, from_stream, wire-append}

from_wire-wire_byte :
    (b : ℕ) (rest out : Bytes)
    → from_wire new (wire_byte b ++ rest) out ≡ from_wire new rest (out ++ b ∷ [])
unfolding from_wire wire_byte
from_wire-wire_byte b rest out = ground (arith, append-nil out)

from_wire-wire : (s out : Bytes) → from_wire new (wire s) out ≡ (new, out ++ s)
from_wire-wire [] out = unfold from_wire in rw append-nil
from_wire-wire (b ∷ s) out =
    from_wire-wire_byte b (wire s) out ∙ from_wire-wire s (out ++ b ∷ []) ∙ rw append_assoc

pub to_wire_lem : (s : Bytes) → (to_wire s []).1 ≡ wire s
to_wire_lem s = unfold to_wire in push_all_lem s []

-- A text that is encoded, cut into any chunks and decoded chunk by chunk comes back, whatever
-- bytes it holds.
pub from_chunks-to_wire :
    (s : Bytes) (chunks : List Bytes)
    → concat chunks ≡ (to_wire s []).1
    → from_chunks new chunks [] ≡ s
from_chunks-to_wire s chunks h =
    from_chunks-concat new chunks []
    ∙ ap (λ (w : Bytes). from_stream new w []) (h ∙ to_wire_lem s)
    ∙ ap (λ (r : FromWire × Bytes). (finish r.0 r.1).1) (from_wire-wire s [])
    ∙ unfold finish in refl

-- Wire text: a CR has an LF or a NUL behind it, and an LF a CR in front; the flag says that the
-- byte before was a CR.
unfoldable pub is_wire : Bool → Bytes → Bool
is_wire true [] = false
is_wire false [] = true
is_wire true (b ∷ s) = (b == lf || b == 0) && is_wire false s
is_wire false (b ∷ s) = if b == cr then is_wire true s else not (b == lf) && is_wire false s

is_wire-wire_byte :
    (b : ℕ) (rest : Bytes) → is_wire false (wire_byte b ++ rest) ≡ is_wire false rest
unfolding is_wire wire_byte
is_wire-wire_byte b rest = ground arith

is_wire-wire : (s : Bytes) → is_wire false (wire s) ≡ true
is_wire-wire [] = unfold is_wire in refl
is_wire-wire (b ∷ s) = is_wire-wire_byte b (wire s) ∙ is_wire-wire s

is_wire-cr :
    (b : ℕ) (w : Bytes) → (b == cr) ≡ true → is_wire false (b ∷ w) ≡ true → is_wire true w ≡ true
unfolding is_wire
is_wire-cr b w h k = ground arith

is_wire_plain :
    (b : ℕ) (w : Bytes)
    → (b == cr) ≡ false
    → is_wire false (b ∷ w) ≡ true
    → (not (b == lf) && is_wire false w) ≡ true
unfolding is_wire
is_wire_plain b w h k = ground arith

abbrev owed : Bool → Bytes
owed true = cr ∷ []
owed false = []

wire_byte-plain : (b : ℕ) → (b == cr) ≡ false → not (b == lf) ≡ true → wire (b ∷ []) ≡ b ∷ []
unfolding wire_byte
wire_byte-plain b h k = ground arith

abbrev state : Bool → FromWire
state p = record { pending_cr = p }

from_wire-cr : (w out : Bytes) → from_wire (state false) (cr ∷ w) out ≡ from_wire (state true) w out
from_wire-cr w out = unfold from_wire in rw append-nil

from_wire_plain :
    (b : ℕ) (w out : Bytes)
    → (b == cr) ≡ false
    → from_wire (state false) (b ∷ w) out ≡ from_wire (state false) w (out ++ b ∷ [])
unfolding from_wire
from_wire_plain b w out h = ground arith

from_wire_pair :
    (b : ℕ) (w out : Bytes)
    → (b == lf || b == 0) ≡ true
    → (s : Bytes) × (from_wire (state true) (b ∷ w) out ≡ from_wire (state false) w (out ++ s))
      × (wire s ≡ cr ∷ b ∷ [])
unfolding from_wire wire_byte
from_wire_pair b w out h = elim (Bool-cases (b == lf)) [
  | inl is_lf ↦ (lf ∷ [], ground arith, ground arith)
  | inr not_lf ↦ (cr ∷ [], ground arith, ground arith)
]

-- Encoding what has been decoded so far gives back the wire text, but for a CR that is pending.
abbrev Decoded : Bool → Bytes → Bytes → FromWire × Bytes → Type 0
Decoded p w out r = (wire r.1 ≡ wire out ++ (owed p ++ w)) × (r.0 ≡ new)

-- `s` was pushed for the bytes `t`.
Decoded-push :
    (s t w out : Bytes) (r : FromWire × Bytes)
    → wire s ≡ t
    → Decoded false w (out ++ s) r
    → (wire r.1 ≡ wire out ++ (t ++ w)) × (r.0 ≡ new)
Decoded-push s t w out r e d = (
  d.0
      ∙ ap (λ (x : Bytes). x ++ w) (wire-append out s ∙ ap (λ (x : Bytes). wire out ++ x) e)
      ∙ append_assoc (wire out) t w,
  d.1,
)

wire-from_wire :
    (p : Bool) (w out : Bytes) → is_wire p w ≡ true → Decoded p w out (from_wire (state p) w out)
wire-from_wire true [] out h = unfold is_wire in cc
wire-from_wire false [] out h = unfold from_wire in (rw append-nil, refl)
wire-from_wire true (b ∷ w) out h =
    let rest = &&-eq-true (b == lf || b == 0) (is_wire false w) (unfold is_wire in h) in
    let (s, e, t) = from_wire_pair b w out rest.0 in
    rw e (Decoded-push s (cr ∷ b ∷ []) w out _ t (wire-from_wire false w (out ++ s) rest.1))
wire-from_wire false (b ∷ w) out h = elim (Bool-cases (b == cr)) [
  | inl is_cr ↦
      let same : b ≡ cr = (==_iff b cr).0 is_cr in
      rw same (rw from_wire-cr (wire-from_wire true w out (is_wire-cr b w is_cr h)))
  | inr not_cr ↦
      let rest = &&-eq-true (not (b == lf)) (is_wire false w) (is_wire_plain b w not_cr h) in
      rw (from_wire_plain b w out not_cr) (
        Decoded-push (b ∷ []) (b ∷ []) w out _ (wire_byte-plain b not_cr rest.0)
          (wire-from_wire false w (out ++ b ∷ []) rest.1))
]

finish-new : (out : Bytes) → wire (finish new out).1 ≡ wire out
finish-new out = unfold finish in refl

-- On wire text the decoder loses nothing: encoding the decoded stream gives the wire text back.
pub to_wire-from_chunks :
    (chunks : List Bytes)
    → is_wire false (concat chunks) ≡ true
    → (to_wire (from_chunks new chunks []) []).1 ≡ concat chunks
to_wire-from_chunks chunks h =
    let (text, settled) = wire-from_wire false (concat chunks) [] h in
    let r = from_wire new (concat chunks) [] in
    ap (λ (s : Bytes). (to_wire s []).1) (from_chunks-concat new chunks [])
    ∙ to_wire_lem (from_stream new (concat chunks) [])
    ∙ ap (λ (d : FromWire). wire (finish d r.1).1) settled
    ∙ finish-new r.1
    ∙ text

pub length-wire : (s : Bytes) → (length s ≤ length (wire s)) × (length (wire s) ≤ 2 * length s)
unfolding wire_byte
length-wire [] = (omega arith, omega arith)
length-wire (b ∷ s) = ground (arith, length-wire s)

-- Every byte gives one or two bytes of wire text.
pub length-to_wire :
    (s : Bytes)
    → ((to_wire s []).0 ≡ length s)
      × (is_wire false (to_wire s []).1 ≡ true)
      × (length s ≤ length (to_wire s []).1)
      × (length (to_wire s []).1 ≤ 2 * length s)
length-to_wire s =
    let w : wire s ≡ (to_wire s []).1 = sym (to_wire_lem s) in
    (
      (unfold to_wire in refl),
      rw w at (is_wire-wire s),
      rw w at (length-wire s).0,
      rw w at (length-wire s).1,
    )
