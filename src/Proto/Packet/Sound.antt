-- ===== src/Proto/Packet/Sound.antt =====
-- src/proto/packet.rs: what `decode` accepts, and what it refuses.
use atftp.Common.{◌⊎◌, ℕ, ◌+◌, ◌*◌, ◌<◌, ◌≡◌, sym, ◌∙◌, [], ◌∷◌, length, All, arith, Bytes}
use atftp.Error.{ok, err, ◌>>=◌, >>=-eq-ok, unknown_opcode}
use atftp.Proto.Code.{ErrorCode}
use atftp.Proto.Code
use atftp.Proto.Opcode.{Opcode}
use atftp.Proto.Opcode
use atftp.Proto.Options.{Mode, OptionSet, mode_from_str, from_pairs}
use atftp.Proto.Options.Insert.{IsWellFormed}
use atftp.Proto.Options.Pairs.{from_pairs-IsWellFormed}
use atftp.Proto.Packet.{
  Packet, rrq, wrq, block_data, ack, error, oack, from_be_bytes, encode_into, take_cstr, read_pairs,
  decode_request, decode_data, decode_ack, decode_error, decode_oack, decode_body, decode,
}
use atftp.Proto.Packet.Plain.{IsText, take_cstr_sound}
use atftp.Proto.Packet.RoundTrip.{
  IsPacket, decode-encode_into, decode_request_form, decode_oack_form, decode_error_form,
}

abbrev pub IsByte : ℕ → Type 0
IsByte b = b < 256

abbrev Request : Type 0
Request = Bytes → Mode → OptionSet → Packet

-- The packet of an accepted request, for each of the two constructors.
pub decode_request_sound :
    (request : Request) (body : Bytes) (p : Packet)
    → decode_request request body ≡ ok p
    → (f : Bytes) × (m : Mode) × (o : OptionSet) × (p ≡ request f m o) × IsText f × IsWellFormed o
decode_request_sound request body p e =
    let e' = sym (decode_request_form request body) ∙ e in
    let ((f, behind), read, e₁) = >>=-eq-ok (take_cstr body) _ e' in
    let ((s, cursor), _, e₂) = >>=-eq-ok (take_cstr behind) _ e₁ in
    let (m, _, e₃) = >>=-eq-ok (mode_from_str s) _ e₂ in
    let (pairs, _, e₄) = >>=-eq-ok (read_pairs (length cursor) cursor) _ e₃ in
    (
      f,
      m,
      from_pairs pairs,
      cc,
      (take_cstr_sound body f behind read).1,
      from_pairs-IsWellFormed pairs,
    )

pub decode_oack_sound :
    (body : Bytes) (p : Packet)
    → decode_oack body ≡ ok p
    → (o : OptionSet) × (p ≡ oack o) × IsWellFormed o
decode_oack_sound body p e =
    let e' = sym (decode_oack_form body) ∙ e in
    let (pairs, _, e₁) = >>=-eq-ok (read_pairs (length body) body) _ e' in
    (from_pairs pairs, cc, from_pairs-IsWellFormed pairs)

pub decode_error_sound :
    (body : Bytes) (p : Packet)
    → decode_error body ≡ ok p
    → (c : ErrorCode) × (m : Bytes) × (p ≡ error c m) × IsText m
decode_error_sound (hi ∷ lo ∷ b ∷ s) p e =
    let e' = sym (decode_error_form hi lo b s) ∙ e in
    let ((m, rest), read, e₁) = >>=-eq-ok (take_cstr (b ∷ s)) _ e' in
    (Code.from_u16 (from_be_bytes hi lo), m, cc, (take_cstr_sound (b ∷ s) m rest read).1)
decode_error_sound [] p e = unfold decode_error in cc
decode_error_sound (_ ∷ []) p e = unfold decode_error in cc
decode_error_sound (_ ∷ _ ∷ []) p e = unfold decode_error in cc

decode_data_sound :
    (body : Bytes) (p : Packet) → All IsByte body → decode_data body ≡ ok p → IsPacket p
unfolding decode_data from_be_bytes
decode_data_sound (hi ∷ lo ∷ payload) p h e =
    let q : p ≡ block_data (hi * 256 + lo) payload = cc in rw q (omega arith)
decode_data_sound [] p h e = cc
decode_data_sound (_ ∷ []) p h e = cc

decode_ack_sound :
    (body : Bytes) (p : Packet) → All IsByte body → decode_ack body ≡ ok p → IsPacket p
unfolding decode_ack from_be_bytes
decode_ack_sound (hi ∷ lo ∷ rest) p h e = let q : p ≡ ack (hi * 256 + lo) = cc in rw q (omega arith)
decode_ack_sound [] p h e = cc
decode_ack_sound (_ ∷ []) p h e = cc

decode_body_sound :
    (c : Opcode) (body : Bytes) (p : Packet)
    → All IsByte body
    → decode_body c body ≡ ok p
    → IsPacket p
decode_body_sound Opcode.rrq body p h e =
    let (f, m, o, q, t, w) = decode_request_sound rrq body p (unfold decode_body in e) in
    rw q (t, w)
decode_body_sound Opcode.wrq body p h e =
    let (f, m, o, q, t, w) = decode_request_sound wrq body p (unfold decode_body in e) in
    rw q (t, w)
decode_body_sound Opcode.block_data body p h e =
    decode_data_sound body p h (unfold decode_body in e)
decode_body_sound Opcode.ack body p h e = decode_ack_sound body p h (unfold decode_body in e)
decode_body_sound Opcode.error body p h e =
    let (c, m, q, t) = decode_error_sound body p (unfold decode_body in e) in rw q t
decode_body_sound Opcode.oack body p h e =
    let (o, q, w) = decode_oack_sound body p (unfold decode_body in e) in rw q w

-- Whatever bytes arrive, a decoded packet is well formed: its strings are NUL-free UTF-8, its
-- options are in range and of distinct kinds, its block number has 16 bits.
pub decode_sound : (buf : Bytes) (p : Packet) → All IsByte buf → decode buf ≡ ok p → IsPacket p
decode_sound [] p h e = unfold decode in cc
decode_sound (_ ∷ []) p h e = unfold decode in cc
decode_sound (hi ∷ lo ∷ body) p h e =
    let e' : (Opcode.from_u16 (from_be_bytes hi lo) >>= λ c. decode_body c body) ≡ ok p =
      unfold decode in e in
    let (c, _, e₁) = >>=-eq-ok (Opcode.from_u16 (from_be_bytes hi lo)) _ e' in
    decode_body_sound c body p h.1.1 e₁

-- Encoding what was decoded and decoding it again gives the same packet, though the bytes may
-- differ (a mode in capitals, dropped or repeated options).
pub decode-encode_into-decode :
    (buf : Bytes) (p : Packet)
    → All IsByte buf
    → decode buf ≡ ok p
    → decode (encode_into p []) ≡ decode buf
decode-encode_into-decode buf p h e = decode-encode_into p (decode_sound buf p h e) ∙ sym e

-- A buffer whose first two bytes are none of the six opcodes is refused, with that number,
-- whatever follows.
pub decode_unknown_opcode :
    (hi lo : ℕ) (body : Bytes)
    → (hi * 256 + lo ≡ 0) ⊎ (6 < hi * 256 + lo)
    → decode (hi ∷ lo ∷ body) ≡ err (unknown_opcode (hi * 256 + lo))
decode_unknown_opcode hi lo body h =
    unfold decode in
    (let refused : Opcode.from_u16 (from_be_bytes hi lo) ≡ err (unknown_opcode (hi * 256 + lo)) =
        ground arith in
      rw refused)

body_oack :
    (c : Opcode) (body : Bytes) (o : OptionSet) → decode_body c body ≡ ok (oack o) → IsWellFormed o
body_oack Opcode.rrq body o e =
    let (f, m, o', q, _, _) = decode_request_sound rrq body (oack o) (unfold decode_body in e) in
    absurd (cc)
body_oack Opcode.wrq body o e =
    let (f, m, o', q, _, _) = decode_request_sound wrq body (oack o) (unfold decode_body in e) in
    absurd (cc)
body_oack Opcode.block_data (hi ∷ lo ∷ payload) o e = unfold decode_body decode_data in cc
body_oack Opcode.block_data [] o e = unfold decode_body decode_data in cc
body_oack Opcode.block_data (_ ∷ []) o e = unfold decode_body decode_data in cc
body_oack Opcode.ack (hi ∷ lo ∷ rest) o e = unfold decode_body decode_ack in cc
body_oack Opcode.ack [] o e = unfold decode_body decode_ack in cc
body_oack Opcode.ack (_ ∷ []) o e = unfold decode_body decode_ack in cc
body_oack Opcode.error body o e =
    let (c, m, q, t) = decode_error_sound body (oack o) (unfold decode_body in e) in absurd (cc)
body_oack Opcode.oack body o e =
    let (o', q, w) = decode_oack_sound body (oack o) (unfold decode_body in e) in
    let same : o' ≡ o = cc in rw (← same) w

-- The options of an OACK that has arrived are in range and of distinct kinds.
pub decode-oack-IsWellFormed :
    (buf : Bytes) (o : OptionSet) → decode buf ≡ ok (oack o) → IsWellFormed o
decode-oack-IsWellFormed [] o e = unfold decode in cc
decode-oack-IsWellFormed (_ ∷ []) o e = unfold decode in cc
decode-oack-IsWellFormed (hi ∷ lo ∷ body) o e =
    let e' : (Opcode.from_u16 (from_be_bytes hi lo) >>= λ c. decode_body c body) ≡ ok (oack o) =
      unfold decode in e in
    let (c, _, e₁) = >>=-eq-ok (Opcode.from_u16 (from_be_bytes hi lo)) _ e' in body_oack c body o e₁
