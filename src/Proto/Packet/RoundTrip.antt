-- ===== src/Proto/Packet/RoundTrip.antt =====
-- src/proto/packet.rs: `decode` reads back what `encode_into` writes.
use atftp.Common.{
  ℕ, ◌/◌, ◌%◌, ◌<◌, ◌^◌, ◌≡◌, ◌≢◌, refl, ap, ◌∙◌, List, [], ◌∷◌, ◌++◌, length, arith, Bytes,
  append_assoc, append-nil,
}
use atftp.Error.{ok, ◌>>=◌}
use atftp.Proto.Code.{ErrorCode, from_u16-as_u16, as_u16-lt}
use atftp.Proto.Code
use atftp.Proto.Opcode.{Opcode}
use atftp.Proto.Opcode
use atftp.Proto.Options.{
  Mode, OptionSet, OptionValue, as_wire, mode_from_str, name, value_string, from_pairs, to_pairs,
}
use atftp.Proto.Options.Insert.{IsWellFormed}
use atftp.Proto.Options.OwnPairs.{from_pairs-to_pairs}
use atftp.Proto.Options.Valid.{mode_from_str-as_wire}
use atftp.Proto.Packet.{
  Packet, rrq, wrq, block_data, ack, error, oack, from_be_bytes, put_u16, put_cstr, put_options,
  encode_request, encode_into, take_cstr, read_pairs, decode_request, decode_error, decode_oack,
  decode_body, decode,
}
use atftp.Proto.Packet.Loop.{read_pairs_loop}
use atftp.Proto.Packet.Plain.{
  IsText, take_cstr-append, IsText-as_wire, IsText-name, IsText-value_string,
}

-- The packets that have a form on the wire: strings without a NUL in UTF-8, options in range and
-- at most one of each kind, block numbers of 16 bits.
abbrev pub IsPacket : Packet → Type 0
IsPacket (rrq filename mode options) = IsText filename × IsWellFormed options
IsPacket (wrq filename mode options) = IsText filename × IsWellFormed options
IsPacket (block_data block payload) = block < 2 ^ 16
IsPacket (ack block) = block < 2 ^ 16
IsPacket (error code msg) = IsText msg
IsPacket (oack options) = IsWellFormed options

abbrev pub options_wire : List OptionValue → Bytes
options_wire [] = []
options_wire (o ∷ os) = name o ++ (0 ∷ (value_string o ++ (0 ∷ options_wire os)))

put_options_lem :
    (out : Bytes) (os : List OptionValue) → put_options out os ≡ out ++ options_wire os
unfolding put_options put_cstr
put_options_lem out [] = rw append-nil
put_options_lem out (o ∷ os) =
    put_options_lem (put_cstr (put_cstr out (name o)) (value_string o)) os ∙ simp append_assoc

cons-ne-nil : (s : Bytes) (b : ℕ) (rest : Bytes) → s ++ b ∷ rest ≢ []
cons-ne-nil [] b rest = λ e. cc
cons-ne-nil (c ∷ s) b rest = λ e. cc

read_pairs-options_wire :
    (os : List OptionValue)
    → read_pairs (length (options_wire os)) (options_wire os) ≡ ok (to_pairs os)
read_pairs-options_wire [] = unfold read_pairs in refl
read_pairs-options_wire (o ∷ os) =
    read_pairs_loop (options_wire (o ∷ os)) (cons-ne-nil (name o) 0 _)
    ∙ rw (take_cstr-append (name o) _ (IsText-name o)) (
        rw (take_cstr-append (value_string o) _ (IsText-value_string o))
          (rw (read_pairs-options_wire os)))

pub encode_request_lem :
    (c : Opcode) (filename : Bytes) (mode : Mode) (options : OptionSet)
    → encode_request c filename mode options []
      ≡ put_u16 [] (Opcode.as_u16 c)
        ++ (filename ++ (0 ∷ (as_wire mode ++ (0 ∷ options_wire options.items))))
unfolding encode_request
encode_request_lem c filename mode options = simp (put_options_lem, append_assoc)

-- The body of each decoder, with what it calls left shut.
pub decode_request_form :
    (request : Bytes → Mode → OptionSet → Packet) (body : Bytes)
    → decode_request request body ≡ (do
      (filename, behind_name) ← take_cstr body
      (mode_str, cursor) ← take_cstr behind_name
      mode ← mode_from_str mode_str
      pairs ← read_pairs (length cursor) cursor
      ok (request filename mode (from_pairs pairs)))
decode_request_form request body = unfold decode_request in refl

pub decode_oack_form :
    (body : Bytes)
    → decode_oack body ≡ (do pairs ← read_pairs (length body) body; ok (oack (from_pairs pairs)))
decode_oack_form body = unfold decode_oack in refl

decode_request_lem :
    (request : Bytes → Mode → OptionSet → Packet) (filename : Bytes) (mode : Mode)
    (options : OptionSet)
    → IsText filename
    → IsWellFormed options
    → decode_request request (filename ++ (0 ∷ (as_wire mode ++ (0 ∷ options_wire options.items))))
      ≡ ok (request filename mode options)
decode_request_lem request filename mode options t w =
    decode_request_form request _
    ∙ rw (take_cstr-append filename _ t) (
        rw (take_cstr-append (as_wire mode) _ (IsText-as_wire mode)) (
          rw (mode_from_str-as_wire mode)
            (rw (read_pairs-options_wire options.items) (rw (from_pairs-to_pairs options w)))))

pub decode_error_form :
    (hi lo b : ℕ) (s : Bytes)
    → decode_error (hi ∷ lo ∷ b ∷ s)
      ≡ (do (msg, _) ← take_cstr (b ∷ s); ok (error (Code.from_u16 (from_be_bytes hi lo)) msg))
decode_error_form hi lo b s = unfold decode_error in refl

from_be_bytes_lem : (v : ℕ) → from_be_bytes (v / 256) (v % 256) ≡ v
unfolding from_be_bytes
from_be_bytes_lem v = omega arith

decode_error_lem :
    (c : ErrorCode) (msg : Bytes)
    → IsText msg
    → decode_error ((Code.as_u16 c / 256) ∷ (Code.as_u16 c % 256) ∷ (msg ++ 0 ∷ []))
      ≡ ok (error c msg)
decode_error_lem c [] t =
    unfold decode_error in rw (from_be_bytes_lem (Code.as_u16 c), from_u16-as_u16)
decode_error_lem c (b ∷ m) t =
    decode_error_form _ _ b (m ++ 0 ∷ [])
    ∙ rw (take_cstr-append (b ∷ m) [] t) (rw (from_be_bytes_lem (Code.as_u16 c), from_u16-as_u16))

decode_opcode :
    (c : Opcode) (body : Bytes) → decode (put_u16 [] (Opcode.as_u16 c) ++ body) ≡ decode_body c body
decode_opcode Opcode.rrq body = unfold decode put_u16 Opcode.as_u16 in refl
decode_opcode _ body = unfold decode put_u16 Opcode.as_u16 in refl

decode_body_request :
    (body : Bytes)
    → (decode_body Opcode.rrq body ≡ decode_request rrq body)
      × (decode_body Opcode.wrq body ≡ decode_request wrq body)
      × (decode_body Opcode.error body ≡ decode_error body)
      × (decode_body Opcode.oack body ≡ decode_oack body)
decode_body_request body = unfold decode_body in (refl, refl, refl, refl)

pub encode_into_request :
    (f : Bytes) (m : Mode) (o : OptionSet)
    → (encode_into (rrq f m o) [] ≡ encode_request Opcode.rrq f m o [])
      × (encode_into (wrq f m o) [] ≡ encode_request Opcode.wrq f m o [])
encode_into_request f m o = unfold encode_into in (refl, refl)

pub encode_into_error :
    (c : ErrorCode) (m : Bytes)
    → encode_into (error c m) []
      ≡ put_u16 [] (Opcode.as_u16 Opcode.error)
        ++ ((Code.as_u16 c / 256) ∷ (Code.as_u16 c % 256) ∷ (m ++ 0 ∷ []))
unfolding encode_into put_u16
encode_into_error c m = refl

pub encode_into_oack :
    (o : OptionSet)
    → encode_into (oack o) [] ≡ put_u16 [] (Opcode.as_u16 Opcode.oack) ++ options_wire o.items
encode_into_oack o = unfold encode_into in put_options_lem _ o.items

-- Every packet that has a form on the wire is read back from it.
pub decode-encode_into : (p : Packet) → IsPacket p → decode (encode_into p []) ≡ ok p
decode-encode_into (rrq f m o) h =
    ap decode ((encode_into_request f m o).0 ∙ encode_request_lem Opcode.rrq f m o)
    ∙ decode_opcode Opcode.rrq _
    ∙ (decode_body_request _).0
    ∙ decode_request_lem rrq f m o h.0 h.1
decode-encode_into (wrq f m o) h =
    ap decode ((encode_into_request f m o).1 ∙ encode_request_lem Opcode.wrq f m o)
    ∙ decode_opcode Opcode.wrq _
    ∙ (decode_body_request _).1
    ∙ decode_request_lem wrq f m o h.0 h.1
decode-encode_into (block_data b d) h = unfold encode_into decode in rw (from_be_bytes_lem b)
decode-encode_into (ack b) h = unfold encode_into decode in rw (from_be_bytes_lem b)
decode-encode_into (error c m) h =
    ap decode (encode_into_error c m)
    ∙ decode_opcode Opcode.error _
    ∙ (decode_body_request _).2
    ∙ decode_error_lem c m h
decode-encode_into (oack o) h =
    ap decode (encode_into_oack o)
    ∙ decode_opcode Opcode.oack _
    ∙ (decode_body_request _).3
    ∙ decode_oack_form _
    ∙ rw (read_pairs-options_wire o.items) (rw (from_pairs-to_pairs o h))
