-- ===== src/Proto/Packet/Others.antt =====
-- src/proto/packet.rs: a packet that is no DATA packet is not read as one, also where it is cut off.
use atftp.Common.{ℕ, ◌≡◌, refl, sym, ap, ◌∙◌, [], ◌++◌, take, Bytes}
use atftp.Error.{Result, ok}
use atftp.Proto.Code.{ErrorCode}
use atftp.Proto.Options.{Mode, OptionSet}
use atftp.Proto.Opcode.{Opcode}
use atftp.Proto.Opcode
use atftp.Proto.Packet.RoundTrip.{
  encode_request_lem, encode_into_request, encode_into_error, encode_into_oack,
}
use atftp.Proto.Packet.Sound.{decode_request_sound, decode_oack_sound, decode_error_sound}
use atftp.Proto.Packet.{
  Packet, wrq, block_data, ack, error, oack, encode_into, decode_request, decode_error, decode_oack,
  decode_body, decode, put_u16,
}
use atftp.Proto.{max_packet_size}

-- A datagram that no receiver reads as DATA.
abbrev pub NoData : Bytes → Type 0
NoData buf =
    (block : ℕ) (payload : Bytes)
    → decode (take max_packet_size buf) ≡ ok (block_data block payload)
    → ⊥

abbrev IsOther : Result Packet → Type 0
IsOther r = (block : ℕ) (payload : Bytes) → r ≡ ok (block_data block payload) → ⊥

decode_error-IsOther : (body : Bytes) → IsOther (decode_error body)
decode_error-IsOther body block payload e =
    let (c, m, q, _) = decode_error_sound body (block_data block payload) e in cc

decode_oack-IsOther : (body : Bytes) → IsOther (decode_oack body)
decode_oack-IsOther body block payload e =
    let (o, q, _) = decode_oack_sound body (block_data block payload) e in cc

decode_wrq-IsOther : (body : Bytes) → IsOther (decode_request wrq body)
decode_wrq-IsOther body block payload e =
    let (f, m, o, q, _, _) = decode_request_sound wrq body (block_data block payload) e in cc

-- A packet is read by the opcode in front, which stands within what is kept of it.
cut_opcode :
    (c : Opcode) (body : Bytes)
    → decode (take max_packet_size (put_u16 [] (Opcode.as_u16 c) ++ body))
      ≡ decode_body c (take 65466 body)
cut_opcode Opcode.rrq body = unfold decode put_u16 Opcode.as_u16 in refl
cut_opcode _ body = unfold decode put_u16 Opcode.as_u16 in refl

with_opcode :
    (c : Opcode) (buf body : Bytes)
    → buf ≡ put_u16 [] (Opcode.as_u16 c) ++ body
    → ((rest : Bytes) → IsOther (decode_body c rest))
    → NoData buf
with_opcode c buf body is other block payload e =
    other (take 65466 body) block payload
      (sym (cut_opcode c body) ∙ ap (λ (b : Bytes). decode (take max_packet_size b)) (sym is) ∙ e)

pub ack-NoData : (b : ℕ) → NoData (encode_into (ack b) [])
ack-NoData b block payload e = unfold encode_into decode in cc

pub error-NoData : (c : ErrorCode) (m : Bytes) → NoData (encode_into (error c m) [])
error-NoData c m =
    with_opcode Opcode.error _ _ (encode_into_error c m)
      (λ rest. unfold decode_body in decode_error-IsOther rest)

pub oack-NoData : (o : OptionSet) → NoData (encode_into (oack o) [])
oack-NoData o =
    with_opcode Opcode.oack _ _ (encode_into_oack o)
      (λ rest. unfold decode_body in decode_oack-IsOther rest)

pub wrq-NoData : (f : Bytes) (m : Mode) (o : OptionSet) → NoData (encode_into (wrq f m o) [])
wrq-NoData f m o =
    with_opcode Opcode.wrq _ _ ((encode_into_request f m o).1 ∙ encode_request_lem Opcode.wrq f m o)
      (λ rest. unfold decode_body in decode_wrq-IsOther rest)
