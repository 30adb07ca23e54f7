-- ===== src/Tests/Wire.antt =====
-- Packets, options and negotiation (src/proto, src/server.rs).
use Prim.Native.String.{String}
use atftp.Client.Agrees.{merge_oack-negotiate}
use atftp.Client.{Options, default_options, merge_oack}
use atftp.Server.{defaults}
use atftp.Proto.Packet.{oack}
use atftp.Common.{
  true, ◌≡◌, ◌≢◌, ◌<◌, ◌↔◌, refl, false, List, [], ◌∷◌, ◌++◌, none, some, All, arith, Bytes, codes,
}
use atftp.Error.{ok, err, missing_nul}
use atftp.Proto.Options.Insert.{IsWellFormed}
use atftp.Proto.Options.OwnPairs.{from_pairs-to_pairs}
use atftp.Proto.Options.Pairs.{from_pairs-IsWellFormed}
use atftp.Proto.Options.{
  as_wire, octet, OptionSet, block_size, window_size, name, value_string, from_pairs, to_pairs,
  get_block_size,
}
use atftp.Proto.Packet.RoundTrip.{IsPacket, decode-encode_into}
use atftp.Proto.Packet.Sound.{decode_sound, decode-encode_into-decode, IsByte}
use atftp.Proto.Packet.{Packet, rrq, decode, encode_into}
use atftp.Server.Negotiate.Answers.{Answers, negotiate-Answers, IsAgreed, negotiate-IsAgreed}
use atftp.Server.Negotiate.Bounds.{negotiate_panics, IsTold, negotiate-IsTold}
use atftp.Server.Negotiate.{negotiate}
use atftp.Server.{Config, Negotiated}
use atftp.Text.{is_utf8, str_eq, to_string, parse_uint}

abbrev options : OptionSet
options = record { items = block_size 1428 ∷ window_size 8 ∷ [] }

abbrev request : Packet
request = rrq (codes "boot.img") octet options

abbrev fields : List String → Bytes
fields [] = []
fields (s ∷ ss) = codes s ++ (0 ∷ fields ss)

abbrev request_wire : Bytes
request_wire = 0 ∷ 1 ∷ fields ("boot.img" ∷ "octet" ∷ "blksize" ∷ "1428" ∷ "windowsize" ∷ "8" ∷ [])

encode_request_wire : encode_into request [] ≡ request_wire
unfolding encode_into name value_string to_string as_wire
encode_request_wire = refl

options-IsWellFormed : IsWellFormed options
unfolding name str_eq
options-IsWellFormed = record { valid = omega arith; distinct = ((refl, tt), (tt, tt)) }

request-IsPacket : IsPacket request
unfolding is_utf8
request-IsPacket = (record { no_nul = omega arith; utf8 = refl }, options-IsWellFormed)

decode-encode_into_example : decode (encode_into request []) ≡ ok request
decode-encode_into_example = decode-encode_into request request-IsPacket

-- The same request with the mode in capitals and an option that nobody knows.
abbrev loose_wire : Bytes
loose_wire = 0 ∷ 1 ∷ fields ("f" ∷ "OCTET" ∷ "BlkSize" ∷ "1024" ∷ "madeupopt" ∷ "42" ∷ [])

abbrev loose : Packet
loose = rrq (codes "f") octet (record { items = block_size 1024 ∷ [] })

decode-loose : decode loose_wire ≡ ok loose
unfolding decode from_pairs parse_uint
decode-loose = refl

loose_wire-IsByte : All IsByte loose_wire
loose_wire-IsByte = omega arith

decode_sound_example : IsPacket loose
decode_sound_example = decode_sound loose_wire loose loose_wire-IsByte decode-loose

decode-encode_into-decode_example : decode (encode_into loose []) ≡ decode loose_wire
decode-encode_into-decode_example =
    decode-encode_into-decode loose_wire loose loose_wire-IsByte decode-loose

rejects_missing_nul : decode (0 ∷ 1 ∷ codes "foo") ≡ err missing_nul
unfolding decode
rejects_missing_nul = refl

abbrev two_pairs : Bytes
two_pairs = fields ("tsize" ∷ "0" ∷ "x" ∷ "y" ∷ [])

from_pairs-to_pairs_example : from_pairs (to_pairs options.items) ≡ options
from_pairs-to_pairs_example = from_pairs-to_pairs options options-IsWellFormed

abbrev repeated : List (Bytes × Bytes)
repeated =
    (codes "blksize", codes "512") ∷ (codes "foo", codes "1") ∷ (codes "BLKSIZE", codes "1024") ∷ []

from_pairs-repeated : from_pairs repeated ≡ record { items = block_size 1024 ∷ [] }
unfolding from_pairs parse_uint
from_pairs-repeated = refl

from_pairs-IsWellFormed_example : IsWellFormed (from_pairs repeated)
from_pairs-IsWellFormed_example = from_pairs-IsWellFormed repeated

abbrev small : Config
small = record {
  listen = 0;
  root = codes "/srv";
  allow_overwrite = false;
  timeout = 9;
  retries = 2;
  max_block_size = 1024;
  allow_windowsize = false;
}

abbrev told_options : OptionSet
told_options = record { items = block_size 1024 ∷ [] }

abbrev agreed : Negotiated
agreed = record { blksize = 1024; timeout = 5; windowsize = 1 }

negotiate-small : negotiate small options (some 77) ≡ some (told_options, agreed)
unfolding negotiate
negotiate-small = refl

negotiate-IsTold_example : IsTold told_options agreed
negotiate-IsTold_example =
    negotiate-IsTold small options told_options (some 77) agreed negotiate-small

negotiate-Answers_example : Answers small options told_options (some 77)
negotiate-Answers_example =
    negotiate-Answers small options told_options (some 77) agreed negotiate-small

negotiate-IsAgreed_example : IsAgreed told_options agreed
negotiate-IsAgreed_example =
    negotiate-IsAgreed small options told_options (some 77) agreed options-IsWellFormed
      (omega arith) negotiate-small

merge_oack-negotiate_example :
    (decode (encode_into (oack told_options) []) ≡ ok (oack told_options))
    × (merge_oack defaults told_options ≡ agreed)
merge_oack-negotiate_example =
    merge_oack-negotiate small options told_options (some 77) agreed options-IsWellFormed
      (omega arith) negotiate-small

abbrev asked : Options
asked = record default_options { blksize = some 1024; request_tsize = true }

abbrev tiny : Config
tiny = record small { max_block_size = 4 }

negotiate_panics_example :
    (negotiate tiny options none ≡ none)
    ↔ ((get_block_size options ≢ none) × (tiny.max_block_size < 8))
negotiate_panics_example = negotiate_panics tiny options none

panics : negotiate tiny options none ≡ none
unfolding negotiate
panics = refl
