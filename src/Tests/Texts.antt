-- ===== src/Tests/Texts.antt =====
-- Line endings, paths and windows (src/netascii.rs, src/path_safe.rs, `consume_ack`).
use atftp.Common.{
  ℕ, suc, ◌≡◌, ◌<◌, ◌↔◌, ◌⊎◌, refl, true, false, ◌||◌, List, [], ◌∷◌, ◌++◌, map, drop, All, arith,
  Bytes, codes, if◌then◌else◌, ltb,
}
use atftp.Error.{ok, err, invalid_path}
use atftp.Netascii.Chunks.{concat, from_chunks-concat, from_stream}
use atftp.Netascii.RoundTrip.{from_chunks-to_wire, to_wire-from_chunks, is_wire}
use atftp.Netascii.{new, to_wire, from_chunks}
use atftp.PathSafe.Confined.{IsSafe, resolve_cases, resolve_confined, IsName}
use atftp.PathSafe.{components, join, normal, resolve}
use atftp.Window.Acks.{pop_acked_lem, client_pop_acked_lem, not_empty, u16_le_in_window_iff}
use atftp.Window.{Frame, pop_acked, client_pop_acked, u16_le_in_window, wrapping_add, wrapping_sub}

abbrev text : Bytes
text = codes "a\nb\rc"

-- The wire form, cut between a CR and its LF and between a CR and its NUL.
abbrev cut_wire : List Bytes
cut_wire = codes "a\r" ∷ codes "\nb\r" ∷ (0 ∷ codes "c") ∷ []

to_wire-text : concat cut_wire ≡ (to_wire text []).1
unfolding to_wire
to_wire-text = refl

from_chunks-to_wire_example : from_chunks new cut_wire [] ≡ text
from_chunks-to_wire_example = from_chunks-to_wire text cut_wire to_wire-text

from_chunks-concat_example : from_chunks new cut_wire [] ≡ from_stream new (concat cut_wire) []
from_chunks-concat_example = from_chunks-concat new cut_wire []

cut_wire-is_wire : is_wire false (concat cut_wire) ≡ true
unfolding is_wire
cut_wire-is_wire = refl

to_wire-from_chunks_example : (to_wire (from_chunks new cut_wire []) []).1 ≡ concat cut_wire
to_wire-from_chunks_example = to_wire-from_chunks cut_wire cut_wire-is_wire

abbrev root : Bytes
root = codes "/srv/tftp"

resolves : resolve root (codes "./sub//boot.img") ≡ ok (codes "/srv/tftp/./sub//boot.img")
unfolding resolve
resolves = refl

rejects_parent_dir :
    resolve root (codes "sub/../../etc/passwd") ≡ err (invalid_path (codes "sub/../../etc/passwd"))
unfolding resolve
rejects_parent_dir = refl

resolve_cases_example :
    (IsSafe (codes "../x") × (resolve root (codes "../x") ≡ ok (join root (codes "../x"))))
    ⊎ ((¬ IsSafe (codes "../x"))
        × (resolve root (codes "../x") ≡ err (invalid_path (codes "../x"))))
resolve_cases_example = resolve_cases root (codes "../x")

resolve_confined_example :
    (names : List Bytes) × (components (codes "/srv/tftp/./sub//boot.img")
      ≡ components root ++ map normal names)
    × All IsName names
resolve_confined_example =
    resolve_confined root (codes "./sub//boot.img") (codes "/srv/tftp/./sub//boot.img") (cc)
      resolves

-- Blocks 65534, 65535 and 0 are in flight, and block 0 is acknowledged.
abbrev wrapping : List Frame
wrapping = (65534, codes "a") ∷ (65535, codes "b") ∷ (0, codes "c") ∷ []

pop_acked_example : pop_acked 0 4 wrapping false ≡ (
    if ltb (wrapping_sub 0 65534) 4
    then (drop (suc (wrapping_sub 0 65534)) wrapping, false || not_empty wrapping)
    else (wrapping, false))
unfolding wrapping_add
pop_acked_example =
    pop_acked_lem 0 4 65534 wrapping false (omega arith) (omega arith) (omega arith)
      (refl, (refl, (refl, tt)))

-- An acknowledgement of a block that was never sent empties the window.
unsent : pop_acked 8 4 ((5, []) ∷ (6, []) ∷ []) false ≡ ([], true)
unfolding pop_acked
unsent = refl

client_pop_acked_example : client_pop_acked 0 4 wrapping false ≡ pop_acked 0 4 wrapping false
client_pop_acked_example = client_pop_acked_lem 0 4 wrapping false

u16_le_in_window_example :
    (u16_le_in_window 65535 2 4 ≡ true) ↔ ((d : ℕ) × (0 < d) × (d < 4) × (2 ≡ wrapping_add 65535 d))
u16_le_in_window_example = u16_le_in_window_iff 65535 2 4 (omega arith) (omega arith) (omega arith)
