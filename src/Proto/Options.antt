-- ===== src/Proto/Options.antt =====
-- src/proto/options.rs: the transfer mode, the known options and the ordered set of them.
-- A `u8`, `u16` or `u64` is a number; `OptionValue.IsValid` of the child Valid gives the ranges.
pub mod Valid
pub mod Insert
pub mod Pairs
pub mod OwnPairs
use atftp.Common.{
  ℕ, Bool, true, false, not, ◌&&◌, ◌||◌, List, [], ◌∷◌, ◌++◌, Option, none, some, length, leb, ◌==◌,
  if◌then◌else◌, Bytes, codes,
}
use atftp.Error.{Result, ok, err, ok_or, invalid_mode, invalid_option, Error, ◌>>=◌}
use atftp.Proto.{min_block_size, max_block_size}
use atftp.Text.{str_eq, eq_ignore_ascii_case, to_ascii_lowercase, to_string, parse_uint}

pub data Mode : Type 0 where
  net_ascii octet : Mode

unfoldable pub as_wire : Mode → Bytes
as_wire net_ascii = codes "netascii"
as_wire octet = codes "octet"

-- `FromStr for Mode`
unfoldable pub mode_from_str : Bytes → Result Mode
unfolding eq_ignore_ascii_case
mode_from_str s =
    if eq_ignore_ascii_case s (codes "netascii")
    then ok net_ascii
    else if eq_ignore_ascii_case s (codes "octet") || eq_ignore_ascii_case s (codes "binary")
    then ok octet
    else err (invalid_mode s)

pub data OptionValue : Type 0 where
  block_size timeout transfer_size window_size : ℕ → OptionValue

unfoldable pub name : OptionValue → Bytes
name (block_size _) = codes "blksize"
name (timeout _) = codes "timeout"
name (transfer_size _) = codes "tsize"
name (window_size _) = codes "windowsize"

unfoldable pub value_string : OptionValue → Bytes
value_string (block_size v) = to_string v
value_string (timeout v) = to_string v
value_string (transfer_size v) = to_string v
value_string (window_size v) = to_string v

abbrev pub u8_max : ℕ
u8_max = 255

abbrev pub u16_max : ℕ
u16_max = 65535

abbrev pub u64_max : ℕ
u64_max = 18446744073709551615

-- The tests after `value.parse()` of each option.
in_block_range : Bytes → Bytes → ℕ → Result OptionValue
in_block_range n v k =
    if not (leb min_block_size k && leb k max_block_size)
    then err (invalid_option n v)
    else ok (block_size k)

nonzero : Bytes → Bytes → (ℕ → OptionValue) → ℕ → Result OptionValue
nonzero n v f k = if k == 0 then err (invalid_option n v) else ok (f k)

-- `OptionValue::parse`
unfoldable pub parse : Bytes → Bytes → Result OptionValue
unfolding eq_ignore_ascii_case in_block_range nonzero
parse n v =
    if eq_ignore_ascii_case n (codes "blksize")
    then (do k ← ok_or (parse_uint u16_max v) (invalid_option n v); in_block_range n v k)
    else if eq_ignore_ascii_case n (codes "timeout")
    then (do k ← ok_or (parse_uint u8_max v) (invalid_option n v); nonzero n v timeout k)
    else if eq_ignore_ascii_case n (codes "tsize")
    then (do k ← ok_or (parse_uint u64_max v) (invalid_option n v); ok (transfer_size k))
    else if eq_ignore_ascii_case n (codes "windowsize")
    then (do k ← ok_or (parse_uint u16_max v) (invalid_option n v); nonzero n v window_size k)
    else err (invalid_option n v)

pub record OptionSet : Type 0 where
  pub items : List OptionValue

-- `OptionSet::new`
abbrev pub empty : OptionSet
empty = record { items = [] }

unfoldable pub is_empty : OptionSet → Bool
is_empty set = elim set.items [ [] ↦ true | _ ∷ _ ↦ false ]

-- The slot of the same name is overwritten, or the value goes to the end.
unfoldable pub put_item : OptionValue → List OptionValue → List OptionValue
unfolding str_eq name
put_item v [] = v ∷ []
put_item v (x ∷ xs) = if str_eq (name x) (name v) then v ∷ xs else x ∷ put_item v xs

unfoldable pub insert : OptionSet → OptionValue → OptionSet
unfolding put_item
insert set v = record { items = put_item v set.items }

-- `find_map`
unfoldable pub find_map {ℓ} : {A : Type ℓ} → (OptionValue → Option A) → List OptionValue → Option A
find_map f [] = none
find_map f (x ∷ xs) = elim (f x) [ none ↦ find_map f xs | some a ↦ some a ]

abbrev pub as_block_size : OptionValue → Option ℕ
as_block_size (block_size v) = some v
as_block_size _ = none

abbrev pub as_timeout : OptionValue → Option ℕ
as_timeout (timeout v) = some v
as_timeout _ = none

abbrev pub as_transfer_size : OptionValue → Option ℕ
as_transfer_size (transfer_size v) = some v
as_transfer_size _ = none

abbrev pub as_window_size : OptionValue → Option ℕ
as_window_size (window_size v) = some v
as_window_size _ = none

unfoldable pub get_block_size : OptionSet → Option ℕ
unfolding find_map
get_block_size set = find_map as_block_size set.items

unfoldable pub get_timeout : OptionSet → Option ℕ
unfolding find_map
get_timeout set = find_map as_timeout set.items

unfoldable pub get_transfer_size : OptionSet → Option ℕ
unfolding find_map
get_transfer_size set = find_map as_transfer_size set.items

unfoldable pub get_window_size : OptionSet → Option ℕ
unfolding find_map
get_window_size set = find_map as_window_size set.items

-- `order.iter().any(|n| n == &lower)`
unfoldable pub contains : Bytes → List Bytes → Bool
unfolding str_eq
contains k [] = false
contains k (n ∷ ns) = str_eq n k || contains k ns

-- The `BTreeMap`, of which only `insert` and `get` are used.
abbrev pub StringMap : Type 0
StringMap = List (Bytes × Bytes)

unfoldable pub get : Bytes → StringMap → Option Bytes
unfolding str_eq
get k [] = none
get k ((n, v) ∷ m) = if str_eq n k then some v else get k m

unfoldable pub insert_latest : Bytes → Bytes → StringMap → StringMap
unfolding str_eq
insert_latest k v [] = (k, v) ∷ []
insert_latest k v ((n, w) ∷ m) = if str_eq n k then (k, v) ∷ m else (n, w) ∷ insert_latest k v m

-- The first loop of `from_pairs`: the names in order, and the last value of each.
unfoldable pub collect : List (Bytes × Bytes) → List Bytes → StringMap → List Bytes × StringMap
unfolding to_ascii_lowercase contains insert_latest
collect [] order latest = (order, latest)
collect ((k, v) ∷ pairs) order latest =
    let lower = to_ascii_lowercase k in
    collect pairs (if contains lower order then order else order ++ lower ∷ [])
      (insert_latest lower v latest)

-- `if let Ok(opt) = … { set.insert(opt) }`
abbrev pub insert_parsed : OptionSet → Result OptionValue → OptionSet
insert_parsed set (ok o) = insert set o
insert_parsed set (err _) = set

-- One round of the second loop; a name without a value is passed over.
unfoldable pub insert_found : Bytes → OptionSet → Option Bytes → OptionSet
unfolding insert parse
insert_found n set none = set
insert_found n set (some v) = insert_parsed set (parse n v)

-- The second loop.
unfoldable pub insert_all : List Bytes → StringMap → OptionSet → OptionSet
unfolding get insert_found
insert_all [] latest set = set
insert_all (n ∷ order) latest set = insert_all order latest (insert_found n set (get n latest))

unfoldable pub from_pairs : List (Bytes × Bytes) → OptionSet
unfolding collect insert_all
from_pairs pairs = let (order, latest) = collect pairs [] [] in insert_all order latest empty

-- The pairs that `encode_request` and the OACK branch of `encode_into` put on the wire.
abbrev pub to_pairs : List OptionValue → List (Bytes × Bytes)
to_pairs [] = []
to_pairs (o ∷ os) = (name o, value_string o) ∷ to_pairs os
