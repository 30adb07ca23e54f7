-- ===== src/Proto/Options/Insert.antt =====
-- src/proto/options.rs, `OptionSet::insert` and the accessors: at most one value of each kind.
use Prim.Native.String.{String}
use atftp.Common.{
  ℕ, codes, ◌≡◌, refl, ◌∙◌, true, false, List, [], ◌∷◌, ◌++◌, Option, none, some, All, arith,
  if◌then◌else◌, Bool-cases, inl, inr, Bytes,
}
use atftp.Proto.Options.{
  OptionValue, block_size, timeout, transfer_size, window_size, name, put_item, OptionSet, insert,
  empty, find_map, as_block_size, as_timeout, as_transfer_size, as_window_size,
}
use atftp.Proto.Options.Valid.{IsValid}
use atftp.Text.{str_eq, str_eq_iff}

-- `o` has another name than each item.
abbrev pub IsFresh : OptionValue → List OptionValue → Type 0
IsFresh o = All (λ x. str_eq (name x) (name o) ≡ false)

-- No two items have one name.
abbrev pub IsDistinct : List OptionValue → Type 0
IsDistinct [] = Unit
IsDistinct (x ∷ xs) = IsFresh x xs × IsDistinct xs

-- The invariant of an option set: every value in range, and no option twice.
pub record IsWellFormed (set : OptionSet) : Type 0 where
  pub valid : All IsValid set.items
  pub distinct : IsDistinct set.items

pub str_eq_comm : (a b : Bytes) → str_eq a b ≡ str_eq b a
str_eq_comm a b = ground (arith, str_eq_iff a b, str_eq_iff b a)

IsFresh-put_item :
    (x o : OptionValue) (xs : List OptionValue)
    → str_eq (name x) (name o) ≡ false
    → IsFresh x xs
    → IsFresh x (put_item o xs)
unfolding put_item
IsFresh-put_item x o [] e h = (str_eq_comm (name o) (name x) ∙ e, tt)
IsFresh-put_item x o (y ∷ ys) e h =
    ground (arith, IsFresh-put_item x o ys, str_eq_comm (name o) (name x))

IsFresh-replace :
    (x o : OptionValue) (xs : List OptionValue)
    → str_eq (name x) (name o) ≡ true
    → IsFresh x xs
    → IsFresh o xs
IsFresh-replace x o xs e h = rw ((str_eq_iff _ _).0 e) at h

IsDistinct-put_item :
    (o : OptionValue) (xs : List OptionValue) → IsDistinct xs → IsDistinct (put_item o xs)
unfolding put_item
IsDistinct-put_item o [] h = (tt, tt)
IsDistinct-put_item o (x ∷ xs) h =
    ground (arith, IsDistinct-put_item o xs, IsFresh-put_item x o xs, IsFresh-replace x o xs)

All-put_item :
    (o : OptionValue) (xs : List OptionValue)
    → IsValid o
    → All IsValid xs
    → All IsValid (put_item o xs)
unfolding put_item
All-put_item o [] v h = (v, tt)
All-put_item o (x ∷ xs) v h = elim (Bool-cases (str_eq (name x) (name o))) [
  | inl same ↦ rw same (v, h.1)
  | inr differs ↦ rw differs (h.0, All-put_item o xs v h.1)
]

pub insert-IsWellFormed :
    (set : OptionSet) (o : OptionValue) → IsValid o → IsWellFormed set → IsWellFormed (insert set o)
unfolding insert
insert-IsWellFormed set o v h = record {
  valid = All-put_item o set.items v h.valid;
  distinct = IsDistinct-put_item o set.items h.distinct;
}

pub empty-IsWellFormed : IsWellFormed empty
empty-IsWellFormed = record { valid = tt; distinct = tt }

pub put_item-IsFresh :
    (o : OptionValue) (xs : List OptionValue) → IsFresh o xs → put_item o xs ≡ xs ++ o ∷ []
unfolding put_item
put_item-IsFresh o [] h = refl
put_item-IsFresh o (x ∷ xs) h = ground (arith, put_item-IsFresh o xs)

-- The item of a name.
unfoldable pub find_named : Bytes → List OptionValue → Option OptionValue
find_named k [] = none
find_named k (x ∷ xs) = if str_eq (name x) k then some x else find_named k xs

pub find_named-put_item :
    (k : Bytes) (o : OptionValue) (xs : List OptionValue)
    → find_named k (put_item o xs) ≡ (if str_eq (name o) k then some o else find_named k xs)
unfolding find_named put_item
find_named-put_item k o [] = refl
find_named-put_item k o (x ∷ xs) = ground (
  arith,
  find_named-put_item k o xs,
  str_eq_iff (name x) (name o),
  str_eq_iff (name x) k,
  str_eq_iff (name o) k,
)

-- Each accessor reads the item of its name.
abbrev pub Reads : (OptionValue → Option ℕ) → String → Type 0
Reads f k =
    (xs : List OptionValue)
    → find_map f xs ≡ elim (find_named (codes k) xs) [ none ↦ none | some o ↦ f o ]

find_map-block_size : Reads as_block_size "blksize"
unfolding find_map find_named name str_eq
find_map-block_size [] = refl
find_map-block_size (block_size v ∷ xs) = refl
find_map-block_size (timeout v ∷ xs) = find_map-block_size xs
find_map-block_size (transfer_size v ∷ xs) = find_map-block_size xs
find_map-block_size (window_size v ∷ xs) = find_map-block_size xs

find_map-timeout : Reads as_timeout "timeout"
unfolding find_map find_named name str_eq
find_map-timeout [] = refl
find_map-timeout (timeout v ∷ xs) = refl
find_map-timeout (block_size v ∷ xs) = find_map-timeout xs
find_map-timeout (transfer_size v ∷ xs) = find_map-timeout xs
find_map-timeout (window_size v ∷ xs) = find_map-timeout xs

find_map-transfer_size : Reads as_transfer_size "tsize"
unfolding find_map find_named name str_eq
find_map-transfer_size [] = refl
find_map-transfer_size (transfer_size v ∷ xs) = refl
find_map-transfer_size (block_size v ∷ xs) = find_map-transfer_size xs
find_map-transfer_size (timeout v ∷ xs) = find_map-transfer_size xs
find_map-transfer_size (window_size v ∷ xs) = find_map-transfer_size xs

find_map-window_size : Reads as_window_size "windowsize"
unfolding find_map find_named name str_eq
find_map-window_size [] = refl
find_map-window_size (window_size v ∷ xs) = refl
find_map-window_size (block_size v ∷ xs) = find_map-window_size xs
find_map-window_size (timeout v ∷ xs) = find_map-window_size xs
find_map-window_size (transfer_size v ∷ xs) = find_map-window_size xs
