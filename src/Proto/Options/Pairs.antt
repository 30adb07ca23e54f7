-- ===== src/Proto/Options/Pairs.antt =====
-- src/proto/options.rs, `OptionSet::from_pairs`: the last value of a name counts, unknown and
-- malformed options are dropped, and a set is read back from its own pairs.
use atftp.Common.{
  ℕ, ap₂, All-append, ◌≡◌, refl, sym, ap, ◌∙◌, Bool, true, false, ◌||◌, List, [], ◌∷◌, ◌++◌, Option,
  none, some, All, arith, if◌then◌else◌, Bool-cases, inl, inr, Bytes,
}
use atftp.Error.{Result, ok, err}
use atftp.Proto.Options.{
  OptionValue, name, OptionSet, insert, insert_parsed, insert_found, empty, contains, StringMap,
  get, insert_latest, collect, insert_all, from_pairs, parse,
}
use atftp.Proto.Options.Insert.{
  IsWellFormed, insert-IsWellFormed, empty-IsWellFormed, find_named, find_named-put_item,
}
use atftp.Proto.Options.Valid.{parse_sound}
use atftp.Text.{str_eq, str_eq_iff, to_ascii_lowercase, lower}

insert_found-IsWellFormed :
    (n : Bytes) (set : OptionSet) (found : Option Bytes)
    → IsWellFormed set
    → IsWellFormed (insert_found n set found)
unfolding insert_found
insert_found-IsWellFormed n set none h = h
insert_found-IsWellFormed n set (some v) h = go (parse n v) refl
  where
    go : (r : Result OptionValue) → parse n v ≡ r → IsWellFormed (insert_parsed set r)
    go (ok o) e = insert-IsWellFormed set o (parse_sound n v o e).0 h
    go (err x) e = h

insert_all-IsWellFormed :
    (order : List Bytes) (latest : StringMap) (set : OptionSet)
    → IsWellFormed set
    → IsWellFormed (insert_all order latest set)
unfolding insert_all
insert_all-IsWellFormed [] latest set h = h
insert_all-IsWellFormed (n ∷ order) latest set h =
    insert_all-IsWellFormed order latest _ (insert_found-IsWellFormed n set (get n latest) h)

-- Whatever pairs stand on the wire, the set that is read holds no option twice and no value
-- outside its option's range.
pub from_pairs-IsWellFormed : (pairs : List (Bytes × Bytes)) → IsWellFormed (from_pairs pairs)
unfolding from_pairs
from_pairs-IsWellFormed pairs =
    let (order, latest) = collect pairs [] [] in
    insert_all-IsWellFormed order latest empty empty-IsWellFormed

-- The last value given to the name `k`, in any case.
unfoldable pub last_value : Bytes → List (Bytes × Bytes) → Option Bytes → Option Bytes
last_value k [] found = found
last_value k ((n, v) ∷ pairs) found =
    last_value k pairs (if str_eq (to_ascii_lowercase n) k then some v else found)

get-insert_latest :
    (k n v : Bytes) (m : StringMap)
    → get k (insert_latest n v m) ≡ (if str_eq n k then some v else get k m)
unfolding get insert_latest
get-insert_latest k n v [] = refl
get-insert_latest k n v ((x, w) ∷ m) =
    ground (arith, get-insert_latest k n v m, str_eq_iff x n, str_eq_iff x k, str_eq_iff n k)

get-collect :
    (k : Bytes) (pairs : List (Bytes × Bytes)) (order : List Bytes) (latest : StringMap)
    → get k (collect pairs order latest).1 ≡ last_value k pairs (get k latest)
unfolding collect last_value
get-collect k [] order latest = refl
get-collect k ((n, v) ∷ pairs) order latest =
    get-collect k pairs _ _ ∙ ap (last_value k pairs) (get-insert_latest k _ v latest)

abbrev is_some : Option Bytes → Bool
is_some none = false
is_some (some _) = true

contains-append :
    (k n : Bytes) (order : List Bytes)
    → contains k (order ++ n ∷ []) ≡ (contains k order || str_eq n k)
unfolding contains
contains-append k n [] = ground arith
contains-append k n (x ∷ order) = ground (arith, contains-append k n order)

-- A name is in the order exactly when the map has a value for it.
contains-collect :
    (k : Bytes) (pairs : List (Bytes × Bytes)) (order : List Bytes) (latest : StringMap)
    → ((n : Bytes) → contains n order ≡ is_some (get n latest))
    → contains k (collect pairs order latest).0 ≡ is_some (get k (collect pairs order latest).1)
unfolding collect
contains-collect k [] order latest h = h k
contains-collect k ((n, v) ∷ pairs) order latest h = contains-collect k pairs _ _ λ j.
    rw get-insert_latest (
      ground (
        arith,
        contains-append j (to_ascii_lowercase n) order,
        h j,
        h (to_ascii_lowercase n),
        str_eq_iff (to_ascii_lowercase n) j,
      ))

-- The option that a text for the name `k` stands for, if it stands for one.
abbrev pub parsed : Bytes → Option Bytes → Option OptionValue
parsed k none = none
parsed k (some v) = elim (parse k v) [ ok o ↦ some o | err _ ↦ none ]

abbrev or_else : Option OptionValue → Option OptionValue → Option OptionValue
or_else none o = o
or_else (some x) o = some x

abbrev IsLower : Bytes → Type 0
IsLower n = to_ascii_lowercase n ≡ n

module _ (k : Bytes) where
  find_named-insert_found :
      (n : Bytes) (set : OptionSet) (found : Option Bytes)
      → IsLower n
      → find_named k (insert_found n set found).items ≡ (
          if str_eq n k
          then or_else (parsed n found) (find_named k set.items)
          else find_named k set.items)
  unfolding insert_found insert
  find_named-insert_found n set none l = ground arith
  find_named-insert_found n set (some v) l = go (parse n v) refl
    where
      go :
          (r : Result OptionValue)
          → parse n v ≡ r
          → find_named k (insert_parsed set r).items ≡ (
              if str_eq n k
              then or_else (elim r [ ok o ↦ some o | err _ ↦ none ]) (find_named k set.items)
              else find_named k set.items)
      go (ok o) e =
          let same : name o ≡ n = sym (parse_sound n v o e).1 ∙ l in
          rw (← same) (find_named-put_item k o set.items)
      go (err x) e = ground arith

  find_named-insert_all :
      (order : List Bytes) (latest : StringMap) (set : OptionSet)
      → All IsLower order
      → find_named k (insert_all order latest set).items ≡ (
          if contains k order
          then or_else (parsed k (get k latest)) (find_named k set.items)
          else find_named k set.items)
  unfolding insert_all contains
  find_named-insert_all [] latest set h = refl
  find_named-insert_all (n ∷ order) latest set h = ground (
    arith,
    find_named-insert_all order latest (insert_found n set (get n latest)) h.1,
    find_named-insert_found n set (get n latest) h.0,
    str_eq_iff n k,
  )

lower_idem : (c : ℕ) → lower (lower c) ≡ lower c
unfolding lower
lower_idem c = ground arith

to_ascii_lowercase-IsLower : (n : Bytes) → IsLower (to_ascii_lowercase n)
unfolding to_ascii_lowercase
to_ascii_lowercase-IsLower [] = refl
to_ascii_lowercase-IsLower (c ∷ n) =
    ap₂ (λ x xs. x ∷ xs) (lower_idem c) (to_ascii_lowercase-IsLower n)

collect-IsLower :
    (pairs : List (Bytes × Bytes)) (order : List Bytes) (latest : StringMap)
    → All IsLower order
    → All IsLower (collect pairs order latest).0
unfolding collect
collect-IsLower [] order latest h = h
collect-IsLower ((n, v) ∷ pairs) order latest h =
    collect-IsLower pairs _ _ (elim (Bool-cases (contains (to_ascii_lowercase n) order)) [
      | inl old ↦ rw old h
      | inr new ↦ rw new (All-append IsLower order _ h (to_ascii_lowercase-IsLower n, tt))
    ])

-- The set that is read has, for each name in lower case, the option that the last of the name's
-- values stands for, whatever the case of the name on the wire; it has none where that value is
-- missing or malformed, or where the name is no option's.
pub find_named-from_pairs :
    (k : Bytes) (pairs : List (Bytes × Bytes))
    → find_named k (from_pairs pairs).items ≡ parsed k (last_value k pairs none)
unfolding from_pairs find_named get
find_named-from_pairs k pairs = ground (
  arith,
  find_named-insert_all k (collect pairs [] []).0 (collect pairs [] []).1 empty
      (collect-IsLower pairs [] [] tt),
  get-collect k pairs [] [],
  contains-collect k pairs [] [] (unfold contains get in λ n. refl),
)
