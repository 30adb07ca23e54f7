-- ===== src/Proto/Options/OwnPairs.antt =====
-- src/proto/options.rs, `OptionSet::from_pairs` on the pairs of a well-formed set: it gives the
-- set back, in order.
use atftp.Common.{
  ap₂, ◌≡◌, refl, ap, ◌∙◌, false, List, [], ◌∷◌, ◌++◌, map, Option, some, All, All-zip, arith,
  if◌then◌else◌, Bytes, append_assoc, append-nil,
}
use atftp.Proto.Options.{
  OptionValue, block_size, name, value_string, OptionSet, insert, insert_parsed, insert_found,
  contains, StringMap, get, insert_latest, collect, insert_all, from_pairs, to_pairs,
}
use atftp.Proto.Options.Insert.{IsFresh, IsDistinct, IsWellFormed, put_item-IsFresh, str_eq_comm}
use atftp.Proto.Options.Valid.{IsValid, parse-name}
use atftp.Text.{str_eq, str_eq_refl, to_ascii_lowercase}

abbrev names : List OptionValue → List Bytes
names = map name

lower-name : (o : OptionValue) → to_ascii_lowercase (name o) ≡ name o
unfolding to_ascii_lowercase name
lower-name (block_size v) = refl
lower-name _ = refl

contains-IsFresh :
    (o : OptionValue) (xs : List OptionValue) → IsFresh o xs → contains (name o) (names xs) ≡ false
unfolding contains
contains-IsFresh o [] h = refl
contains-IsFresh o (x ∷ xs) h = ground (arith, contains-IsFresh o xs)

insert_latest-IsFresh :
    (o : OptionValue) (v : Bytes) (xs : List OptionValue)
    → IsFresh o xs
    → insert_latest (name o) v (to_pairs xs) ≡ to_pairs xs ++ (name o, v) ∷ []
unfolding insert_latest
insert_latest-IsFresh o v [] h = refl
insert_latest-IsFresh o v (x ∷ xs) h = ground (arith, insert_latest-IsFresh o v xs)

-- `ys` can follow `xs`: every item of it has a new name.
abbrev Follows : List OptionValue → List OptionValue → Type 0
Follows xs [] = Unit
Follows xs (y ∷ ys) = IsFresh y xs × Follows (xs ++ y ∷ []) ys

to_pairs-append : (xs ys : List OptionValue) → to_pairs (xs ++ ys) ≡ to_pairs xs ++ to_pairs ys
to_pairs-append [] ys = refl
to_pairs-append (x ∷ xs) ys = rw (to_pairs-append xs ys)

names-append : (xs ys : List OptionValue) → names (xs ++ ys) ≡ names xs ++ names ys
names-append [] ys = refl
names-append (x ∷ xs) ys = rw (names-append xs ys)

-- A round of each loop for a fresh option, with what the round calls left shut.
collect-IsFresh :
    (y : OptionValue) (xs : List OptionValue) (pairs : List (Bytes × Bytes))
    → IsFresh y xs
    → collect ((name y, value_string y) ∷ pairs) (names xs) (to_pairs xs)
      ≡ collect pairs (names xs ++ name y ∷ []) (to_pairs xs ++ (name y, value_string y) ∷ [])
collect-IsFresh y xs pairs h = unfold collect in ap₂ (collect pairs) order latest
  where
    order :
        (if contains (to_ascii_lowercase (name y)) (names xs)
          then names xs
          else names xs ++ to_ascii_lowercase (name y) ∷ [])
        ≡ names xs ++ name y ∷ []
    order = rw (lower-name y, contains-IsFresh y xs h)

    latest :
        insert_latest (to_ascii_lowercase (name y)) (value_string y) (to_pairs xs)
        ≡ to_pairs xs ++ (name y, value_string y) ∷ []
    latest = rw (lower-name y) (insert_latest-IsFresh y (value_string y) xs h)

collect-Follows :
    (xs ys : List OptionValue)
    → Follows xs ys
    → collect (to_pairs ys) (names xs) (to_pairs xs) ≡ (names (xs ++ ys), to_pairs (xs ++ ys))
unfolding collect
collect-Follows xs [] h = rw append-nil
collect-Follows xs (y ∷ ys) h =
    collect-IsFresh y xs (to_pairs ys) h.0
    ∙ rw (← names-append xs (y ∷ []), ← to_pairs-append xs (y ∷ []))
        (collect-Follows (xs ++ y ∷ []) ys h.1 ∙ rw append_assoc)

insert_found-IsFresh :
    (m : StringMap) (y : OptionValue) (xs : List OptionValue)
    → IsFresh y xs
    → IsValid y
    → get (name y) m ≡ some (value_string y)
    → insert_found (name y) (record { items = xs }) (get (name y) m)
      ≡ record { items = xs ++ y ∷ [] }
insert_found-IsFresh m y xs h v g =
    rw g (read ∙ unfold insert in λ i. record { items = put_item-IsFresh y xs h i })
  where
    read :
        insert_found (name y) (record { items = xs }) (some (value_string y))
        ≡ insert (record { items = xs }) y
    read = unfold insert_found in ap (insert_parsed (record { items = xs })) (parse-name y v)

-- Where `m` has each option's text, the second loop appends the options.
insert_all-Follows :
    (m : StringMap) (xs ys : List OptionValue)
    → Follows xs ys
    → All IsValid ys
    → All (λ o. get (name o) m ≡ some (value_string o)) ys
    → insert_all (names ys) m (record { items = xs }) ≡ record { items = xs ++ ys }
unfolding insert_all
insert_all-Follows m xs [] h v g = rw append-nil
insert_all-Follows m xs (y ∷ ys) h v g =
    ap (insert_all (names ys) m) (insert_found-IsFresh m y xs h.0 v.0 g.0)
    ∙ insert_all-Follows m (xs ++ y ∷ []) ys h.1 v.1 g.1
    ∙ rw append_assoc

get_behind :
    (o x : OptionValue) (v : Bytes) (m : StringMap) {r : Option Bytes}
    → str_eq (name o) (name x) ≡ false
    → get (name o) m ≡ r
    → get (name o) ((name x, v) ∷ m) ≡ r
unfolding get
get_behind o x v m e g = ground (arith, str_eq_comm (name x) (name o))

get-to_pairs :
    (xs : List OptionValue)
    → IsDistinct xs
    → All (λ o. get (name o) (to_pairs xs) ≡ some (value_string o)) xs
unfolding get
get-to_pairs [] d = tt
get-to_pairs (x ∷ xs) d = (
  rw (str_eq_refl (name x)),
  All-zip {R = λ o. get (name o) (to_pairs (x ∷ xs)) ≡ some (value_string o)}
      (λ o f g. get_behind o x (value_string x) (to_pairs xs) f g) xs d.0 (get-to_pairs xs d.1),
)

IsFresh-append :
    (o : OptionValue) (xs : List OptionValue) (x : OptionValue)
    → IsFresh o xs
    → str_eq (name x) (name o) ≡ false
    → IsFresh o (xs ++ x ∷ [])
IsFresh-append o [] x h e = (e, tt)
IsFresh-append o (y ∷ ys) x h e = (h.0, IsFresh-append o ys x h.1 e)

Follows-IsDistinct :
    (xs ys : List OptionValue) → All (λ y. IsFresh y xs) ys → IsDistinct ys → Follows xs ys
Follows-IsDistinct xs [] h d = tt
Follows-IsDistinct xs (y ∷ ys) h d = (
  h.0,
  Follows-IsDistinct (xs ++ y ∷ []) ys
      (All-zip (λ o f g. IsFresh-append o xs y f (str_eq_comm (name y) (name o) ∙ g)) ys h.1 d.0)
      d.1,
)

All-Unit : (ys : List OptionValue) → All (λ y. IsFresh y []) ys
All-Unit [] = tt
All-Unit (y ∷ ys) = (tt, All-Unit ys)

-- A well-formed set is read back from the pairs that stand for it on the wire, in order.
pub from_pairs-to_pairs :
    (set : OptionSet) → IsWellFormed set → from_pairs (to_pairs set.items) ≡ set
unfolding from_pairs
from_pairs-to_pairs set w =
    let follows = Follows-IsDistinct [] set.items (All-Unit set.items) w.distinct in
    rw (collect-Follows [] set.items follows) (
      insert_all-Follows (to_pairs set.items) [] set.items follows w.valid
        (get-to_pairs set.items w.distinct))
