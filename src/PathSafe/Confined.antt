-- ===== src/PathSafe/Confined.antt =====
-- src/path_safe.rs: which requests `resolve` accepts, and where the accepted paths lead.
use atftp.Common.{
  ◌≡◌, ◌≢◌, ◌↔◌, ◌⊎◌, refl, ap, ◌∙◌, Bool, true, false, ◌||◌, List, [], ◌∷◌, ◌++◌, map, All, arith,
  if◌then◌else◌, Bool-cases, inl, inr, Bytes, codes,
}
use atftp.Error.{ok, err, ◌>>=◌, invalid_path}
use atftp.PathSafe.{
  Component, normal, segments, component, parse_components, is_absolute, components, join,
  contains_nul, check, resolve,
}
use atftp.PathSafe.Components.{components-join}
use atftp.Text.{str_eq, str_eq_iff}

abbrev pub HasNoNul : Bytes → Type 0
HasNoNul = All (λ c. c ≢ 0)

abbrev pub IsUp : Bytes → Type 0
IsUp s = s ≡ codes ".."

-- A request that names a place below the root: not empty, no NUL, relative, and no text between
-- two separators is "..".
pub record IsSafe (requested : Bytes) : Type 0 where
  pub not_empty : requested ≢ []
  pub no_nul : HasNoNul requested
  pub relative : is_absolute requested ≡ false
  pub no_up : All (λ s. ¬ IsUp s) (segments requested)

contains_nul_iff : (s : Bytes) → (contains_nul s ≡ false) ↔ HasNoNul s
unfolding contains_nul
contains_nul_iff [] = ((λ _. tt), (λ _. refl))
contains_nul_iff (c ∷ s) = ground (arith, contains_nul_iff s)

check-component :
    (requested : Bytes) (first : Bool) (s : Bytes) (rest : List Component)
    → check requested (component first s ++ rest)
      ≡ (if str_eq s (codes "..") then err (invalid_path requested) else check requested rest)
unfolding check component
check-component requested first s rest =
    ground (arith, str_eq_iff s [], str_eq_iff s (codes "."), str_eq_iff s (codes ".."))

has_up : List Bytes → Bool
has_up [] = false
has_up (s ∷ ss) = str_eq s (codes "..") || has_up ss

has_up_iff : (ss : List Bytes) → (has_up ss ≡ false) ↔ All (λ s. ¬ IsUp s) ss
unfolding has_up
has_up_iff [] = ((λ _. tt), (λ _. refl))
has_up_iff (s ∷ ss) = ground (arith, has_up_iff ss, str_eq_iff s (codes ".."))

parse_components_step :
    (first : Bool) (s : Bytes) (ss : List Bytes)
    → parse_components first (s ∷ ss) ≡ component first s ++ parse_components false ss
parse_components_step first s ss = unfold parse_components in refl

check-parse_components :
    (requested : Bytes) (first : Bool) (ss : List Bytes)
    → check requested (parse_components first ss)
      ≡ (if has_up ss then err (invalid_path requested) else ok tt)
unfolding has_up
check-parse_components requested first [] = unfold parse_components check in refl
check-parse_components requested first (s ∷ ss) = ground (
  arith,
  parse_components_step first s ss,
  check-component requested first s (parse_components false ss),
  check-parse_components requested false ss,
)

components_relative :
    (s : Bytes) → s ≢ [] → is_absolute s ≡ false → components s ≡ parse_components true (segments s)
components_relative [] h k = absurd (h refl)
components_relative (c ∷ s) h k = unfold components is_absolute in rw k

abbrev is_refused : Bytes → Bool
is_refused s = str_eq s [] || contains_nul s || is_absolute s || has_up (segments s)

resolve_form :
    (root requested : Bytes)
    → resolve root requested ≡ (
        if str_eq requested [] || contains_nul requested
        then err (invalid_path requested)
        else if is_absolute requested
        then err (invalid_path requested)
        else check requested (components requested) >>= λ _. ok (join root requested))
resolve_form root requested = unfold resolve in refl

-- `resolve` as a choice on the four tests.
resolve_tests :
    (root requested : Bytes)
    → resolve root requested
      ≡ (if is_refused requested then err (invalid_path requested) else ok (join root requested))
resolve_tests root [] = unfold resolve in refl
resolve_tests root (c ∷ s) = ground (
  arith,
  resolve_form root (c ∷ s),
  components_relative (c ∷ s) (λ e. cc),
  check-parse_components (c ∷ s) true (segments (c ∷ s)),
)

is_refused_iff : (s : Bytes) → (is_refused s ≡ false) ↔ IsSafe s
is_refused_iff s = ground (arith, str_eq_iff s [], contains_nul_iff s, has_up_iff (segments s))

-- A request is accepted exactly when it is safe, and then the path is the request joined to the
-- root; any other is refused as an invalid path.
pub resolve_cases :
    (root requested : Bytes)
    → (IsSafe requested × (resolve root requested ≡ ok (join root requested)))
      ⊎ ((¬ IsSafe requested) × (resolve root requested ≡ err (invalid_path requested)))
resolve_cases root requested = elim (Bool-cases (is_refused requested)) [
  | inl refused ↦ inr (
    (λ safe. ground (arith, (is_refused_iff requested).1 safe)),
    resolve_tests root requested ∙ rw refused,
  )
  | inr passed ↦ inl ((is_refused_iff requested).0 passed, resolve_tests root requested ∙ rw passed)
]

abbrev pub IsName : Bytes → Type 0
IsName s = (s ≢ []) × (s ≢ codes ".") × (s ≢ codes "..")

component-IsName :
    (s : Bytes)
    → ¬ IsUp s
    → (component false s ≡ []) ⊎ ((component false s ≡ normal s ∷ []) × IsName s)
unfolding component
component-IsName s h =
    ground (arith, str_eq_iff s [], str_eq_iff s (codes "."), str_eq_iff s (codes ".."))

names-inner :
    (ss : List Bytes)
    → All (λ s. ¬ IsUp s) ss
    → (names : List Bytes) × (parse_components false ss ≡ map normal names) × All IsName names
names-inner [] h = ([], unfold parse_components in refl, tt)
names-inner (s ∷ ss) h =
    let (names, e, plain) = names-inner ss h.1 in
    elim (component-IsName s h.0) [
      | inl skipped ↦ (names, parse_components_step false s ss ∙ rw skipped e, plain)
      | inr (kept, is_name) ↦ (
        s ∷ names,
        parse_components_step false s ss ∙ rw kept (ap (λ (cs : List Component). normal s ∷ cs) e),
        (is_name, plain),
      )
    ]

-- An accepted path stays below the root: its components are those of the root, followed by plain
-- names, none of which is "." or "..".
pub resolve_confined :
    (root requested path : Bytes)
    → root ≢ []
    → resolve root requested ≡ ok path
    → (names : List Bytes) × (components path ≡ components root ++ map normal names)
      × All IsName names
resolve_confined root requested path h e = elim (resolve_cases root requested) [
  | inl (safe, accepted) ↦
      let same : path ≡ join root requested = cc in
      let (names, below, plain) = names-inner (segments requested) safe.no_up in
      (
        names,
        ap components same
            ∙ components-join root requested h safe.relative
            ∙ ap (λ (cs : List Component). components root ++ cs) below,
        plain,
      )
  | inr (unsafe, refused) ↦ cc
]
