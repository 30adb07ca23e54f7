-- ===== src/PathSafe/Components.antt =====
-- src/path_safe.rs: the components of a joined path.
use atftp.Common.{
  ℕ, ◌≡◌, ◌≢◌, refl, sym, ap, ◌∙◌, Bool, true, false, List, [], ◌∷◌, ◌++◌, arith, ◌==◌,
  if◌then◌else◌, Bool-cases, inl, inr, Bytes, append_assoc, append-nil,
}
use atftp.PathSafe.{
  slash, Component, root_dir, cons_first, segments, component, parse_components, is_absolute,
  components, ends_in_slash, join,
}
use atftp.Text.{str_eq, str_eq_iff}

pub segments-ne-nil : (s : Bytes) → segments s ≢ []
unfolding segments
segments-ne-nil [] = λ e. cc
segments-ne-nil (c ∷ s) = grind (arith, segments-ne-nil s)

cons_first-append :
    (c : ℕ) (xs ys : List Bytes) → xs ≢ [] → cons_first c (xs ++ ys) ≡ cons_first c xs ++ ys
cons_first-append c [] ys h = absurd (h refl)
cons_first-append c (x ∷ xs) ys h = refl

-- A separator cuts.
pub segments-append : (a b : Bytes) → segments (a ++ (slash ∷ b)) ≡ segments a ++ segments b
unfolding segments
segments-append [] b = refl
segments-append (c ∷ a) b =
    ground (
      arith,
      segments-append a b,
      cons_first-append c (segments a) (segments b) (segments-ne-nil a),
    )

pub parse_components-append :
    (first : Bool) (xs ys : List Bytes)
    → xs ≢ []
    → parse_components first (xs ++ ys) ≡ parse_components first xs ++ parse_components false ys
unfolding parse_components
parse_components-append first [] ys h = absurd (h refl)
parse_components-append first (x ∷ []) ys h = rw append-nil
parse_components-append first (x ∷ y ∷ xs) ys h =
    ap (λ (cs : List Component). component first x ++ cs)
      (parse_components-append false (y ∷ xs) ys (λ e. cc))
    ∙ sym (append_assoc (component first x) _ _)

-- The components of a relative path without the leading `.`.
abbrev pub inner : Bytes → List Component
inner s = parse_components false (segments s)

components_form :
    (c : ℕ) (s : Bytes)
    → components (c ∷ s)
      ≡ (if c == slash then root_dir ∷ inner s else parse_components true (segments (c ∷ s)))
components_form c s = unfold components in refl

components-append : (a b : Bytes) → a ≢ [] → components (a ++ (slash ∷ b)) ≡ components a ++ inner b
components-append [] b h = absurd (h refl)
components-append (c ∷ a) b h = ground (
  arith,
  components_form c a,
  components_form c (a ++ (slash ∷ b)),
  segments-append a b,
  segments-append (c ∷ a) b,
  parse_components-append false (segments a) (segments b) (segments-ne-nil a),
  parse_components-append true (segments (c ∷ a)) (segments b) (segments-ne-nil (c ∷ a)),
)

last_slash : (s : Bytes) → ends_in_slash s ≡ true → (r : Bytes) × (s ≡ r ++ slash ∷ [])
last_slash [] h = unfold ends_in_slash in cc
last_slash (c ∷ []) h = ([], unfold ends_in_slash in ground arith)
last_slash (c ∷ d ∷ s) h =
    let (r, e) = last_slash (d ∷ s) (unfold ends_in_slash in h) in
    (c ∷ r, ap (λ (x : Bytes). c ∷ x) e)

inner-nil : inner [] ≡ []
inner-nil = unfold parse_components segments component str_eq in refl

components_behind_slash :
    (r path : Bytes) → components (r ++ (slash ∷ path)) ≡ components (r ++ slash ∷ []) ++ inner path
components_behind_slash [] path =
    components_form slash path
    ∙ ap (λ (cs : List Component). cs ++ inner path)
        (sym (components_form slash [] ∙ ap (λ (cs : List Component). root_dir ∷ cs) inner-nil))
components_behind_slash (c ∷ r) path =
    components-append (c ∷ r) path (λ e. cc)
    ∙ ap (λ (cs : List Component). cs ++ inner path)
        (sym (components-append (c ∷ r) [] (λ e. cc) ∙ rw inner-nil (rw append-nil)))

join_bare :
    (root path : Bytes)
    → root ≢ []
    → is_absolute path ≡ false
    → ends_in_slash root ≡ false
    → join root path ≡ root ++ (slash ∷ path)
unfolding join
join_bare root path h k e = ground (arith, str_eq_iff root [])

join-ends_in_slash :
    (root path : Bytes)
    → root ≢ []
    → is_absolute path ≡ false
    → ends_in_slash root ≡ true
    → join root path ≡ root ++ path
unfolding join
join-ends_in_slash root path h k e = ground (arith, str_eq_iff root [])

-- Below a root, the components are those of the root and then those of the relative path.
pub components-join :
    (root path : Bytes)
    → root ≢ []
    → is_absolute path ≡ false
    → components (join root path) ≡ components root ++ inner path
components-join root path h k = elim (Bool-cases (ends_in_slash root)) [
  | inl ends ↦
      let (r, e) = last_slash root ends in
      rw (join-ends_in_slash root path h k ends) (
        ap (λ (x : Bytes). components (x ++ path)) e
        ∙ ap components (append_assoc r (slash ∷ []) path)
        ∙ components_behind_slash r path
        ∙ ap (λ (x : Bytes). components x ++ inner path) (sym e))
  | inr bare ↦ rw (join_bare root path h k bare) (components-append root path h)
]
