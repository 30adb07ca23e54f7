-- ===== src/PathSafe.antt =====
-- src/path_safe.rs: `resolve`. What it uses of `std::path` is that of Unix: a path is its bytes,
-- `/` separates, and there are no prefixes.
pub mod Components
pub mod Confined
use atftp.Common.{
  ℕ, Bool, true, false, ◌&&◌, ◌||◌, List, [], ◌∷◌, ◌++◌, ◌==◌, if◌then◌else◌, Bytes, codes,
}
use atftp.Error.{Result, ok, err, ◌>>=◌, invalid_path}
use atftp.Text.{str_eq}

abbrev pub slash : ℕ
slash = b'/'

pub data Component : Type 0 where
  root_dir cur_dir parent_dir : Component
  normal : Bytes → Component

abbrev pub cons_first : ℕ → List Bytes → List Bytes
cons_first c [] = (c ∷ []) ∷ []
cons_first c (s ∷ ss) = (c ∷ s) ∷ ss

-- The texts between the separators.
unfoldable pub segments : Bytes → List Bytes
segments [] = [] ∷ []
segments (c ∷ s) = if c == slash then [] ∷ segments s else cons_first c (segments s)

-- Empty texts are skipped, and so is `.` where it is not the first text of a relative path.
unfoldable pub component : Bool → Bytes → List Component
unfolding str_eq
component first s =
    if str_eq s []
    then []
    else if str_eq s (codes ".")
    then (if first then cur_dir ∷ [] else [])
    else if str_eq s (codes "..")
    then parent_dir ∷ []
    else normal s ∷ []

unfoldable pub parse_components : Bool → List Bytes → List Component
unfolding component
parse_components first [] = []
parse_components first (s ∷ ss) = component first s ++ parse_components false ss

-- `Path::is_absolute`
unfoldable pub is_absolute : Bytes → Bool
is_absolute [] = false
is_absolute (c ∷ _) = c == slash

-- `Path::components`
unfoldable pub components : Bytes → List Component
unfolding parse_components segments
components [] = []
components (c ∷ s) =
    if c == slash
    then root_dir ∷ parse_components false (segments s)
    else parse_components true (segments (c ∷ s))

unfoldable pub ends_in_slash : Bytes → Bool
ends_in_slash [] = false
ends_in_slash (c ∷ []) = c == slash
ends_in_slash (c ∷ d ∷ s) = ends_in_slash (d ∷ s)

-- `Path::join`: an absolute path replaces the root; else a separator is put where none stands.
unfoldable pub join : Bytes → Bytes → Bytes
unfolding is_absolute ends_in_slash
join root path =
    if is_absolute path || str_eq root []
    then path
    else if ends_in_slash root
    then root ++ path
    else root ++ (slash ∷ path)

unfoldable pub contains_nul : Bytes → Bool
contains_nul [] = false
contains_nul (c ∷ s) = c == 0 || contains_nul s

-- The loop over the components.
unfoldable pub check : Bytes → List Component → Result (Unit {0})
check requested [] = ok tt
check requested (normal _ ∷ comps) = check requested comps
check requested (cur_dir ∷ comps) = check requested comps
check requested (_ ∷ comps) = err (invalid_path requested)

unfoldable pub resolve : Bytes → Bytes → Result Bytes
unfolding str_eq contains_nul is_absolute components check join
resolve root requested =
    if str_eq requested [] || contains_nul requested
    then err (invalid_path requested)
    else if is_absolute requested
    then err (invalid_path requested)
    else check requested (components requested) >>= λ _. ok (join root requested)
