-- ===== src/Window/Runs.antt =====
-- Frames with consecutive block numbers, modulo 2 ^ 16.
use atftp.Common.{ℕ, ◌+◌, ◌%◌, ◌<◌, ◌≡◌, refl, ◌∙◌, List, [], ◌∷◌, ◌++◌, length, arith, Bytes}
use atftp.Window.{u16_mod, wrapping_add, Frame}

-- The frames are numbered from `base` on.
abbrev pub IsRun : ℕ → List Frame → Type 0
IsRun base [] = Unit
IsRun base ((bn, payload) ∷ rest) = (bn ≡ base) × IsRun (wrapping_add base 1) rest

-- The number behind a run.
abbrev pub behind : ℕ → List Frame → ℕ
behind base [] = base
behind base (f ∷ rest) = behind (wrapping_add base 1) rest

pub IsRun-append :
    (base : ℕ) (q : List Frame) (payload : Bytes)
    → IsRun base q
    → IsRun base (q ++ (behind base q, payload) ∷ [])
IsRun-append base [] payload h = (refl, tt)
IsRun-append base (f ∷ q) payload h = (h.0, IsRun-append (wrapping_add base 1) q payload h.1)

pub behind-append :
    (base : ℕ) (q : List Frame) (f : Frame)
    → behind base (q ++ f ∷ []) ≡ wrapping_add (behind base q) 1
behind-append base [] f = refl
behind-append base (g ∷ q) f = behind-append (wrapping_add base 1) q f

pub behind_lem :
    (base : ℕ) (q : List Frame) → base < u16_mod → behind base q ≡ (base + length q) % u16_mod
behind_lem base [] h = omega arith
behind_lem base (f ∷ q) h =
    behind_lem (wrapping_add base 1) q (unfold wrapping_add in omega arith)
    ∙ unfold wrapping_add in omega arith
