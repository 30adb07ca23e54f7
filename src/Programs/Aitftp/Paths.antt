-- ===== src/Programs/Aitftp/Paths.antt =====
-- The local file of the client program, where none is given.
use atftp.Common.{
  ℕ, ◌≡◌, ◌⊎◌, inl, inr, refl, sym, ap, ◌∙◌, false, [], ◌∷◌, ◌++◌, ◌==◌, Bytes, Bool-cases,
  append_assoc, append-nil, arith,
}
use atftp.Programs.Aitftp.{contains_byte, behind_last, default_local_for}

contains_byte-append :
    (b : ℕ) (s : Bytes) (c : ℕ)
    → contains_byte b s ≡ false
    → c == b ≡ false
    → contains_byte b (s ++ c ∷ []) ≡ false
contains_byte-append b [] c h k = ground arith
contains_byte-append b (d ∷ s) c h k = ground (arith, contains_byte-append b s c)

-- A text behind the last `b` of another.
abbrev pub IsBehindLast : ℕ → Bytes → Bytes → Type 0
IsBehindLast b text part =
    (contains_byte b part ≡ false)
    × ((front : Bytes) × (text ≡ front ++ part)
        × ((front ≡ []) ⊎ ((before : Bytes) × (front ≡ before ++ b ∷ []))))

behind_last_lem :
    (b : ℕ) (text front mid best s : Bytes)
    → text ≡ front ++ best
    → (front ≡ []) ⊎ ((before : Bytes) × (front ≡ before ++ b ∷ []))
    → best ≡ mid ++ s
    → contains_byte b mid ≡ false
    → IsBehindLast b text (behind_last b best s)
behind_last_lem b text front mid best [] is at_ split none_ =
    (rw (split ∙ append-nil mid) none_, (front, is, at_))
behind_last_lem b text front mid best (c ∷ s) is at_ split none_ = elim (Bool-cases (c == b)) [
  | inl here ↦
      let c_is : c ≡ b = ground arith in
      rw here (
        behind_last_lem b text (front ++ (mid ++ c ∷ [])) [] s s
          (is
            ∙ ap (λ (t : Bytes). front ++ t) (split ∙ sym (append_assoc mid (c ∷ []) s))
            ∙ sym (append_assoc front (mid ++ (c ∷ [])) s))
          (inr (
            front ++ mid,
            ap (λ (x : ℕ). front ++ (mid ++ x ∷ [])) c_is ∙ sym (append_assoc front mid (b ∷ [])),
          ))
          refl refl)
  | inr other ↦ rw other (
      behind_last_lem b text front (mid ++ c ∷ []) best s is at_
        (split ∙ sym (append_assoc mid (c ∷ []) s)) (contains_byte-append b mid c none_ other))
]

-- The local name of a transfer, where none is given, has no '/' in it: it is what stands behind the
-- last '/' of the remote name, all of it where there is none.
pub default_local_for-IsBehindLast :
    (remote : Bytes) → IsBehindLast 47 remote (default_local_for remote)
unfolding default_local_for
default_local_for-IsBehindLast remote =
    behind_last_lem 47 remote [] [] remote remote refl (inl refl) refl refl
