-- ===== src/Proto/Packet/Loop.antt =====
-- src/proto/packet.rs, the loops of `decode_request` and `decode_oack`: the fuel is enough.
use atftp.Common.{ℕ, zero, suc, ◌≤◌, ◌≡◌, ◌≢◌, refl, ap, ◌∙◌, List, [], ◌∷◌, length, arith, Bytes}
use atftp.Error.{Result, ok, err, ◌>>=◌}
use atftp.Proto.Packet.{take_cstr, read_pairs}
use atftp.Proto.Packet.Plain.{take_cstr-lt}

abbrev Pairs : Type 0
Pairs = List (Bytes × Bytes)

-- The body of the loop over what the loop does next.
abbrev pub round : (Bytes → Result Pairs) → Bytes → Result Pairs
round next cursor = do
  (n, behind_name) ← take_cstr cursor
  (v, rest) ← take_cstr behind_name
  pairs ← next rest
  ok ((n, v) ∷ pairs)

-- A round depends on the rest of the loop at shorter cursors only.
round_cong :
    (f g : Bytes → Result Pairs) (k : ℕ) (cursor : Bytes)
    → length cursor ≤ suc k
    → ((rest : Bytes) → length rest ≤ k → f rest ≡ g rest)
    → round f cursor ≡ round g cursor
round_cong f g k cursor h same = go (take_cstr cursor) refl
  where
    second :
        (n behind : Bytes)
        → length behind ≤ k
        → (r : Result (Bytes × Bytes)) → take_cstr behind ≡ r
        → (r >>= λ (v, rest). f rest >>= λ pairs. ok ((n, v) ∷ pairs))
          ≡ (r >>= λ (v, rest). g rest >>= λ pairs. ok ((n, v) ∷ pairs))
    second n behind b (err e) eq = refl
    second n behind b (ok (v, rest)) eq =
        ap (λ (m : Result Pairs). m >>= λ pairs. ok ((n, v) ∷ pairs))
          (same rest (omega (arith, take_cstr-lt behind v rest eq)))

    go :
        (r : Result (Bytes × Bytes))
        → take_cstr cursor ≡ r
        → (r >>= λ (n, behind).
            take_cstr behind >>= λ (v, rest). f rest >>= λ pairs. ok ((n, v) ∷ pairs))
          ≡ (r >>= λ (n, behind).
              take_cstr behind >>= λ (v, rest). g rest >>= λ pairs. ok ((n, v) ∷ pairs))
    go (err e) eq = refl
    go (ok (n, behind)) eq =
        second n behind (omega (arith, take_cstr-lt cursor n behind eq)) (take_cstr behind) refl

pub read_pairs_fuel :
    (f g : ℕ) (cursor : Bytes)
    → length cursor ≤ f
    → length cursor ≤ g
    → read_pairs f cursor ≡ read_pairs g cursor
unfolding read_pairs
read_pairs_fuel zero zero cursor h k = refl
read_pairs_fuel zero (suc g) [] h k = refl
read_pairs_fuel zero (suc g) (b ∷ s) h k = absurd (omega arith)
read_pairs_fuel (suc f) zero [] h k = refl
read_pairs_fuel (suc f) zero (b ∷ s) h k = absurd (omega arith)
read_pairs_fuel (suc f) (suc g) [] h k = refl
read_pairs_fuel (suc f) (suc g) (b ∷ s) h k =
    round_cong (read_pairs f) (read_pairs g) (length s) (b ∷ s) (omega arith)
      (λ rest shorter. read_pairs_fuel f g rest (omega arith) (omega arith))

-- The model's loop on the fuel it is given is the loop of the source: it ends at the empty cursor,
-- and at any other it makes a round and goes on at the rest with the fuel of the rest.
pub read_pairs_loop :
    (cursor : Bytes)
    → cursor ≢ []
    → read_pairs (length cursor) cursor ≡ round (λ rest. read_pairs (length rest) rest) cursor
read_pairs_loop [] h = absurd (h refl)
read_pairs_loop (b ∷ s) h = first ∙ next
  where
    first : read_pairs (length (b ∷ s)) (b ∷ s) ≡ round (read_pairs (length s)) (b ∷ s)
    first = unfold read_pairs in refl

    next :
        round (read_pairs (length s)) (b ∷ s)
        ≡ round (λ rest. read_pairs (length rest) rest) (b ∷ s)
    next =
        round_cong (read_pairs (length s)) (λ rest. read_pairs (length rest) rest) (length s)
          (b ∷ s) (omega arith)
          (λ rest shorter. read_pairs_fuel (length s) (length rest) rest shorter (omega arith))
