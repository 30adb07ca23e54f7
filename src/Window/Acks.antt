-- ===== src/Window/Acks.antt =====
-- src/server.rs and src/client.rs, `consume_ack`: what an acknowledgement takes off the window.
use atftp.Common.{
  ◌↔◌, ◌&&◌, Bool-cases, inl, inr, ℕ, suc, ◌<◌, ◌≡◌, ◌≢◌, refl, ◌∙◌, Bool, true, false, ◌||◌, List,
  [], ◌∷◌, drop, arith, ltb, ◌==◌, if◌then◌else◌, Bytes,
}
use atftp.Window.{
  u16_mod, wrapping_add, wrapping_sub, Frame, u16_le_in_window, pop_acked, client_pop_acked,
}
use atftp.Window.Runs.{IsRun}

abbrev pub not_empty : List Frame → Bool
not_empty [] = false
not_empty (_ ∷ _) = true

pop_acked_here :
    (ack windowsize base : ℕ) (d : Bytes) (q : List Frame) (advanced : Bool)
    → (base == ack) ≡ true
    → base < u16_mod
    → 0 < windowsize
    → pop_acked ack windowsize ((base, d) ∷ q) advanced ≡ (
        if ltb (wrapping_sub ack base) windowsize
        then (drop (wrapping_sub ack base) q, advanced || true)
        else ((base, d) ∷ q, advanced))
unfolding pop_acked
pop_acked_here ack w base d q advanced e hb hw =
    let zero_apart : wrapping_sub ack base ≡ 0 = ground arith in rw zero_apart (ground arith)

sub_step :
    (ack base : ℕ)
    → ack < u16_mod
    → base < u16_mod
    → base ≢ ack
    → wrapping_sub ack base ≡ suc (wrapping_sub ack (wrapping_add base 1))
unfolding wrapping_sub wrapping_add
sub_step ack base ha hb h = omega arith

in_window :
    (ack windowsize base k : ℕ)
    → wrapping_sub ack base ≡ suc k
    → u16_le_in_window base ack windowsize ≡ ltb (suc k) windowsize
in_window ack w base k e = first ∙ rw e (ground arith)
  where
    first :
        u16_le_in_window base ack w
        ≡ (ltb 0 (wrapping_sub ack base) && ltb (wrapping_sub ack base) w)
    first = unfold u16_le_in_window in refl

pop_acked_step :
    (ack windowsize base : ℕ) (d : Bytes) (q : List Frame) (advanced : Bool)
    → pop_acked ack windowsize ((base, d) ∷ q) advanced ≡ (
        if base == ack
        then (q, true)
        else if u16_le_in_window base ack windowsize
        then pop_acked ack windowsize q true
        else ((base, d) ∷ q, advanced))
pop_acked_step ack w base d q advanced = unfold pop_acked in refl

pop_acked_further :
    (ack windowsize base : ℕ) (d : Bytes) (q : List Frame) (advanced : Bool)
    → (base == ack) ≡ false
    → ack < u16_mod
    → base < u16_mod
    → let next = wrapping_sub ack (wrapping_add base 1) in
      pop_acked ack windowsize q true
        ≡ (if ltb next windowsize then (drop (suc next) q, true) else (q, true))
      → pop_acked ack windowsize ((base, d) ∷ q) advanced ≡ (
          if ltb (wrapping_sub ack base) windowsize
          then (drop (wrapping_sub ack base) q, advanced || true)
          else ((base, d) ∷ q, advanced))
pop_acked_further ack w base d q advanced e ha hb rest =
    let k = wrapping_sub ack (wrapping_add base 1) in
    let apart : base ≢ ack = λ same. ground arith in
    let step = sub_step ack base ha hb apart in
    rw step
      (ground (arith, pop_acked_step ack w base d q advanced, in_window ack w base k step, rest))

-- On a run of blocks the loop takes off the blocks up to the acknowledged one, if its distance
-- from the first is below the window size, and nothing else.
pub pop_acked_lem :
    (ack windowsize base : ℕ) (q : List Frame) (advanced : Bool)
    → ack < u16_mod
    → base < u16_mod
    → 0 < windowsize
    → IsRun base q
    → pop_acked ack windowsize q advanced ≡ (
        if ltb (wrapping_sub ack base) windowsize
        then (drop (suc (wrapping_sub ack base)) q, advanced || not_empty q)
        else (q, advanced))
pop_acked_lem ack w base [] advanced ha hb hw r = unfold pop_acked in ground arith
pop_acked_lem ack w base ((bn, d) ∷ q) advanced ha hb hw r =
    rw r.0 (elim (Bool-cases (base == ack)) [
      | inl same ↦ pop_acked_here ack w base d q advanced same hb hw
      | inr differs ↦
          let next = wrapping_add base 1 in
          let rest =
            pop_acked_lem ack w next q true ha (unfold wrapping_add in omega arith) hw r.1 in
          pop_acked_further ack w base d q advanced differs ha hb rest
    ])

-- The loop of the client's `consume_ack` takes the same blocks off as the loop of the server's, for any
-- acknowledgement, window size and blocks in flight.
pub client_pop_acked_lem :
    (ack windowsize : ℕ) (q : List Frame) (advanced : Bool)
    → client_pop_acked ack windowsize q advanced ≡ pop_acked ack windowsize q advanced
unfolding client_pop_acked pop_acked
client_pop_acked_lem ack w [] advanced = refl
client_pop_acked_lem ack w ((bn, d) ∷ q) advanced =
    ground (arith, client_pop_acked_lem ack w q true)

-- `bn` is in the window of `ack` exactly when `ack` is 1 to `windowsize - 1` blocks ahead of it,
-- counted modulo 2 ^ 16. The acknowledged block itself is not.
pub u16_le_in_window_iff :
    (bn ack windowsize : ℕ)
    → bn < u16_mod
    → ack < u16_mod
    → windowsize < u16_mod
    → (u16_le_in_window bn ack windowsize ≡ true)
      ↔ ((d : ℕ) × (0 < d) × (d < windowsize) × (ack ≡ wrapping_add bn d))
unfolding u16_le_in_window wrapping_add
u16_le_in_window_iff bn ack w hb ha hw = (
  (λ h. (wrapping_sub ack bn, ground arith, ground arith, ground arith)),
  (λ (d, p, q, e). ground arith),
)
