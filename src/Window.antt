-- ===== src/Window.antt =====
-- The windows of src/server.rs and src/client.rs: arithmetic on `u16` block numbers, and the
-- acknowledgement of the blocks in flight. A frame is a block number and its data.
pub mod Runs
pub mod Acks
use atftp.Common.{
  ℕ, ◌+◌, ◌-◌, ◌%◌, ◌^◌, Bool, true, false, ◌&&◌, List, [], ◌∷◌, ltb, ◌==◌, if◌then◌else◌, Bytes,
}

abbrev pub u16_mod : ℕ
u16_mod = 2 ^ 16

unfoldable pub wrapping_add : ℕ → ℕ → ℕ
wrapping_add a b = (a + b) % u16_mod

unfoldable pub wrapping_sub : ℕ → ℕ → ℕ
wrapping_sub a b = (a + u16_mod - b) % u16_mod

abbrev pub Frame : Type 0
Frame = ℕ × Bytes

-- `u16_le_in_window` of the server; the client has it written out.
unfoldable pub u16_le_in_window : ℕ → ℕ → ℕ → Bool
unfolding wrapping_sub
u16_le_in_window bn ack windowsize =
    let diff = wrapping_sub ack bn in ltb 0 diff && ltb diff windowsize

-- The loop of `RrqSender::consume_ack`, over the blocks in flight and `advanced`.
unfoldable pub pop_acked : ℕ → ℕ → List Frame → Bool → List Frame × Bool
unfolding u16_le_in_window
pop_acked ack windowsize [] advanced = ([], advanced)
pop_acked ack windowsize ((bn, payload) ∷ rest) advanced =
    if bn == ack
    then (rest, true)
    else if u16_le_in_window bn ack windowsize
    then pop_acked ack windowsize rest true
    else ((bn, payload) ∷ rest, advanced)

-- The loop of the client's `consume_ack`.
unfoldable pub client_pop_acked : ℕ → ℕ → List Frame → Bool → List Frame × Bool
unfolding wrapping_sub
client_pop_acked ack windowsize [] advanced = ([], advanced)
client_pop_acked ack windowsize ((bn, payload) ∷ rest) advanced =
    let diff = wrapping_sub ack bn in
    if bn == ack
    then (rest, true)
    else if ltb 0 diff && ltb diff windowsize
    then client_pop_acked ack windowsize rest true
    else ((bn, payload) ∷ rest, advanced)

-- `consume_ack` of the client.
unfoldable pub client_consume_ack : List Frame → ℕ → ℕ → List Frame × Bool
unfolding client_pop_acked
client_consume_ack in_flight ack windowsize = client_pop_acked ack windowsize in_flight false
