-- ===== src/Server/Negotiate.antt =====
-- src/server.rs, `negotiate`: the options that the server accepts.
pub mod Bounds
pub mod Answers
use atftp.Common.{
  ℕ, ◌≤◌, Bool, true, false, List, [], ◌∷◌, Option, none, some, max, ltb, leb, if◌then◌else◌,
}
use atftp.Proto.Options.{
  OptionSet, block_size, timeout, transfer_size, window_size, empty, insert, get_block_size,
  get_timeout, get_transfer_size, get_window_size,
}
use atftp.Proto.{min_block_size}
use atftp.Server.{Config, Negotiated, defaults}

-- `Ord::clamp`, which panics if the bounds are the wrong way round.
unfoldable pub clamp : ℕ → ℕ → ℕ → Option ℕ
clamp lo hi x =
    if ltb hi lo then none else some (if ltb x lo then lo else if ltb hi x then hi else x)

abbrev pub Offer : Type 0
Offer = OptionSet × Negotiated

-- The four blocks of `negotiate`, each on the options and parameters so far; `none` is a panic.
unfoldable pub offer_block_size : Config → Option ℕ → Offer → Option Offer
unfolding clamp insert
offer_block_size cfg none offer = some offer
offer_block_size cfg (some b) (out, neg) = elim (clamp min_block_size cfg.max_block_size b) [
  | none ↦ none
  | some chosen ↦ some (insert out (block_size chosen), record neg { blksize = chosen })
]

unfoldable pub offer_timeout : Option ℕ → Offer → Offer
unfolding insert
offer_timeout none offer = offer
offer_timeout (some t) (out, neg) =
    let chosen = max t 1 in (insert out (timeout chosen), record neg { timeout = chosen })

-- The file's size, or the echo of the client's.
unfoldable pub offer_transfer_size : Option ℕ → Option ℕ → Offer → Offer
unfolding insert
offer_transfer_size none file_size offer = offer
offer_transfer_size (some asked) (some size) (out, neg) = (insert out (transfer_size size), neg)
offer_transfer_size (some asked) none (out, neg) = (insert out (transfer_size asked), neg)

unfoldable pub offer_window_size : Config → Option ℕ → Offer → Offer
unfolding insert
offer_window_size cfg none offer = offer
offer_window_size cfg (some w) (out, neg) =
    if cfg.allow_windowsize
    then (let chosen = max w 1 in
        (insert out (window_size chosen), record neg { windowsize = chosen }))
    else (out, neg)

unfoldable pub negotiate : Config → OptionSet → Option ℕ → Option Offer
unfolding offer_block_size offer_timeout offer_transfer_size offer_window_size get_block_size
    get_timeout get_transfer_size get_window_size
negotiate cfg requested file_size =
    elim (offer_block_size cfg (get_block_size requested) (empty, defaults)) [
      | none ↦ none
      | some offer ↦ some (
          offer_window_size cfg (get_window_size requested) (
            offer_transfer_size (get_transfer_size requested) file_size
              (offer_timeout (get_timeout requested) offer)))
    ]
