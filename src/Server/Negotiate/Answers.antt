-- ===== src/Server/Negotiate/Answers.antt =====
-- src/server.rs, `negotiate`: how the OACK answers the request, and that it is well formed.
use atftp.Common.{
  ℕ, ◌≤◌, ◌≡◌, refl, sym, ◌∙◌, List, [], ◌∷◌, Option, none, some, max, min, if◌then◌else◌, arith,
  All,
}
use atftp.Proto.Options.{
  OptionValue, OptionSet, block_size, timeout, transfer_size, window_size, get_block_size,
  get_timeout, get_transfer_size, get_window_size, find_map, as_block_size, as_timeout,
  as_transfer_size, as_window_size, u16_max, u8_max, name,
}
use atftp.Proto.Options.Insert.{IsWellFormed, IsDistinct}
use atftp.Proto.Options.Valid.{IsValid}
use atftp.Proto.{min_block_size, max_block_size}
use atftp.Server.Negotiate.{
  offer_block_size, offer_timeout, offer_transfer_size, offer_window_size, negotiate,
}
use atftp.Server.{Config, Negotiated}
use atftp.Server.Negotiate.Bounds.{agree, told, negotiate-agree}

-- What the protocol asks of an answer to the request, kind by kind: nothing is offered that was
-- not asked for, and a value is the clamped one.
pub record Answers (cfg : Config) (requested oack : OptionSet) (size : Option ℕ) : Type 0 where
  pub block_size : get_block_size oack ≡ elim (get_block_size requested) [
    | none ↦ none
    | some b ↦ some (max min_block_size (min b cfg.max_block_size))
  ]
  pub timeout :
      get_timeout oack ≡ elim (get_timeout requested) [ none ↦ none | some t ↦ some (max t 1) ]
  pub transfer_size :
      get_transfer_size oack
      ≡ elim (get_transfer_size requested) [ none ↦ none | some s ↦ some (told s size) ]
  pub window_size : get_window_size oack ≡ (
      if cfg.allow_windowsize
      then elim (get_window_size requested) [ none ↦ none | some w ↦ some (max w 1) ]
      else none)

record Answered (cfg : Config) (b t s w size : Option ℕ) (oack : OptionSet) : Type 0 where
  block_size :
      get_block_size oack
      ≡ elim b [ none ↦ none | some b ↦ some (max min_block_size (min b cfg.max_block_size)) ]
  timeout : get_timeout oack ≡ elim t [ none ↦ none | some t ↦ some (max t 1) ]
  transfer_size : get_transfer_size oack ≡ elim s [ none ↦ none | some s ↦ some (told s size) ]
  window_size :
      get_window_size oack
      ≡ (if cfg.allow_windowsize then elim w [ none ↦ none | some w ↦ some (max w 1) ] else none)

agree-Answered :
    (cfg : Config) (b t s w size : Option ℕ) (oack : OptionSet) (neg : Negotiated)
    → agree cfg b t s w size ≡ some (oack, neg)
    → Answered cfg b t s w size oack
unfolding offer_block_size offer_timeout offer_transfer_size offer_window_size get_block_size
    get_timeout get_transfer_size get_window_size name
agree-Answered cfg none none none none none oack neg e = ground arith
agree-Answered cfg _ _ _ _ _ oack neg e = ground arith

-- The OACK answers each requested option, with the block size clamped between 8 and the configured
-- maximum, the file's size for a read, and no window size where it is not allowed; it names no
-- option that was not requested.
pub negotiate-Answers :
    (cfg : Config) (requested oack : OptionSet) (size : Option ℕ) (neg : Negotiated)
    → negotiate cfg requested size ≡ some (oack, neg)
    → Answers cfg requested oack size
negotiate-Answers cfg r oack size neg e =
    let a =
      agree-Answered cfg (get_block_size r) (get_timeout r) (get_transfer_size r)
        (get_window_size r) size oack neg (sym (negotiate-agree cfg r size) ∙ e) in
    record {
      block_size = a.block_size;
      timeout = a.timeout;
      transfer_size = a.transfer_size;
      window_size = a.window_size;
    }

-- What an accessor finds among valid options is valid.
abbrev pub Finds : List OptionValue → (OptionValue → Option ℕ) → (ℕ → OptionValue) → Type 0
Finds xs f kind = (v : ℕ) → find_map f xs ≡ some v → IsValid (kind v)

pub valid_block_size : (xs : List OptionValue) → All IsValid xs → Finds xs as_block_size block_size
unfolding find_map
valid_block_size [] h v e = cc
valid_block_size (block_size b ∷ xs) h v e = ground arith
valid_block_size (_ ∷ xs) h v e = valid_block_size xs h.1 v e

valid_timeout : (xs : List OptionValue) → All IsValid xs → Finds xs as_timeout timeout
unfolding find_map
valid_timeout [] h v e = cc
valid_timeout (timeout b ∷ xs) h v e = ground arith
valid_timeout (_ ∷ xs) h v e = valid_timeout xs h.1 v e

valid_transfer_size :
    (xs : List OptionValue) → All IsValid xs → Finds xs as_transfer_size transfer_size
unfolding find_map
valid_transfer_size [] h v e = cc
valid_transfer_size (transfer_size b ∷ xs) h v e = ground arith
valid_transfer_size (_ ∷ xs) h v e = valid_transfer_size xs h.1 v e

pub valid_window_size :
    (xs : List OptionValue) → All IsValid xs → Finds xs as_window_size window_size
unfolding find_map
valid_window_size [] h v e = cc
valid_window_size (window_size b ∷ xs) h v e = ground arith
valid_window_size (_ ∷ xs) h v e = valid_window_size xs h.1 v e

abbrev pub Fits : (ℕ → OptionValue) → Option ℕ → Type 0
Fits kind none = Unit
Fits kind (some v) = IsValid (kind v)

-- The OACK and the parameters of a transfer are within the bounds of the protocol.
pub record IsAgreed (oack : OptionSet) (neg : Negotiated) : Type 0 where
  pub valid : All IsValid oack.items
  pub distinct : IsDistinct oack.items
  pub blksize : (min_block_size ≤ neg.blksize) × (neg.blksize ≤ max_block_size)
  pub timeout : (1 ≤ neg.timeout) × (neg.timeout ≤ u8_max)
  pub windowsize : (1 ≤ neg.windowsize) × (neg.windowsize ≤ u16_max)

agree-IsAgreed :
    (cfg : Config) (b t s w size : Option ℕ) (oack : OptionSet) (neg : Negotiated)
    → Fits block_size b
    → Fits timeout t
    → Fits transfer_size s
    → Fits window_size w
    → Fits transfer_size size
    → agree cfg b t s w size ≡ some (oack, neg)
    → IsAgreed oack neg
unfolding offer_block_size offer_timeout offer_transfer_size offer_window_size name
agree-IsAgreed cfg none none none none none oack neg hb ht hs hw hz e = ground arith
agree-IsAgreed cfg _ _ _ _ _ oack neg hb ht hs hw hz e = ground arith

Fits-found :
    (kind : ℕ → OptionValue) (o : Option ℕ)
    → ((v : ℕ) → o ≡ some v → IsValid (kind v))
    → Fits kind o
Fits-found kind none h = tt
Fits-found kind (some v) h = h v refl

-- For a well-formed request, and a file whose size is a `u64`, the OACK is well formed (so that
-- it can be encoded and read back), and the parameters are within the bounds of the protocol: 8 to
-- 65464 bytes, 1 to 255 seconds, a window of 1 to 65535.
pub negotiate-IsAgreed :
    (cfg : Config) (requested oack : OptionSet) (size : Option ℕ) (neg : Negotiated)
    → IsWellFormed requested
    → Fits transfer_size size
    → negotiate cfg requested size ≡ some (oack, neg)
    → IsAgreed oack neg
unfolding get_block_size get_timeout get_transfer_size get_window_size
negotiate-IsAgreed cfg r oack size neg w fits e =
    agree-IsAgreed cfg (get_block_size r) (get_timeout r) (get_transfer_size r) (get_window_size r)
      size oack neg (Fits-found block_size _ (valid_block_size r.items w.valid))
      (Fits-found timeout _ (valid_timeout r.items w.valid))
      (Fits-found transfer_size _ (valid_transfer_size r.items w.valid))
      (Fits-found window_size _ (valid_window_size r.items w.valid)) fits
      (sym (negotiate-agree cfg r size) ∙ e)
