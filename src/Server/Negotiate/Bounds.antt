-- ===== src/Server/Negotiate/Bounds.antt =====
-- src/server.rs, `negotiate`: what is agreed, within which bounds, and when it panics.
use atftp.Common.{ℕ, ◌<◌, ◌≡◌, ◌≢◌, ◌↔◌, refl, sym, ◌∙◌, Option, none, some, arith}
use atftp.Proto.Options.{
  OptionSet, empty, get_block_size, get_timeout, get_transfer_size, get_window_size, name,
}
use atftp.Proto.{min_block_size}
use atftp.Server.Negotiate.{
  Offer, offer_block_size, offer_timeout, offer_transfer_size, offer_window_size, negotiate,
}
use atftp.Server.{Config, Negotiated, defaults}

-- The same on the requested values.
abbrev pub agree : Config → Option ℕ → Option ℕ → Option ℕ → Option ℕ → Option ℕ → Option Offer
agree cfg b t s w size = elim (offer_block_size cfg b (empty, defaults)) [
  | none ↦ none
  | some offer ↦ some (offer_window_size cfg w (offer_transfer_size s size (offer_timeout t offer)))
]

pub negotiate-agree :
    (cfg : Config) (r : OptionSet) (size : Option ℕ)
    → negotiate cfg r size
      ≡ agree cfg (get_block_size r) (get_timeout r) (get_transfer_size r) (get_window_size r) size
negotiate-agree cfg r size = unfold negotiate in refl

agree_panics :
    (cfg : Config) (b t s w size : Option ℕ)
    → (agree cfg b t s w size ≡ none) ↔ ((b ≢ none) × (cfg.max_block_size < min_block_size))
unfolding offer_block_size
agree_panics cfg none t s w size = ground arith
agree_panics cfg (some b) t s w size = ground arith

-- The negotiation panics exactly when the client asks for a block size and the configured maximum
-- is below the smallest block size of the protocol.
pub negotiate_panics :
    (cfg : Config) (requested : OptionSet) (size : Option ℕ)
    → (negotiate cfg requested size ≡ none)
      ↔ ((get_block_size requested ≢ none) × (cfg.max_block_size < min_block_size))
negotiate_panics cfg r size = rw negotiate-agree (
    agree_panics cfg (get_block_size r) (get_timeout r) (get_transfer_size r) (get_window_size r)
      size)

abbrev pub told : ℕ → Option ℕ → ℕ
told default none = default
told default (some v) = v

-- The parameters are those that the client is told, and the defaults where it is told nothing.
pub record IsTold (oack : OptionSet) (neg : Negotiated) : Type 0 where
  pub blksize : neg.blksize ≡ told 512 (get_block_size oack)
  pub timeout : neg.timeout ≡ told 5 (get_timeout oack)
  pub windowsize : neg.windowsize ≡ told 1 (get_window_size oack)

agree-IsTold :
    (cfg : Config) (b t s w size : Option ℕ) (oack : OptionSet) (neg : Negotiated)
    → agree cfg b t s w size ≡ some (oack, neg)
    → IsTold oack neg
unfolding offer_block_size offer_timeout offer_transfer_size offer_window_size get_block_size
    get_timeout get_window_size name
agree-IsTold cfg none none none none none oack neg e = ground arith
agree-IsTold cfg _ _ _ _ _ oack neg e = ground arith

-- The server transfers with the parameters that its OACK names, and with the defaults (512 bytes,
-- 5 seconds, a window of 1) where the OACK names none; the configured timeout plays no part.
pub negotiate-IsTold :
    (cfg : Config) (requested oack : OptionSet) (size : Option ℕ) (neg : Negotiated)
    → negotiate cfg requested size ≡ some (oack, neg)
    → IsTold oack neg
negotiate-IsTold cfg r oack size neg e =
    agree-IsTold cfg (get_block_size r) (get_timeout r) (get_transfer_size r) (get_window_size r)
      size oack neg (sym (negotiate-agree cfg r size) ∙ e)
