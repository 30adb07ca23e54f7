-- ===== src/Client/Agrees.antt =====
-- The client and the server transfer with the same parameters.
use atftp.Client.{Options, build_request_options, merge_oack, unwrap_or, insert_some}
use atftp.Common.{ℕ, ◌≡◌, ◌<◌, ◌≤◌, refl, ◌∙◌, [], Option, none, some, arith, if◌then◌else◌}
use atftp.Error.{ok}
use atftp.Proto.Options.Insert.{IsWellFormed}
use atftp.Proto.Options.{
  OptionSet, transfer_size, get_block_size, get_timeout, get_transfer_size, get_window_size, name,
  empty, block_size, timeout, window_size,
}
use atftp.Text.{str_eq}
use atftp.Proto.Packet.RoundTrip.{decode-encode_into}
use atftp.Proto.Packet.{oack, decode, encode_into}
use atftp.Proto.{min_block_size}
use atftp.Server.Negotiate.Answers.{valid_block_size, valid_window_size, Fits, negotiate-IsAgreed}
use atftp.Server.Negotiate.Bounds.{told, IsTold, negotiate-IsTold}
use atftp.Server.Negotiate.{negotiate}
use atftp.Server.{Config, Negotiated, defaults}

unwrap_or-told : (o : Option ℕ) (default : ℕ) → unwrap_or o default ≡ told default o
unwrap_or-told none default = refl
unwrap_or-told (some v) default = refl

merge_oack-told :
    (answer : OptionSet) (neg : Negotiated) → IsTold answer neg → merge_oack defaults answer ≡ neg
merge_oack-told answer neg t = merge_is ∙ rw (t.blksize, t.timeout, t.windowsize) refl
  where
    merge_is : merge_oack defaults answer ≡ record {
      blksize = told 512 (get_block_size answer);
      timeout = told 5 (get_timeout answer);
      windowsize = told 1 (get_window_size answer);
    }
    merge_is =
        unfold merge_oack in
        rw
          (
            unwrap_or-told (get_block_size answer) 512,
            unwrap_or-told (get_timeout answer) 5,
            unwrap_or-told (get_window_size answer) 1,
          )
          refl

-- For a well-formed request, and a file whose size is a `u64`: the answer that the server sends is
-- read back by the client, and the parameters that the client takes from it are the server's.
pub merge_oack-negotiate :
    (cfg : Config) (requested answer : OptionSet) (size : Option ℕ) (neg : Negotiated)
    → IsWellFormed requested
    → Fits transfer_size size
    → negotiate cfg requested size ≡ some (answer, neg)
    → (decode (encode_into (oack answer) []) ≡ ok (oack answer))
      × (merge_oack defaults answer ≡ neg)
merge_oack-negotiate cfg requested answer size neg w fits e =
    let agreed = negotiate-IsAgreed cfg requested answer size neg w fits e in
    (
      decode-encode_into (oack answer)
          (record { valid = agreed.valid; distinct = agreed.distinct }),
      merge_oack-told answer neg (negotiate-IsTold cfg requested answer size neg e),
    )

built :
    (b t w z : Option ℕ)
    → let set =
        insert_some window_size w
          (insert_some transfer_size z (insert_some timeout t (insert_some block_size b empty))) in
      (get_block_size set ≡ b)
      × (get_timeout set ≡ t)
      × (get_window_size set ≡ w)
      × (get_transfer_size set ≡ z)
unfolding insert_some get_block_size get_timeout get_window_size get_transfer_size name str_eq
built b t w z = ground arith

-- The request names each option that the client was given, with its value, and no other; the
-- transfer size is the file's on a write, 0 on a read, and only named where it was asked for.
pub build_request_options_lem :
    (opts : Options) (size : Option ℕ)
    → let set = build_request_options opts size in
      (get_block_size set ≡ opts.blksize)
      × (get_timeout set ≡ opts.timeout_secs)
      × (get_window_size set ≡ opts.windowsize)
      × (get_transfer_size set ≡ (if opts.request_tsize then some (unwrap_or size 0) else none))
build_request_options_lem opts size = unfold build_request_options in built _ _ _ _

-- The parameters that the client takes from an OACK are positive.
positive_or :
    (o : Option ℕ) (default : ℕ)
    → 0 < default
    → ((v : ℕ) → o ≡ some v → 0 < v)
    → 0 < unwrap_or o default
positive_or none default pos h = pos
positive_or (some v) default pos h = h v refl

pub merge_oack-positive :
    (options : OptionSet)
    → IsWellFormed options
    → (0 < (merge_oack defaults options).blksize) × (0 < (merge_oack defaults options).windowsize)
unfolding merge_oack get_block_size get_window_size
merge_oack-positive options w = (
  positive_or (get_block_size options) 512 (omega arith)
      (λ v e. ample v (valid_block_size options.items w.valid v e).0),
  positive_or (get_window_size options) 1 (omega arith)
      (λ v e. (valid_window_size options.items w.valid v e).0),
)
  where
    ample : (v : ℕ) → min_block_size ≤ v → 0 < v
    ample v h = omega arith
