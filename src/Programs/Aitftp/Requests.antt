-- ===== src/Programs/Aitftp/Requests.antt =====
-- What the client program of src/bin/aitftp.rs requests, by its arguments.
use atftp.Client.Agrees.{build_request_options_lem}
use atftp.Client.{Options, build_request_options, unwrap_or}
use atftp.Client.Transfers.{blksize, negotiate_timeout, windowsize, set}
use atftp.Common.{ℕ, ◌≡◌, refl, ◌∙◌, ap, ◌||◌, Option, none, some, if◌then◌else◌}
use atftp.Programs.Aitftp.{Args, into_mode, is_put, set_some, options_of}
use atftp.Proto.Options.{get_block_size, get_timeout, get_transfer_size, get_window_size}

-- The options of the builder as a record.
abbrev given : Args → Options
given args = record {
  mode = into_mode args.mode;
  blksize = args.blksize;
  timeout_secs = args.tftp_timeout;
  windowsize = args.windowsize;
  request_tsize = args.tsize || is_put args.cmd;
  retries = args.retries;
  timeout = args.timeout;
}

set_blksize_lem :
    (b : Option ℕ) (o : Options)
    → o.blksize ≡ none
    → set_some blksize b o ≡ record o { blksize = b }
unfolding set
set_blksize_lem none o h = rw (← h) refl
set_blksize_lem (some n) o h = refl

set_timeout_lem :
    (t : Option ℕ) (o : Options)
    → o.timeout_secs ≡ none
    → set_some negotiate_timeout t o ≡ record o { timeout_secs = t }
unfolding set
set_timeout_lem none o h = rw (← h) refl
set_timeout_lem (some n) o h = refl

set_windowsize_lem :
    (w : Option ℕ) (o : Options)
    → o.windowsize ≡ none
    → set_some windowsize w o ≡ record o { windowsize = w }
unfolding set
set_windowsize_lem none o h = rw (← h) refl
set_windowsize_lem (some n) o h = refl

options_of-given : (args : Args) → options_of args ≡ given args
options_of-given args =
    unfold options_of set in
    ap (set_some windowsize args.windowsize) (
      ap (set_some negotiate_timeout args.tftp_timeout) (set_blksize_lem args.blksize _ refl)
      ∙ set_timeout_lem args.tftp_timeout _ refl)
    ∙ set_windowsize_lem args.windowsize _ refl

-- The builder of the client program holds the mode, the retries and the timeout of the arguments.
-- What a transfer requests with it is each option that was given, with its value, and no other of
-- them; the transfer size is requested with `--tsize` and with every put command, as the size that
-- the transfer is started with, or 0 where it has none.
pub options_of_lem :
    (args : Args) (size : Option ℕ)
    → let opts = options_of args in
      let requested = build_request_options opts size in
      (opts.mode ≡ into_mode args.mode)
      × (opts.retries ≡ args.retries)
      × (opts.timeout ≡ args.timeout)
      × (get_block_size requested ≡ args.blksize)
      × (get_timeout requested ≡ args.tftp_timeout)
      × (get_window_size requested ≡ args.windowsize)
      × (get_transfer_size requested
          ≡ (if args.tsize || is_put args.cmd then some (unwrap_or size 0) else none))
options_of_lem args size =
    let (block, wait, window, total) = build_request_options_lem (given args) size in
    rw (options_of-given args) (refl, refl, refl, block, wait, window, total)
