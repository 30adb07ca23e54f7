-- ===== src/Programs/Aitftp.antt =====
-- src/bin/aitftp.rs: the client program. The parsing of the arguments (clap) and the resolution of a
-- name (`to_socket_addrs`) are parameters.
pub mod Requests
pub mod Paths
use atftp.Client.Transfers.{
  Client, Setter, mode, blksize, timeout, negotiate_timeout, windowsize, retries, request_tsize,
  set, build, get, put,
}
use atftp.Client.{Options, default_options}
use atftp.Common.{
  ℕ, Bool, true, false, ◌||◌, List, [], ◌∷◌, ◌++◌, Option, none, some, ◌==◌, if◌then◌else◌, Bytes,
  codes,
}
use atftp.Error.{ErrorKind, Error, Result, ok, err}
use atftp.Files.{Files, Attempt, done, failed}
use atftp.Io.{Address, Net, Ended}
use atftp.Proto.Options.{Mode, net_ascii, octet}

pub data ModeArg : Type 0 where
  octet_arg netascii_arg : ModeArg

pub data Cmd : Type 0 where
  get_cmd put_cmd : Bytes → Option Bytes → Cmd

pub record Args : Type 0 where
  pub server : Bytes
  pub cmd : Cmd
  pub mode : ModeArg
  pub blksize : Option ℕ
  pub tftp_timeout : Option ℕ
  pub windowsize : Option ℕ
  pub tsize : Bool
  pub retries : ℕ
  pub timeout : ℕ

-- `From<ModeArg> for Mode`
unfoldable pub into_mode : ModeArg → Mode
into_mode octet_arg = octet
into_mode netascii_arg = net_ascii

-- `s.contains(b)`
abbrev pub contains_byte : ℕ → Bytes → Bool
contains_byte b [] = false
contains_byte b (c ∷ s) = c == b || contains_byte b s

-- What stands behind the last `b`, as `rsplit(b).next()` has it.
abbrev pub behind_last : ℕ → Bytes → Bytes → Bytes
behind_last b best [] = best
behind_last b best (c ∷ s) = if c == b then behind_last b s s else behind_last b best s

unfoldable pub default_local_for : Bytes → Bytes
default_local_for remote = behind_last 47 remote remote

-- How the program fails: in the resolution of the server, or in a transfer.
pub data Failure : Type 0 where
  resolving : ErrorKind → Failure
  no_addresses : Failure
  transfer : Error → Failure

pub data Exit {ℓ} (A : Type ℓ) : Type ℓ where
  success : A → Exit A
  failure : Failure → Exit A

abbrev pub first_address : List Address → Exit Address
first_address [] = failure no_addresses
first_address (addr ∷ _) = success addr

unfoldable pub with_port : Bytes → Bytes
with_port s = if contains_byte 58 s then s else s ++ codes ":69"

abbrev pub resolved : Attempt (List Address) → Exit Address
resolved (done addrs) = first_address addrs
resolved (failed kind) = failure (resolving kind)

unfoldable pub resolve_server : (Bytes → Attempt (List Address)) → Bytes → Exit Address
unfolding with_port
resolve_server to_socket_addrs s = resolved (to_socket_addrs (with_port s))

abbrev pub is_put : Cmd → Bool
is_put (put_cmd _ _) = true
is_put (get_cmd _ _) = false

-- An `if let` around a setter.
abbrev pub set_some : (ℕ → Setter) → Option ℕ → Options → Options
set_some setter none options = options
set_some setter (some n) options = set (setter n) options

-- The builder that `main` makes of the arguments.
unfoldable pub options_of : Args → Options
unfolding set into_mode
options_of args = set_some windowsize args.windowsize (
    set_some negotiate_timeout args.tftp_timeout (
      set_some blksize args.blksize (
        set (request_tsize (args.tsize || is_put args.cmd)) (
          set (timeout args.timeout)
            (set (retries args.retries) (set (mode (into_mode args.mode)) default_options))))))

abbrev pub unwrap_or_local : Option Bytes → Bytes → Bytes
unwrap_or_local none remote = default_local_for remote
unwrap_or_local (some local) remote = local

module _ (fs : Files) (fuel : ℕ) where
  abbrev pub run_cmd : Client → Cmd → Net → Result (Ended ℕ) × Net
  run_cmd client (get_cmd remote local) = get fs fuel client remote (unwrap_or_local local remote)
  run_cmd client (put_cmd remote local) = put fs fuel client remote (unwrap_or_local local remote)

  abbrev pub exit_of : Result (Ended ℕ) × Net → Exit (Ended ℕ) × Net
  exit_of (ok end_, net) = (success end_, net)
  exit_of (err e, net) = (failure (transfer e), net)

  abbrev pub main_at : Args → Exit Address → Net → Exit (Ended ℕ) × Net
  main_at args (failure why) net = (failure why, net)
  main_at args (success server) net =
      exit_of (run_cmd (build (options_of args) server) args.cmd net)

  -- `main`, on the parsed arguments.
  unfoldable pub main : (Bytes → Attempt (List Address)) → Args → Net → Exit (Ended ℕ) × Net
  unfolding resolve_server options_of get put default_local_for
  main to_socket_addrs args net = main_at args (resolve_server to_socket_addrs args.server) net
