-- ===== src/Server/Builder.antt =====
-- src/server.rs: `ServerBuilder`, and `Server::bind`. The file system's `canonicalize` and the
-- binding of a UDP socket, which gives the address that it is bound to, are parameters.
use atftp.Common.{ℕ, Bool, List, [], ◌∷◌, Bytes}
use atftp.Error.{Result, ok, ◌>>=◌}
use atftp.Files.{Attempt, from_io}
use atftp.Io.{Address}
use atftp.Server.{Config}

-- A setter of the builder; a chain of calls is a list of them.
pub data Setter : Type 0 where
  listen : Address → Setter
  root : Bytes → Setter
  allow_overwrite allow_windowsize : Bool → Setter
  timeout retries max_block_size : ℕ → Setter

unfoldable pub set : Setter → Config → Config
set (listen addr) cfg = record cfg { listen = addr }
set (root path) cfg = record cfg { root = path }
set (allow_overwrite yes_) cfg = record cfg { allow_overwrite = yes_ }
set (timeout d) cfg = record cfg { timeout = d }
set (retries n) cfg = record cfg { retries = n }
set (max_block_size n) cfg = record cfg { max_block_size = n }
set (allow_windowsize yes_) cfg = record cfg { allow_windowsize = yes_ }

unfoldable pub set_all : List Setter → Config → Config
unfolding set
set_all [] cfg = cfg
set_all (s ∷ setters) cfg = set_all setters (set s cfg)

-- `Server`, without its socket.
pub record Server : Type 0 where
  pub cfg : Config
  pub local_addr : Address

module _ (canonicalize : Bytes → Attempt Bytes) (bind_udp : Address → Attempt Address) where
  -- `Server::bind`
  unfoldable pub bind : Config → Result Server
  bind cfg = do
    canon_root ← from_io (canonicalize cfg.root)
    local_addr ← from_io (bind_udp cfg.listen)
    ok (record { cfg = record cfg { root = canon_root }; local_addr = local_addr })
