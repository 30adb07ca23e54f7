-- ===== src/Programs/Aitftpd.antt =====
-- src/bin/aitftpd.rs: the server program, from its arguments to the bound server.
use atftp.Common.{ℕ, ◌≡◌, ◌∙◌, refl, sym, ap, Bool, not, List, [], ◌∷◌, Bytes}
use atftp.Error.{Result, ok, ◌>>=◌, >>=-eq-ok}
use atftp.Files.{Attempt, done, failed, from_io}
use atftp.Io.{Address}
use atftp.Server.Builder.{
  Setter, listen, root, allow_overwrite, timeout, retries, max_block_size, allow_windowsize,
  set_all, Server, bind,
}
use atftp.Server.{default_config}

pub record DaemonArgs : Type 0 where
  pub listen : Address
  pub root : Bytes
  pub allow_overwrite : Bool
  pub timeout : ℕ
  pub retries : ℕ
  pub max_block_size : ℕ
  pub no_windowsize : Bool

-- The chain of setters in `main`.
abbrev pub setters : DaemonArgs → List Setter
setters args =
    listen args.listen
    ∷ root args.root
    ∷ allow_overwrite args.allow_overwrite
    ∷ timeout args.timeout
    ∷ retries args.retries
    ∷ max_block_size args.max_block_size
    ∷ allow_windowsize (not args.no_windowsize)
    ∷ []

module _ (canonicalize : Bytes → Attempt Bytes) (bind_udp : Address → Attempt Address)
    (any_port_69 : Address) where
  -- `main`, up to the bound server.
  unfoldable pub start : DaemonArgs → Result Server
  unfolding set_all bind default_config
  start args = bind canonicalize bind_udp (set_all (setters args) (default_config any_port_69))

  -- The configuration of a server that has started is that of the arguments, with the root that the
  -- file system gives for the one in the arguments.
  pub record Started (args : DaemonArgs) (server : Server) : Type 0 where
    pub canon_root : Bytes
    pub canonical : canonicalize args.root ≡ done canon_root
    pub bound : bind_udp args.listen ≡ done server.local_addr
    pub configured : server.cfg ≡ record {
      listen = args.listen;
      root = canon_root;
      allow_overwrite = args.allow_overwrite;
      timeout = args.timeout;
      retries = args.retries;
      max_block_size = args.max_block_size;
      allow_windowsize = not args.no_windowsize;
    }

  start_form :
      (args : DaemonArgs)
      → start args ≡ (
          from_io (canonicalize args.root) >>= λ canon_root.
          from_io (bind_udp args.listen) >>= λ local_addr. ok (record {
            cfg = record {
              listen = args.listen;
              root = canon_root;
              allow_overwrite = args.allow_overwrite;
              timeout = args.timeout;
              retries = args.retries;
              max_block_size = args.max_block_size;
              allow_windowsize = not args.no_windowsize;
            };
            local_addr = local_addr;
          }))
  start_form args = unfold start in refl

  from_io-eq-ok {ℓ} : {A : Type ℓ} (a : Attempt A) {x : A} → from_io a ≡ ok x → a ≡ done x
  from_io-eq-ok (done a) e = cc
  from_io-eq-ok (failed kind) e = cc

  ok-injective {ℓ} : {A : Type ℓ} {a b : A} → ok a ≡ ok b → a ≡ b
  ok-injective e = cc

  -- A server that has started is configured by the arguments alone: each field of the configuration
  -- is the argument of its name, `no_windowsize` negated, and the root is the canonical path of
  -- the one in the arguments; nothing is left of the defaults.
  pub start-Started :
      (args : DaemonArgs) (server : Server) → start args ≡ ok server → Started args server
  start-Started args server e =
      let (canon_root, canonical, e₁) =
        >>=-eq-ok (from_io (canonicalize args.root)) _ (sym (start_form args) ∙ e) in
      let (local_addr, bound, e₂) = >>=-eq-ok (from_io (bind_udp args.listen)) _ e₁ in
      let is = ok-injective e₂ in
      record {
        canon_root = canon_root;
        canonical = from_io-eq-ok (canonicalize args.root) canonical;
        bound =
            from_io-eq-ok (bind_udp args.listen) bound ∙ ap (λ (s : Server). done s.local_addr) is;
        configured = ap (λ (s : Server). s.cfg) (sym is);
      }
