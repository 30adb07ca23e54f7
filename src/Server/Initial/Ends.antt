-- ===== src/Server/Initial/Ends.antt =====
-- Every task that src/server.rs spawns for a first packet comes to an end.
use atftp.Common.{
  ℕ, zero, suc, ◌+◌, ◌≡◌, ◌≢◌, ◌≤◌, ◌<◌, inl, inr, refl, sym, ap, ◌∙◌, Bool, true, false, not, List,
  [], Option, none, some, length, ◌==◌, if◌then◌else◌, Bytes, arith,
}
use atftp.Error.{Result, ok, err, timeout}
use atftp.Files.{Files, FilesLaws, Attempt, done, failed}
use atftp.Io.Receive.{ran-eq-ok, returned-eq, send_to-inbox, recv_one-got, heard, shorter}
use atftp.Io.{Address, Net, Io, Event, ◌>>=◌, pure, raise, send_to, recv_one, out_of_fuel}
use atftp.PathSafe.{resolve}
use atftp.Proto.Options.{Mode, OptionSet, is_empty}
use atftp.Proto.Packet.{Packet, rrq, wrq, block_data, ack, error, oack, decode, encode_into}
use atftp.Server.Initial.Handles.{Deals, handle_initial-Handles}
use atftp.Server.Initial.{Handled, ignored, sent, received, handle_initial}
use atftp.Server.Negotiate.{Offer, negotiate}
use atftp.Server.Sender.Ends.{run_returns}
use atftp.Server.Sender.Loop.{
  on_ack0, on_reply0, wait_ack0, send_oack_and_wait_ack0, new_sender, send, send_sized, send_from,
  read_at, serve_rrq, run,
}
use atftp.Server.Serve.Stores.{serve_wrq_ends}
use atftp.Server.Serve.{deny}
use atftp.Server.{Config, Negotiated, map_io_to_error}

-- The inbox does not grow.
abbrev Within : Net → Net → Type 0
Within net net' = length net'.inbox ≤ length net.inbox

module _ (retries : ℕ) (to : Address) (buf : Bytes) where
  abbrev next_wait : ℕ → ℕ → Io (Unit {0})
  next_wait left attempt = wait_ack0 left attempt retries to buf

  wait_form :
      (left attempt : ℕ) (net : Net)
      → (send_to buf to >>= λ _.
            recv_one to >>= λ got. on_reply0 (next_wait left (attempt + 1)) attempt retries got)
          net
        ≡ wait_ack0 (suc left) attempt retries to buf net
  wait_form left attempt net = unfold wait_ack0 in refl

  abbrev Waits : ℕ → Type 0
  Waits left =
      (attempt : ℕ) (net net' : Net) (u : Unit {0})
      → next_wait left attempt net ≡ (ok u, net')
      → Within net net'

  silent :
      (left attempt : ℕ) (over : Bool) (net net' : Net) (u : Unit {0})
      → Waits left
      → (if over then raise (timeout attempt) else next_wait left (attempt + 1)) net ≡ (ok u, net')
      → Within net net'
  silent left attempt true net net' u ih e = cc
  silent left attempt false net net' u ih e = ih (attempt + 1) net net' u e

  acked0 :
      (left attempt : ℕ) (zero_ : Bool) (net net' : Net) (u : Unit {0})
      → Waits left
      → (if zero_ then pure tt else next_wait left (attempt + 1)) net ≡ (ok u, net')
      → Within net net'
  acked0 left attempt true net net' u ih e =
      let (_, same) = returned-eq e in rw (← same) (omega arith)
  acked0 left attempt false net net' u ih e = ih (attempt + 1) net net' u e

  answered :
      (left attempt : ℕ) (r : Result Packet) (net net' : Net) (u : Unit {0})
      → Waits left
      → on_ack0 (next_wait left (attempt + 1)) r net ≡ (ok u, net')
      → Within net net'
  answered left attempt (ok (ack block)) net net' u ih e =
      acked0 left attempt (block == 0) net net' u ih e
  answered left attempt (ok (error code msg)) net net' u ih e = cc
  answered left attempt (ok (rrq f m o)) net net' u ih e = ih (attempt + 1) net net' u e
  answered left attempt (ok (wrq f m o)) net net' u ih e = ih (attempt + 1) net net' u e
  answered left attempt (ok (block_data b d)) net net' u ih e = ih (attempt + 1) net net' u e
  answered left attempt (ok (oack o)) net net' u ih e = ih (attempt + 1) net net' u e
  answered left attempt (err x) net net' u ih e = ih (attempt + 1) net net' u e

  replied :
      (left attempt : ℕ) (got : Option Bytes) (net net' : Net) (u : Unit {0})
      → Waits left
      → on_reply0 (next_wait left (attempt + 1)) attempt retries got net ≡ (ok u, net')
      → Within net net'
  replied left attempt none net net' u ih e =
      silent left attempt (attempt == retries) net net' u ih e
  replied left attempt (some rxbuf) net net' u ih e =
      answered left attempt (decode rxbuf) net net' u ih e

  heard_less : (inbox : List Event) → length (heard to inbox).1 ≤ length inbox
  heard_less inbox = elim (shorter to inbox) [
    | inl less ↦ omega arith
    | inr none_ ↦ omega (arith, ap (length {A = Event}) none_)
  ]

  wait_ack0-Within : (left : ℕ) → Waits left
  wait_ack0-Within zero attempt net net' u e = unfold wait_ack0 in cc
  wait_ack0-Within (suc left) attempt net net' u e =
      let (_, n₁, sent_, e₁) =
        ran-eq-ok (send_to buf to net)
          (λ _. recv_one to >>= λ got. on_reply0 (next_wait left (attempt + 1)) attempt retries got)
          (wait_form left attempt net ∙ e) in
      let (got, n₂, heard_, e₂) =
        ran-eq-ok (recv_one to n₁)
          (λ got. on_reply0 (next_wait left (attempt + 1)) attempt retries got) e₁ in
      let same : n₁.inbox ≡ net.inbox =
        ap (λ (r : Result (Unit {0}) × Net). r.1.inbox) (sym sent_) ∙ send_to-inbox buf to net in
      let (_, left_) = recv_one-got to n₁ n₂ (ok got) heard_ in
      let rest = replied left attempt got n₂ net' u (wait_ack0-Within left) e₂ in
      omega
        (arith, heard_less n₁.inbox, ap (length {A = Event}) same, ap (length {A = Event}) left_)

abbrev oack_unless : Config → Address → OptionSet → Bool → Io (Unit {0})
oack_unless cfg to answer nothing =
    if not nothing then send_oack_and_wait_ack0 cfg to answer else pure tt

oack_unless-Within :
    (cfg : Config) (to : Address) (answer : OptionSet) (nothing : Bool) (net net' : Net)
    (u : Unit {0})
    → oack_unless cfg to answer nothing net ≡ (ok u, net')
    → Within net net'
oack_unless-Within cfg to answer true net net' u e =
    let (_, same) = returned-eq e in rw (← same) (omega arith)
oack_unless-Within cfg to answer false net net' u e =
    wait_ack0-Within cfg.retries to (encode_into (oack answer) []) (cfg.retries + 1) 0 net net' u
      (unfold send_oack_and_wait_ack0 in e)

module _ (fs : Files) where
  send_form :
      (fuel : ℕ) (cfg : Config) (peer : Address) (mode : Mode) (file : fs.Handle)
      (answer : OptionSet) (neg : Negotiated) (net : Net)
      → (oack_unless cfg peer answer (is_empty answer) >>= λ _.
            run fs fuel (new_sender fs cfg peer neg mode file))
          net
        ≡ send fs fuel cfg peer mode file (some (answer, neg)) net
  send_form fuel cfg peer mode file answer neg net = unfold send in refl

  send_ends :
      (fuel : ℕ) (cfg : Config) (peer : Address) (mode : Mode) (file : fs.Handle)
      (offer : Option Offer) (net net' : Net)
      → length net.inbox < fuel
      → send fs fuel cfg peer mode file offer net ≢ (ok out_of_fuel, net')
  send_ends fuel cfg peer mode file none net net' enough e = unfold send in cc
  send_ends fuel cfg peer mode file (some (answer, neg)) net net' enough e =
      let (u, mid, greeted, e₁) =
        ran-eq-ok (oack_unless cfg peer answer (is_empty answer) net)
          (λ _. run fs fuel (new_sender fs cfg peer neg mode file))
          (send_form fuel cfg peer mode file answer neg net ∙ e) in
      let less = oack_unless-Within cfg peer answer (is_empty answer) net mid u greeted in
      run_returns fs fuel (new_sender fs cfg peer neg mode file) mid net' (omega (arith, less)) e₁

  send_sized_ends :
      (fuel : ℕ) (cfg : Config) (peer : Address) (mode : Mode) (options : OptionSet)
      (file : fs.Handle) (sizing : Attempt ℕ) (net net' : Net)
      → length net.inbox < fuel
      → send_sized fs fuel cfg peer mode options file sizing net ≢ (ok out_of_fuel, net')
  send_sized_ends fuel cfg peer mode options file (failed kind) net net' enough e =
      unfold send_sized in cc
  send_sized_ends fuel cfg peer mode options file (done size) net net' enough e =
      send_ends fuel cfg peer mode file (negotiate cfg options (some size)) net net' enough
        (unfold send_sized in e)

  send_from_ends :
      (fuel : ℕ) (cfg : Config) (peer : Address) (mode : Mode) (options : OptionSet)
      (opening : Attempt fs.Handle) (net net' : Net)
      → length net.inbox < fuel
      → send_from fs fuel cfg peer mode options opening net ≢ (ok out_of_fuel, net')
  send_from_ends fuel cfg peer mode options (failed kind) net net' enough e =
      unfold send_from map_io_to_error in cc
  send_from_ends fuel cfg peer mode options (done file) net net' enough e =
      send_sized_ends fuel cfg peer mode options file (fs.len file) net net' enough
        (unfold send_from in e)

  read_at_ends :
      (fuel : ℕ) (cfg : Config) (peer : Address) (mode : Mode) (options : OptionSet)
      (resolved : Result Bytes) (net net' : Net)
      → length net.inbox < fuel
      → read_at fs fuel cfg peer mode options resolved net ≢ (ok out_of_fuel, net')
  read_at_ends fuel cfg peer mode options (err x) net net' enough e = unfold read_at deny in cc
  read_at_ends fuel cfg peer mode options (ok path) net net' enough e =
      send_from_ends fuel cfg peer mode options (fs.open_read path) net net' enough
        (unfold read_at in e)

  pub serve_rrq_ends :
      (fuel : ℕ) (cfg : Config) (peer : Address) (filename : Bytes) (mode : Mode)
      (options : OptionSet) (net net' : Net)
      → length net.inbox < fuel
      → serve_rrq fs fuel cfg peer filename mode options net ≢ (ok out_of_fuel, net')
  serve_rrq_ends fuel cfg peer filename mode options net net' enough e =
      read_at_ends fuel cfg peer mode options (resolve cfg.root filename) net net' enough
        (unfold serve_rrq in e)

module _ (fs : Files) (laws : FilesLaws fs) where
  -- A transfer that the model had too little fuel for.
  abbrev pub IsOut : Handled fs → Type 0
  IsOut ignored = ⊥
  IsOut (sent end_) = end_ ≡ out_of_fuel
  IsOut (received end_) = end_ ≡ out_of_fuel

  Deals-IsOut :
      (fuel : ℕ) (cfg : Config) (peer : Address) (p : Packet) (h : Handled fs) (net net' : Net)
      → length net.inbox + cfg.retries + 2 ≤ fuel
      → Deals fs fuel cfg peer p net h net'
      → IsOut h
      → ⊥
  Deals-IsOut fuel cfg peer p ignored net net' enough s out = out
  Deals-IsOut fuel cfg peer p (sent end_) net net' enough (f, m, o, _, ran) out =
      serve_rrq_ends fs fuel cfg peer f m o net net' (omega arith) (rw out at ran)
  Deals-IsOut fuel cfg peer p (received end_) net net' enough (f, m, o, _, ran) out =
      serve_wrq_ends fs laws fuel cfg peer f m o net net' enough (rw out at ran)

  -- Every task that the server spawns comes to an end, whatever the first packet is and whatever
  -- arrives on its socket: with a round for each event that arrives, each retry, and two more, the
  -- transfer returns, with or without an error.
  pub handle_initial_ends :
      (fuel : ℕ) (cfg : Config) (peer : Address) (bound : Attempt (Unit {0})) (frame : Bytes)
      (h : Handled fs) (net net' : Net)
      → length net.inbox + cfg.retries + 2 ≤ fuel
      → handle_initial fs fuel cfg peer bound frame net ≡ (ok h, net')
      → ¬ IsOut h
  handle_initial_ends fuel cfg peer bound frame h net net' enough e out =
      elim (handle_initial-Handles fs fuel cfg peer bound frame h net net' e) [
        | inl (x, _, h_is, _) ↦ rw h_is at out
        | inr (p, _, s) ↦ Deals-IsOut fuel cfg peer p h net net' enough s out
      ]
