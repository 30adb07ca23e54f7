-- ===== src/Server/Serve/Completes.antt =====
-- When a write request to src/server.rs is served to its end.
use atftp.Blocks.Decoded.{decoded}
use atftp.Common.{
  ℕ, ◌≡◌, ◌<◌, refl, sym, ap, ◌∙◌, Bool, true, false, List, ◌++◌, Option, none, some, length, Bytes,
  subst,
}
use atftp.Error.{Result, ok}
use atftp.Files.{Files, FilesLaws, Attempt, done}
use atftp.Io.Receive.{ran-ok}
use atftp.Io.Reliable.{IsReliable, Goes, same-Goes}
use atftp.Io.{Address, Net, Event, ◌>>=◌, finished}
use atftp.PathSafe.{resolve}
use atftp.Proto.Options.{Mode, OptionSet, is_empty}
use atftp.Server.Negotiate.{Offer, negotiate}
use atftp.Server.Receiver.Completes.{run-Completes}
use atftp.Server.Receiver.Patient.{is_patient}
use atftp.Server.Receiver.Succeeds.{TakesWrites, send_ack-Goes, send_initial_oack-Goes}
use atftp.Server.Receiver.Turns.{upload}
use atftp.Server.Receiver.{Receiver, send_ack, send_initial_oack, run}
use atftp.Server.Serve.Stores.{greet_sends, receive_form}
use atftp.Server.Serve.{new_receiver, decoder_of, greet, receive, receive_into, write_to, serve_wrq}
use atftp.Server.{Config, Negotiated}

module _ (fs : Files) where
  greet-Goes :
      (peer : Address) (oack : OptionSet) (net : Net) (empty_ : Bool)
      → is_empty oack ≡ empty_
      → IsReliable net
      → Goes (greet fs peer oack) net
  greet-Goes peer oack net true h safe =
      same-Goes (greet fs peer oack) (send_ack peer 0) net (unfold greet in rw (h, greet) refl)
        (send_ack-Goes peer 0 net safe)
  greet-Goes peer oack net false h safe =
      same-Goes (greet fs peer oack) (send_initial_oack peer oack) net
        (unfold greet in rw (h, greet) refl) (send_initial_oack-Goes peer oack net safe)

  serve_form :
      (fuel : ℕ) (cfg : Config) (peer : Address) (filename : Bytes) (mode : Mode)
      (options : OptionSet) (path : Bytes) (file : fs.Handle) (oack : OptionSet) (neg : Negotiated)
      (net : Net)
      → resolve cfg.root filename ≡ ok path
      → fs.open_write cfg.allow_overwrite path ≡ done file
      → negotiate cfg options none ≡ some (oack, neg)
      → serve_wrq fs fuel cfg peer filename mode options net
        ≡ (greet fs peer oack >>= λ _. run fs fuel 0 (new_receiver fs cfg peer neg mode file)) net
  serve_form fuel cfg peer filename mode options path file oack neg net p o n =
      unfold serve_wrq write_to receive_into in
      ap (λ (r : Result Bytes). write_to fs fuel cfg peer mode options r net) p
      ∙ ap (λ (a : Attempt fs.Handle). receive_into fs fuel cfg peer mode options a net) o
      ∙ ap (λ (x : Option Offer). receive fs fuel cfg peer mode file x net) n
      ∙ receive_form fs fuel cfg peer mode file oack neg net

module _ (fs : Files) (laws : FilesLaws fs) (takes : TakesWrites fs) where
  -- A write request that can be served is: where its filename is resolved, the file opened and the
  -- options agreed, where the blocks of the client come as the server needs them, and where the
  -- socket and the file take what is sent and written, the transfer returns without an error, and
  -- the blocks, decoded, stand in the file behind what it held.
  pub serve_wrq-Completes :
      (fuel : ℕ) (cfg : Config) (peer : Address) (filename : Bytes) (mode : Mode)
      (options : OptionSet) (path : Bytes) (file : fs.Handle) (oack : OptionSet) (neg : Negotiated)
      (net : Net) (blocks : List Bytes)
      → resolve cfg.root filename ≡ ok path
      → fs.open_write cfg.allow_overwrite path ≡ done file
      → negotiate cfg options none ≡ some (oack, neg)
      → upload neg.blksize peer 1 net.inbox ≡ some blocks
      → is_patient cfg.retries peer cfg.retries net.inbox ≡ true
      → IsReliable net
      → length net.inbox < fuel
      → (r' : Receiver fs) × (net' : Net) × (serve_wrq fs fuel cfg peer filename mode options net
          ≡ (ok (finished r'), net'))
        × (laws.written r'.file ≡ laws.written file ++ decoded (decoder_of mode) blocks)
  serve_wrq-Completes fuel cfg peer filename mode options path file oack neg net blocks p o n sent
        waits safe enough =
      let start = new_receiver fs cfg peer neg mode file in
      let (_, mid, greeted, safe') = greet-Goes fs peer oack net (is_empty oack) refl safe in
      let same : net.inbox ≡ mid.inbox =
        sym (greet_sends fs peer oack net (is_empty oack) refl)
        ∙ ap (λ (x : Result (Unit {0}) × Net). x.1.inbox) greeted in
      let (r', net', e, text) =
        run-Completes fs laws takes fuel start mid blocks refl
          (subst (λ (l : List Event). upload neg.blksize peer 1 l ≡ some blocks) same sent)
          (subst (λ (l : List Event). is_patient cfg.retries peer cfg.retries l ≡ true) same waits)
          safe' (subst (λ (l : List Event). length l < fuel) same enough) in
      (
        r',
        net',
        serve_form fs fuel cfg peer filename mode options path file oack neg net p o n
            ∙ ran-ok (greet fs peer oack net) (λ _. run fs fuel 0 start) tt mid greeted
            ∙ e,
        text,
      )
