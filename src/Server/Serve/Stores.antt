-- ===== src/Server/Serve/Stores.antt =====
-- `serve_wrq` as a whole: what a successful write request has done, and that it comes to an end.
use atftp.Blocks.Decoded.{decoded}
use atftp.Common.{
  ℕ, ◌+◌, ◌≡◌, ◌≢◌, ◌≤◌, refl, sym, ap, ◌∙◌, Bool, true, false, List, ◌++◌, Option, none, some,
  length, Bytes,
}
use atftp.Error.{Result, ok, err}
use atftp.Files.{Files, FilesLaws, Attempt, done, failed}
use atftp.Io.Receive.{ran-eq-ok, send_to-inbox}
use atftp.Io.{Address, Net, Event, ◌>>=◌, Ended, finished, out_of_fuel}
use atftp.PathSafe.{resolve}
use atftp.Proto.Options.{Mode, OptionSet, is_empty}
use atftp.Server.Negotiate.{Offer, negotiate}
use atftp.Server.Receiver.Ends.{run_ends}
use atftp.Server.Receiver.Stored.{run-Holds}
use atftp.Server.Receiver.Turns.{upload}
use atftp.Server.Receiver.{Receiver, send_ack, send_initial_oack, run}
use atftp.Server.Serve.{
  new_receiver, decoder_of, greet, receive, receive_into, write_to, serve_wrq, deny,
}
use atftp.Server.{Config, Negotiated, map_io_to_error}

module _ (fs : Files) where
  pub greet_sends :
      (peer : Address) (oack : OptionSet) (net : Net) (empty_ : Bool)
      → is_empty oack ≡ empty_
      → (greet fs peer oack net).1.inbox ≡ net.inbox
  greet_sends peer oack net true h =
      unfold greet send_ack in rw (h, greet) (send_to-inbox _ peer net)
  greet_sends peer oack net false h =
      unfold greet send_initial_oack in rw (h, greet) (send_to-inbox _ peer net)

  pub receive_form :
      (fuel : ℕ) (cfg : Config) (peer : Address) (mode : Mode) (file : fs.Handle) (oack : OptionSet)
      (neg : Negotiated) (net : Net)
      → receive fs fuel cfg peer mode file (some (oack, neg)) net
        ≡ (greet fs peer oack >>= λ _. run fs fuel 0 (new_receiver fs cfg peer neg mode file)) net
  receive_form fuel cfg peer mode file oack neg net = unfold receive in refl

module _ (fs : Files) (laws : FilesLaws fs) where
  -- What a write request that ends well has done.
  pub record Stores (cfg : Config) (peer : Address) (filename : Bytes) (mode : Mode)
      (options : OptionSet) (inbox : List Event) (r' : Receiver fs) : Type 0 where
    pub path : Bytes
    pub file : fs.Handle
    pub oack : OptionSet
    pub neg : Negotiated
    pub blocks : List Bytes
    pub resolved : resolve cfg.root filename ≡ ok path
    pub opened : fs.open_write cfg.allow_overwrite path ≡ done file
    pub negotiated : negotiate cfg options none ≡ some (oack, neg)
    pub uploaded : upload neg.blksize peer 1 inbox ≡ some blocks
    pub written : laws.written r'.file ≡ laws.written file ++ decoded (decoder_of mode) blocks

  receive-Stores :
      (fuel : ℕ) (cfg : Config) (peer : Address) (filename : Bytes) (mode : Mode)
      (options : OptionSet) (path : Bytes) (file : fs.Handle) (offer : Option Offer)
      (net net' : Net) (r' : Receiver fs)
      → resolve cfg.root filename ≡ ok path
      → fs.open_write cfg.allow_overwrite path ≡ done file
      → negotiate cfg options none ≡ offer
      → receive fs fuel cfg peer mode file offer net ≡ (ok (finished r'), net')
      → Stores cfg peer filename mode options net.inbox r'
  receive-Stores fuel cfg peer filename mode options path file none net net' r' p o n e =
      absurd (unfold receive in cc)
  receive-Stores fuel cfg peer filename mode options path file (some (oack, neg)) net net' r' p o n
        e =
      let (_, mid, greeted, e₁) =
        ran-eq-ok (greet fs peer oack net)
          (λ _. run fs fuel 0 (new_receiver fs cfg peer neg mode file))
          (sym (receive_form fs fuel cfg peer mode file oack neg net) ∙ e) in
      let same : mid.inbox ≡ net.inbox =
        ap (λ (x : Result (Unit {0}) × Net). x.1.inbox) (sym greeted)
        ∙ greet_sends fs peer oack net (is_empty oack) refl in
      let (blocks, uploaded, written) =
        run-Holds fs laws fuel 0 (new_receiver fs cfg peer neg mode file) r' mid net' refl e₁ in
      record {
        path = path;
        file = file;
        oack = oack;
        neg = neg;
        blocks = blocks;
        resolved = p;
        opened = o;
        negotiated = n;
        uploaded = rw same at uploaded;
        written = written;
      }

  receive_into-Stores :
      (fuel : ℕ) (cfg : Config) (peer : Address) (filename : Bytes) (mode : Mode)
      (options : OptionSet) (path : Bytes) (opening : Attempt fs.Handle) (net net' : Net)
      (r' : Receiver fs)
      → resolve cfg.root filename ≡ ok path
      → fs.open_write cfg.allow_overwrite path ≡ opening
      → receive_into fs fuel cfg peer mode options opening net ≡ (ok (finished r'), net')
      → Stores cfg peer filename mode options net.inbox r'
  receive_into-Stores fuel cfg peer filename mode options path (failed kind) net net' r' p o e =
      absurd (unfold receive_into map_io_to_error in cc)
  receive_into-Stores fuel cfg peer filename mode options path (done file) net net' r' p o e =
      receive-Stores fuel cfg peer filename mode options path file (negotiate cfg options none) net
        net' r' p o refl (unfold receive_into in e)

  write_to-Stores :
      (fuel : ℕ) (cfg : Config) (peer : Address) (filename : Bytes) (mode : Mode)
      (options : OptionSet) (resolved : Result Bytes) (net net' : Net) (r' : Receiver fs)
      → resolve cfg.root filename ≡ resolved
      → write_to fs fuel cfg peer mode options resolved net ≡ (ok (finished r'), net')
      → Stores cfg peer filename mode options net.inbox r'
  write_to-Stores fuel cfg peer filename mode options (err x) net net' r' p e =
      absurd (unfold write_to deny in cc)
  write_to-Stores fuel cfg peer filename mode options (ok path) net net' r' p e =
      receive_into-Stores fuel cfg peer filename mode options path
        (fs.open_write cfg.allow_overwrite path) net net' r' p refl (unfold write_to in e)

  -- A write request that ends well has stored an upload in the file that was opened at the confined
  -- path: the blocks that the client sent, from block 1 to a short one of the negotiated block
  -- size, in order and each once, decoded in the mode of the request, behind what the file held.
  pub serve_wrq-Stores :
      (fuel : ℕ) (cfg : Config) (peer : Address) (filename : Bytes) (mode : Mode)
      (options : OptionSet) (net net' : Net) (r' : Receiver fs)
      → serve_wrq fs fuel cfg peer filename mode options net ≡ (ok (finished r'), net')
      → Stores cfg peer filename mode options net.inbox r'
  serve_wrq-Stores fuel cfg peer filename mode options net net' r' e =
      write_to-Stores fuel cfg peer filename mode options (resolve cfg.root filename) net net' r'
        refl (unfold serve_wrq in e)

  receive_ends :
      (fuel : ℕ) (cfg : Config) (peer : Address) (mode : Mode) (file : fs.Handle)
      (offer : Option Offer) (net net' : Net)
      → length net.inbox + cfg.retries + 2 ≤ fuel
      → receive fs fuel cfg peer mode file offer net ≢ (ok out_of_fuel, net')
  receive_ends fuel cfg peer mode file none net net' enough e = unfold receive in cc
  receive_ends fuel cfg peer mode file (some (oack, neg)) net net' enough e =
      let (_, mid, greeted, e₁) =
        ran-eq-ok (greet fs peer oack net)
          (λ _. run fs fuel 0 (new_receiver fs cfg peer neg mode file))
          (sym (receive_form fs fuel cfg peer mode file oack neg net) ∙ e) in
      let same : mid.inbox ≡ net.inbox =
        ap (λ (x : Result (Unit {0}) × Net). x.1.inbox) (sym greeted)
        ∙ greet_sends fs peer oack net (is_empty oack) refl in
      run_ends fs laws fuel (new_receiver fs cfg peer neg mode file) mid (rw same enough)
        (ap (λ (x : Result (Ended (Receiver fs)) × Net). x.0) e₁)

  receive_into_ends :
      (fuel : ℕ) (cfg : Config) (peer : Address) (mode : Mode) (options : OptionSet)
      (opening : Attempt fs.Handle) (net net' : Net)
      → length net.inbox + cfg.retries + 2 ≤ fuel
      → receive_into fs fuel cfg peer mode options opening net ≢ (ok out_of_fuel, net')
  receive_into_ends fuel cfg peer mode options (failed kind) net net' enough e =
      unfold receive_into map_io_to_error in cc
  receive_into_ends fuel cfg peer mode options (done file) net net' enough e =
      receive_ends fuel cfg peer mode file (negotiate cfg options none) net net' enough
        (unfold receive_into in e)

  write_to_ends :
      (fuel : ℕ) (cfg : Config) (peer : Address) (mode : Mode) (options : OptionSet)
      (resolved : Result Bytes) (net net' : Net)
      → length net.inbox + cfg.retries + 2 ≤ fuel
      → write_to fs fuel cfg peer mode options resolved net ≢ (ok out_of_fuel, net')
  write_to_ends fuel cfg peer mode options (err x) net net' enough e = unfold write_to deny in cc
  write_to_ends fuel cfg peer mode options (ok path) net net' enough e =
      receive_into_ends fuel cfg peer mode options (fs.open_write cfg.allow_overwrite path) net net'
        enough (unfold write_to in e)

  -- A write request comes to an end, whatever arrives: with a round for each event that arrives,
  -- each retry, and two more, the loop returns, with or without an error.
  pub serve_wrq_ends :
      (fuel : ℕ) (cfg : Config) (peer : Address) (filename : Bytes) (mode : Mode)
      (options : OptionSet) (net net' : Net)
      → length net.inbox + cfg.retries + 2 ≤ fuel
      → serve_wrq fs fuel cfg peer filename mode options net ≢ (ok out_of_fuel, net')
  serve_wrq_ends fuel cfg peer filename mode options net net' enough e =
      write_to_ends fuel cfg peer mode options (resolve cfg.root filename) net net' enough
        (unfold serve_wrq in e)
