-- ===== src/Server/Sender/Serves.antt =====
-- `serve_rrq` as a whole: what a successful read request has sent.
use atftp.Blocks.Stream.{encoded}
use atftp.Common.{
  ℕ, ◌≡◌, ◌<◌, ◌≤◌, refl, sym, ◌∙◌, not, List, Option, none, some, Bytes, arith, if◌then◌else◌,
}
use atftp.Error.{Result, ok, err}
use atftp.Files.{Files, FilesLaws, Attempt, done, failed}
use atftp.Io.Receive.{ran-eq-ok}
use atftp.Io.{Address, Net, Io, ◌>>=◌, pure, finished}
use atftp.Netascii.Chunks.{concat}
use atftp.PathSafe.{resolve}
use atftp.Proto.Options.Insert.{IsWellFormed}
use atftp.Proto.Options.{Mode, OptionSet, is_empty, u64_max}
use atftp.Server.Negotiate.Answers.{negotiate-IsAgreed}
use atftp.Server.Negotiate.{Offer, negotiate}
use atftp.Server.Sender.Delivers.{IsCut, run-Delivers, Cuts-IsCut}
use atftp.Server.Sender.Fills.{number, IsSending}
use atftp.Server.Sender.Loop.{
  encodes, new_sender, send, send_sized, send_from, read_at, serve_rrq, send_oack_and_wait_ack0,
  run,
}
use atftp.Server.Sender.Adds.{Adds, Adds-trans}
use atftp.Server.Sender.Greets.{Sends, if-Sends, pure-Sends, send_oack_and_wait_ack0-Sends}
use atftp.Window.{Frame}
use atftp.Server.Sender.Sends.{Sent}
use atftp.Server.Sender.{Sender}
use atftp.Server.Serve.{deny}
use atftp.Server.{Config, Negotiated, map_io_to_error}

module _ (fs : Files) (laws : FilesLaws fs) where
  -- What a read request that ends well has done.
  pub record Serves (cfg : Config) (peer : Address) (filename : Bytes) (mode : Mode)
      (options : OptionSet) (net net' : Net) : Type 0 where
    pub path : Bytes
    pub file : fs.Handle
    pub size : ℕ
    pub answer : OptionSet
    pub neg : Negotiated
    pub blocks : List Bytes
    pub resolved : resolve cfg.root filename ≡ ok path
    pub opened : fs.open_read path ≡ done file
    pub sized : fs.len file ≡ done size
    pub negotiated : negotiate cfg options (some size) ≡ some (answer, neg)
    pub text : encoded (encodes fs mode) (laws.content file) ≡ concat blocks
    pub cut : IsCut neg.blksize blocks
    pub sent : Sent peer (number 1 blocks) net'.outbox
    pub only : Adds (number 1 blocks) net.outbox net'.outbox

  greeting : Config → Address → OptionSet → Io (Unit {0})
  greeting cfg peer answer =
      if not (is_empty answer) then send_oack_and_wait_ack0 cfg peer answer else pure tt

  greeting-Sends :
      (cfg : Config) (peer : Address) (answer : OptionSet) (frames : List Frame)
      → Sends frames (greeting cfg peer answer)
  unfolding greeting
  greeting-Sends cfg peer answer frames =
      if-Sends frames (not (is_empty answer)) (send_oack_and_wait_ack0 cfg peer answer) (pure tt)
        (send_oack_and_wait_ack0-Sends frames cfg peer answer) (pure-Sends frames tt)

  send_form :
      (fuel : ℕ) (cfg : Config) (peer : Address) (mode : Mode) (file : fs.Handle)
      (answer : OptionSet) (neg : Negotiated) (net : Net)
      → send fs fuel cfg peer mode file (some (answer, neg)) net
        ≡ (greeting cfg peer answer >>= λ _. run fs fuel (new_sender fs cfg peer neg mode file)) net
  unfolding greeting
  send_form fuel cfg peer mode file answer neg net = unfold send in refl

  new_sender-IsSending :
      (cfg : Config) (peer : Address) (neg : Negotiated) (mode : Mode) (file : fs.Handle)
      → 0 < neg.blksize
      → 0 < neg.windowsize
      → IsSending fs laws (new_sender fs cfg peer neg mode file)
  new_sender-IsSending cfg peer neg mode file b w = record {
    honest = λ no. cc;
    blksize = b;
    windowsize = w;
  }

  -- The size of a file that is opened is a `u64`.
  abbrev pub HasSizes : Type 0
  HasSizes =
      (path : Bytes) (h : fs.Handle) (n : ℕ)
      → fs.open_read path ≡ done h
      → fs.len h ≡ done n
      → n ≤ u64_max

  send-Serves :
      (fuel : ℕ) (cfg : Config) (peer : Address) (filename : Bytes) (mode : Mode)
      (options : OptionSet) (path : Bytes) (file : fs.Handle) (size : ℕ) (offer : Option Offer)
      (net net' : Net) (s' : Sender fs)
      → IsWellFormed options
      → size ≤ u64_max
      → fs.len file ≡ done size
      → resolve cfg.root filename ≡ ok path
      → fs.open_read path ≡ done file
      → negotiate cfg options (some size) ≡ offer
      → send fs fuel cfg peer mode file offer net ≡ (ok (finished s'), net')
      → Serves cfg peer filename mode options net net'
  send-Serves fuel cfg peer filename mode options path file size none net net' s' wf fits z p o n
        e =
      absurd (unfold send in cc)
  send-Serves fuel cfg peer filename mode options path file size (some (answer, neg)) net net' s' wf
        fits z p o n e =
      let (_, mid, greeted, e₁) =
        ran-eq-ok (greeting cfg peer answer net)
          (λ _. run fs fuel (new_sender fs cfg peer neg mode file))
          (sym (send_form fuel cfg peer mode file answer neg net) ∙ e) in
      let agreed = negotiate-IsAgreed cfg options answer (some size) neg wf fits n in
      let d =
        run-Delivers fs laws fuel (new_sender fs cfg peer neg mode file) s' mid net'
          (new_sender-IsSending cfg peer neg mode file (omega (arith, agreed.blksize.0))
            (omega (arith, agreed.windowsize.0)))
          e₁ in
      let (text, cut) = Cuts-IsCut neg.blksize _ d.blocks d.rest d.cuts in
      record {
        path = path;
        file = file;
        size = size;
        answer = answer;
        neg = neg;
        blocks = d.blocks;
        resolved = p;
        opened = o;
        sized = z;
        negotiated = n;
        text = text;
        cut = cut;
        sent = d.sent;
        only =
            Adds-trans (number 1 d.blocks) net.outbox mid.outbox net'.outbox
              (greeting-Sends cfg peer answer (number 1 d.blocks) net mid _ greeted) d.adds;
      }

  send_sized-Serves :
      (fuel : ℕ) (cfg : Config) (peer : Address) (filename : Bytes) (mode : Mode)
      (options : OptionSet) (path : Bytes) (file : fs.Handle) (sizing : Attempt ℕ) (net net' : Net)
      (s' : Sender fs)
      → IsWellFormed options
      → HasSizes
      → resolve cfg.root filename ≡ ok path
      → fs.open_read path ≡ done file
      → fs.len file ≡ sizing
      → send_sized fs fuel cfg peer mode options file sizing net ≡ (ok (finished s'), net')
      → Serves cfg peer filename mode options net net'
  send_sized-Serves fuel cfg peer filename mode options path file (failed kind) net net' s' wf sizes
        p o z e =
      absurd (unfold send_sized in cc)
  send_sized-Serves fuel cfg peer filename mode options path file (done size) net net' s' wf sizes p
        o z e =
      send-Serves fuel cfg peer filename mode options path file size
        (negotiate cfg options (some size)) net net' s' wf (sizes path file size o z) z p o refl
        (unfold send_sized in e)

  send_from-Serves :
      (fuel : ℕ) (cfg : Config) (peer : Address) (filename : Bytes) (mode : Mode)
      (options : OptionSet) (path : Bytes) (opening : Attempt fs.Handle) (net net' : Net)
      (s' : Sender fs)
      → IsWellFormed options
      → HasSizes
      → resolve cfg.root filename ≡ ok path
      → fs.open_read path ≡ opening
      → send_from fs fuel cfg peer mode options opening net ≡ (ok (finished s'), net')
      → Serves cfg peer filename mode options net net'
  send_from-Serves fuel cfg peer filename mode options path (failed kind) net net' s' wf sizes p o
        e =
      absurd (unfold send_from map_io_to_error in cc)
  send_from-Serves fuel cfg peer filename mode options path (done file) net net' s' wf sizes p o e =
      send_sized-Serves fuel cfg peer filename mode options path file (fs.len file) net net' s' wf
        sizes p o refl (unfold send_from in e)

  read_at-Serves :
      (fuel : ℕ) (cfg : Config) (peer : Address) (filename : Bytes) (mode : Mode)
      (options : OptionSet) (resolved : Result Bytes) (net net' : Net) (s' : Sender fs)
      → IsWellFormed options
      → HasSizes
      → resolve cfg.root filename ≡ resolved
      → read_at fs fuel cfg peer mode options resolved net ≡ (ok (finished s'), net')
      → Serves cfg peer filename mode options net net'
  read_at-Serves fuel cfg peer filename mode options (err x) net net' s' wf sizes p e =
      absurd (unfold read_at deny in cc)
  read_at-Serves fuel cfg peer filename mode options (ok path) net net' s' wf sizes p e =
      send_from-Serves fuel cfg peer filename mode options path (fs.open_read path) net net' s' wf
        sizes p refl (unfold read_at in e)

  -- A read request that ends well, with options as they are decoded and files whose sizes are those
  -- of a u64, has sent the whole file at the confined path: the file, encoded in the mode of the
  -- request, is cut into blocks of the negotiated size, the last of them shorter, and each block
  -- has been sent to the client in a DATA packet under its number, from 1 on modulo 2 ^ 16; no
  -- other DATA packet has been sent.
  pub serve_rrq-Serves :
      (fuel : ℕ) (cfg : Config) (peer : Address) (filename : Bytes) (mode : Mode)
      (options : OptionSet) (net net' : Net) (s' : Sender fs)
      → IsWellFormed options
      → HasSizes
      → serve_rrq fs fuel cfg peer filename mode options net ≡ (ok (finished s'), net')
      → Serves cfg peer filename mode options net net'
  serve_rrq-Serves fuel cfg peer filename mode options net net' s' wf sizes e =
      read_at-Serves fuel cfg peer filename mode options (resolve cfg.root filename) net net' s' wf
        sizes refl (unfold serve_rrq in e)
