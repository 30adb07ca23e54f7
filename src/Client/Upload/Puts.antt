-- ===== src/Client/Upload/Puts.antt =====
-- `do_put` of src/client.rs as a whole: what a successful upload has sent.
use atftp.Blocks.Stream.{encoded}
use atftp.Client.Agrees.{merge_oack-positive}
use atftp.Client.Request.Answered.{Found, request-Found}
use atftp.Client.Request.Arms.{IsPutAnswer, accepted, acknowledged, put_arm_lem}
use atftp.Client.Request.{Answer, put_arm, request}
use atftp.Client.Sink.{u64_mod}
use atftp.Client.Source.{SourceOf, encoding, new_source}
use atftp.Client.Upload.Fills.{mirrored, IsUploading}
use atftp.Client.Upload.Loop.{upload_all, write_request, do_put}
use atftp.Client.Upload.Rounds.{upload_all-run}
use atftp.Client.Upload.Sources.{sources, left_of, sources_laws}
use atftp.Client.Upload.{Upload, new_upload}
use atftp.Client.{Options, build_request_options, merge_oack}
use atftp.Common.{
  ℕ, suc, ◌+◌, ◌%◌, ◌≡◌, ◌<◌, ◌⊎◌, inl, inr, refl, sym, ap, ◌∙◌, true, not, List, ◌∷◌, ◌++◌, Option,
  length, take, Bytes, arith,
}
use atftp.Error.{ok}
use atftp.Files.{Files, FilesLaws}
use atftp.Io.Receive.{ran-eq-ok, ran-ok}
use atftp.Io.{Address, Event, datagram, Net, ◌>>=◌, finished}
use atftp.Netascii.Chunks.{concat}
use atftp.Proto.Options.{Mode, OptionSet, is_empty}
use atftp.Proto.Packet.Sound.{decode-oack-IsWellFormed}
use atftp.Proto.Packet.{Packet, ack, oack, decode}
use atftp.Proto.{max_packet_size}
use atftp.Server.Sender.Delivers.{IsCut, run-Delivers, Cuts-IsCut}
use atftp.Server.Sender.Fills.{number}
use atftp.Client.Request.Sends.{request-Sends}
use atftp.Io.Sends.{Datagrams}
use atftp.Proto.Packet.Others.{NoData, wrq-NoData}
use atftp.Server.Sender.Adds.{Adds, Adds-trans}
use atftp.Window.{Frame}
use atftp.Server.Sender.Sends.{Sent}
use atftp.Server.{Negotiated, defaults}

module _ (fs : Files) (laws : FilesLaws fs) where
  -- The bytes of an upload, as they go over the wire.
  abbrev pub wire_text : Mode → SourceOf fs → Bytes
  wire_text mode source = encoded (encoding mode) (left_of fs laws source)

  -- What an upload that ends well has done.
  pub record Puts (opts : Options) (source : SourceOf fs) (source_len : Option ℕ)
      (inbox : List Event) (before : Datagrams) (u' : Upload fs) (net' : Net) : Type 0 where
    pub front : List Event
    pub peer : Address
    pub raw : Bytes
    pub packet : Packet
    pub rest : List Event
    pub neg : Negotiated
    pub blocks : List Bytes
    pub arrived : inbox ≡ front ++ datagram peer raw ∷ rest
    pub is_packet : decode (take max_packet_size raw) ≡ ok packet
    pub agreed :
        ((options : OptionSet) × (not (is_empty (build_request_options opts source_len)) ≡ true)
          × (packet ≡ oack options)
          × (neg ≡ merge_oack defaults options))
        ⊎ ((packet ≡ ack 0) × (neg ≡ defaults))
    pub text : wire_text opts.mode source ≡ concat blocks
    pub cut : IsCut neg.blksize blocks
    pub sent : Sent peer (number 1 blocks) net'.outbox
    pub only : Adds (number 1 blocks) before net'.outbox
    pub counted : u'.total ≡ length (wire_text opts.mode source) % u64_mod

  -- The upload whose first phase found an answer.
  abbrev pub PutsTo :
      Options → SourceOf fs → Option ℕ → List Event → Datagrams → Upload fs → Net → Answer → Type 0
  PutsTo opts source source_len inbox before u' net' answer =
      (p : Puts opts source source_len inbox before u' net') × (p.peer ≡ answer.peer)
      × (p.neg ≡ answer.neg)

  -- The state that the loop starts in.
  abbrev pub start : SourceOf fs → Mode → ℕ → Upload fs
  start source mode blksize = new_upload fs (new_source source mode) blksize

  pub start-IsUploading :
      (neg : Negotiated) (peer : Address) (retries : ℕ) (source : SourceOf fs) (mode : Mode)
      → 0 < neg.blksize
      → 0 < neg.windowsize
      → IsUploading fs laws neg peer retries
          (length (wire_text mode source))
          (start source mode neg.blksize)
  unfolding new_source
  start-IsUploading neg peer retries source mode b w = record {
    sending = record { honest = λ no. cc; blksize = b; windowsize = w };
    blksize = refl;
    final = refl;
    fits = omega arith;
    total = ap (λ (n : ℕ). n % u64_mod) (plus_zero (length (wire_text mode source)));
    last = λ no. cc;
  }
    where
      plus_zero : (n : ℕ) → 0 + n ≡ n
      plus_zero n = omega arith

  total_is :
      (total size : ℕ)
      → total < u64_mod
      → (total + 0) % u64_mod ≡ size % u64_mod
      → total ≡ size % u64_mod
  total_is total size h e = omega arith

  write_request-NoData :
      (opts : Options) (remote : Bytes) (source_len : Option ℕ)
      → NoData (write_request fs opts remote source_len)
  write_request-NoData opts remote source_len = wrq-NoData remote opts.mode _

  started-Puts :
      (fuel : ℕ) (opts : Options) (source : SourceOf fs) (source_len : Option ℕ) (answer : Answer)
      (u' : Upload fs) (inbox : List Event) (before : Datagrams) (mid net' : Net)
      → ((frames : List Frame) → Adds frames before mid.outbox)
      → (f : Found
          (put_arm (not (is_empty (build_request_options opts source_len))))
          inbox
          answer
          mid)
      → 0 < answer.neg.blksize
      → 0 < answer.neg.windowsize
      → answer.peer ≡ f.src
      → ((options : OptionSet) × (not (is_empty (build_request_options opts source_len)) ≡ true)
          × (f.packet ≡ oack options)
          × (answer.neg ≡ merge_oack defaults options))
        ⊎ ((f.packet ≡ ack 0) × (answer.neg ≡ defaults))
      → upload_all fs answer.neg answer.peer opts.retries fuel
          (start source opts.mode answer.neg.blksize)
          mid
        ≡ (ok (finished u'), net')
      → PutsTo opts source source_len inbox before u' net' answer
  unfolding new_source
  started-Puts fuel opts source source_len answer u' inbox before mid net' asked f b w from agreed
        e =
      let start_ok = start-IsUploading answer.neg answer.peer opts.retries source opts.mode b w in
      let (server, (over, last)) =
        upload_all-run fs laws answer.neg answer.peer opts.retries
          (length (wire_text opts.mode source)) fuel (start source opts.mode answer.neg.blksize) u'
          mid net' start_ok e in
      let d =
        run-Delivers (sources fs) (sources_laws fs laws) (suc fuel)
          (mirrored fs laws answer.neg answer.peer opts.retries
            (start source opts.mode answer.neg.blksize))
          (mirrored fs laws answer.neg answer.peer opts.retries u') mid net' start_ok.sending
          server in
      let (text, cut) = Cuts-IsCut answer.neg.blksize _ d.blocks d.rest d.cuts in
      (
        record {
          front = f.front;
          peer = answer.peer;
          raw = f.raw;
          packet = f.packet;
          rest = f.behind.inbox;
          neg = answer.neg;
          blocks = d.blocks;
          arrived = rw from f.arrived;
          is_packet = f.is_packet;
          agreed = agreed;
          text = text;
          cut = cut;
          sent = d.sent;
          only =
              Adds-trans (number 1 d.blocks) before mid.outbox net'.outbox
                (asked (number 1 d.blocks)) d.adds;
          counted = total_is u'.total (length (wire_text opts.mode source)) over.fits (
              ap (λ (t : Bytes). (u'.total + length t) % u64_mod) (sym (over.last last))
              ∙ over.total);
        },
        refl,
        refl,
      )

  pub do_put_form :
      (fuel : ℕ) (opts : Options) (server : Address) (remote : Bytes) (source : SourceOf fs)
      (source_len : Option ℕ) (net : Net)
      → (request
              (put_arm (not (is_empty (build_request_options opts source_len))))
              opts.retries
              server
              (write_request fs opts remote source_len)
              (opts.retries + 1)
              0
            >>= λ answer.
                upload_all fs answer.neg answer.peer opts.retries fuel
                  (start source opts.mode answer.neg.blksize))
          net
        ≡ do_put fs fuel opts server remote (new_source source opts.mode) source_len net
  do_put_form fuel opts server remote source source_len net = unfold do_put in refl

  answered-Puts :
      (fuel : ℕ) (opts : Options) (source : SourceOf fs) (source_len : Option ℕ) (answer : Answer)
      (u' : Upload fs) (inbox : List Event) (before : Datagrams) (mid net' : Net)
      → ((frames : List Frame) → Adds frames before mid.outbox)
      → Found (put_arm (not (is_empty (build_request_options opts source_len)))) inbox answer mid
      → upload_all fs answer.neg answer.peer opts.retries fuel
          (start source opts.mode answer.neg.blksize)
          mid
        ≡ (ok (finished u'), net')
      → PutsTo opts source source_len inbox before u' net' answer
  answered-Puts fuel opts source source_len answer u' inbox before mid net' asked f e =
      go (put_arm_lem _ f.src f.packet f.action answer f.behind mid f.taken f.acted)
    where
      go :
          IsPutAnswer
            (not (is_empty (build_request_options opts source_len)))
            f.src
            f.packet
            answer
            f.behind
            mid
          → PutsTo opts source source_len inbox before u' net' answer
      go (accepted options want is answer_is same) =
          let wf = decode-oack-IsWellFormed _ options (f.is_packet ∙ ap ok is) in
          let (b, w) = merge_oack-positive options wf in
          let neg_is = ap (λ (a : Answer). a.neg) answer_is in
          started-Puts fuel opts source source_len answer u' inbox before mid net' asked f
            (rw (ap (λ (n : Negotiated). n.blksize) neg_is) b)
            (rw (ap (λ (n : Negotiated). n.windowsize) neg_is) w)
            (ap (λ (a : Answer). a.peer) answer_is) (inl (options, want, is, neg_is)) e
      go (acknowledged is answer_is same) =
          let neg_is = ap (λ (a : Answer). a.neg) answer_is in
          started-Puts fuel opts source source_len answer u' inbox before mid net' asked f
            (rw (ap (λ (n : Negotiated). n.blksize) neg_is) (omega arith))
            (rw (ap (λ (n : Negotiated). n.windowsize) neg_is) (omega arith))
            (ap (λ (a : Answer). a.peer) answer_is) (inr (is, neg_is)) e

  -- The upload that follows a first phase.
  pub found_Puts :
      (fuel : ℕ) (opts : Options) (server : Address) (remote : Bytes) (source : SourceOf fs)
      (source_len : Option ℕ) (u' : Upload fs) (answer : Answer) (net mid net' : Net)
      → request
          (put_arm (not (is_empty (build_request_options opts source_len))))
          opts.retries
          server
          (write_request fs opts remote source_len)
          (opts.retries + 1)
          0
          net
        ≡ (ok answer, mid)
      → do_put fs fuel opts server remote (new_source source opts.mode) source_len net
        ≡ (ok (finished u'), net')
      → PutsTo opts source source_len net.inbox net.outbox u' net' answer
  found_Puts fuel opts server remote source source_len u' answer net mid net' answered e =
      answered-Puts fuel opts source source_len answer u' net.inbox net.outbox mid net'
        (λ frames.
          request-Sends frames (not (is_empty (build_request_options opts source_len))) opts.retries
            server (write_request fs opts remote source_len) (opts.retries + 1) 0
            (write_request-NoData opts remote source_len) net mid answer answered)
        (request-Found (put_arm (not (is_empty (build_request_options opts source_len))))
          opts.retries server (write_request fs opts remote source_len) (opts.retries + 1) 0 answer
          net mid answered)
        (sym (
            ran-ok
              (request (put_arm (not (is_empty (build_request_options opts source_len))))
                opts.retries server (write_request fs opts remote source_len) (opts.retries + 1) 0
                net)
              (λ answer.
                upload_all fs answer.neg answer.peer opts.retries fuel
                  (start source opts.mode answer.neg.blksize))
              answer mid answered)
          ∙ do_put_form fuel opts server remote source source_len net
          ∙ e)

  -- An upload that ends well: a packet has come that is the OACK, if options were requested, or
  -- ACK(0), and its sender is the peer. The bytes of the source, encoded in the mode of the
  -- transfer, are cut into blocks of the size in the OACK (512 without one), the last of them
  -- shorter, and each block has been sent to the peer in a DATA packet under its number, from 1
  -- on modulo 2 ^ 16; no other DATA packet has been sent. The number of bytes that is returned is their length, as a u64.
  pub do_put-Puts :
      (fuel : ℕ) (opts : Options) (server : Address) (remote : Bytes) (source : SourceOf fs)
      (source_len : Option ℕ) (u' : Upload fs) (net net' : Net)
      → do_put fs fuel opts server remote (new_source source opts.mode) source_len net
        ≡ (ok (finished u'), net')
      → Puts opts source source_len net.inbox net.outbox u' net'
  do_put-Puts fuel opts server remote source source_len u' net net' e =
      let (answer, mid, answered, _) =
        ran-eq-ok
          (request (put_arm (not (is_empty (build_request_options opts source_len)))) opts.retries
            server (write_request fs opts remote source_len) (opts.retries + 1) 0 net)
          (λ answer.
            upload_all fs answer.neg answer.peer opts.retries fuel
              (start source opts.mode answer.neg.blksize))
          (do_put_form fuel opts server remote source source_len net ∙ e) in
      (found_Puts fuel opts server remote source source_len u' answer net mid net' answered e).0
