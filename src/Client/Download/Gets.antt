-- ===== src/Client/Download/Gets.antt =====
-- `do_get` of src/client.rs as a whole: what a successful download has stored.
use atftp.Blocks.Decoded.{decoded}
use atftp.Client.Download.Counts.{text, Counts, put_block-Counts, finish_sink-Counts}
use atftp.Client.Download.Loaded.{download-Loaded, first_Loaded, accepted_Loaded}
use atftp.Client.Download.Keeps.{download-keeps, store_block-keeps}
use atftp.Client.Download.{
  Download, new_download, store_block, download, first, with_answer, do_get, read_request,
}
use atftp.Client.Request.Answered.{Found, request-Found}
use atftp.Client.Request.Arms.{IsGetAnswer, accepted, begun, get_arm_lem}
use atftp.Client.Request.{Answer, get_arm, request}
use atftp.Client.Sink.{Writer, u64_mod}
use atftp.Client.{Options, build_request_options, merge_oack}
use atftp.Common.{
  ℕ, ◌+◌, ◌%◌, ◌≡◌, ◌⊎◌, inl, inr, refl, sym, ap, ◌∙◌, Bool, true, false, not, if◌then◌else◌, List,
  ◌∷◌, ◌++◌, none, some, length, take, ◌==◌, Bytes, arith, ◌<◌, length-append,
}
use atftp.Error.{Result, ok, err, unexpected_packet}
use atftp.Files.{Files, FilesLaws}
use atftp.Io.Receive.{ran-eq-ok, ran-ok}
use atftp.Io.{Address, Event, datagram, Net, ◌>>=◌, Ended, finished}
use atftp.Proto.Options.{OptionSet, is_empty}
use atftp.Proto.Packet.{Packet, block_data, oack, decode}
use atftp.Proto.{max_packet_size}
use atftp.Server.Receiver.Turns.{upload}
use atftp.Server.{Negotiated, defaults}

module _ (fs : Files) (laws : FilesLaws fs) where
  -- What a download that ends well has done.
  pub record Gets (opts : Options) (w : Writer fs) (inbox : List Event) (w' : Writer fs)
      : Type 0 where
    pub front : List Event
    pub peer : Address
    pub raw : Bytes
    pub packet : Packet
    pub rest : List Event
    pub neg : Negotiated
    pub blocks : List Bytes
    pub arrived : inbox ≡ front ++ datagram peer raw ∷ rest
    pub is_packet : decode (take max_packet_size raw) ≡ ok packet
    pub agreed :
        ((options : OptionSet) × (not (is_empty (build_request_options opts none)) ≡ true)
          × (packet ≡ oack options)
          × (neg ≡ merge_oack defaults options))
        ⊎ ((payload : Bytes) × (packet ≡ block_data 1 payload) × (neg ≡ defaults))
    pub uploaded : upload neg.blksize peer 1 (datagram peer raw ∷ rest) ≡ some blocks
    pub written : text fs laws w'.sink ≡ text fs laws w.sink ++ decoded w.decoder blocks
    pub counted : w'.bytes ≡ length (decoded w.decoder blocks) % u64_mod

  abbrev pub goes_on : ℕ → Options → Answer → Download fs → Net → Result (Ended (Download fs)) × Net
  goes_on fuel opts answer d net = download fs answer.neg answer.peer fuel opts.retries 0 d net

  pub with_form :
      (fuel : ℕ) (opts : Options) (w : Writer fs) (answer : Answer) (net : Net)
      → (first fs answer w answer.first_data >>= goes_on fuel opts answer) net
        ≡ with_answer fs fuel opts w answer net
  with_form fuel opts w answer net = unfold with_answer in refl

  abbrev start_of : Writer fs → ℕ
  start_of w = length (text fs laws w.sink)

  count_is :
      (bytes start size : ℕ)
      → bytes < u64_mod
      → (bytes + start) % u64_mod ≡ (start + size) % u64_mod
      → bytes ≡ size % u64_mod
  count_is bytes start size h e = omega arith

  Counts-counted :
      (w w' : Writer fs) (more : Bytes)
      → Counts fs laws (start_of w) w'
      → text fs laws w'.sink ≡ text fs laws w.sink ++ more
      → w'.bytes ≡ length more % u64_mod
  Counts-counted w w' more (fits, same) is = count_is w'.bytes (start_of w) (length more) fits (
      same
      ∙ ap (λ (t : Bytes). length t % u64_mod) is
      ∙ ap (λ (n : ℕ). n % u64_mod) (length-append (text fs laws w.sink) more))

  starts_counted : (w : Writer fs) → w.bytes ≡ 0 → Counts fs laws (start_of w) w
  starts_counted w h = (omega arith, omega arith)

  download-Counts :
      (neg : Negotiated) (peer : Address) (fuel retries : ℕ) (start : ℕ) (d d' : Download fs)
      (net net' : Net)
      → download fs neg peer fuel retries 0 d net ≡ (ok (finished d'), net')
      → Counts fs laws start d.writer
      → Counts fs laws start d'.writer
  download-Counts neg peer fuel retries start d d' net net' e c =
      download-keeps fs neg peer (Counts fs laws start) (put_block-Counts fs laws start)
        (finish_sink-Counts fs laws start) fuel retries 0 d d' net net' e c

  -- The download whose first phase found an answer.
  abbrev pub GetsFrom : Options → Writer fs → List Event → Writer fs → Answer → Type 0
  GetsFrom opts w inbox w' answer =
      (g : Gets opts w inbox w') × (g.peer ≡ answer.peer) × (g.neg ≡ answer.neg)

  accepted-Gets :
      (fuel : ℕ) (opts : Options) (w : Writer fs) (d' : Download fs) (f : List Event)
      (peer : Address) (raw : Bytes) (options : OptionSet) (inbox rest : List Event)
      (mid net' : Net)
      → w.bytes ≡ 0
      → inbox ≡ f ++ datagram peer raw ∷ rest
      → mid.inbox ≡ rest
      → decode (take max_packet_size raw) ≡ ok (oack options)
      → not (is_empty (build_request_options opts none)) ≡ true
      → with_answer fs fuel opts w
          (record { peer = peer; neg = merge_oack defaults options; first_data = none })
          mid
        ≡ (ok (finished d'), net')
      → GetsFrom opts w inbox d'.writer
          (record { peer = peer; neg = merge_oack defaults options; first_data = none })
  accepted-Gets fuel opts w d' f peer raw options inbox rest mid net' z is left p want e =
      let answer : Answer = record {
        peer = peer;
        neg = merge_oack defaults options;
        first_data = none;
      } in
      let e₁ = with_form fuel opts w answer mid ∙ e in
      let got =
        download-Loaded fs laws answer.neg peer fuel opts.retries 0 (new_download fs w) d' mid net'
          refl e₁ in
      let (blocks, uploaded, written) =
        accepted_Loaded fs laws answer.neg.blksize peer raw options rest w d'.writer p
          (rw left at got) in
      (
        record {
          front = f;
          peer = peer;
          raw = raw;
          packet = oack options;
          rest = rest;
          neg = answer.neg;
          blocks = blocks;
          arrived = is;
          is_packet = p;
          agreed = inl (options, want, refl, refl);
          uploaded = uploaded;
          written = written;
          counted =
              Counts-counted w d'.writer _
                (download-Counts answer.neg peer fuel opts.retries (start_of w) (new_download fs w)
                  d' mid net' e₁ (starts_counted w z))
                written;
        },
        refl,
        refl,
      )

  abbrev pub first_arm : Bool → Answer → Writer fs → ℕ → Bytes → Net → Result (Download fs) × Net
  first_arm one answer w block payload =
      if one
      then store_block fs answer.neg answer.peer (new_download fs w) block payload
      else λ net. (err unexpected_packet, net)

  unfoldable pub begun_by : Address → ℕ → Bytes → Answer
  begun_by peer block payload = record {
    peer = peer;
    neg = defaults;
    first_data = some (block, payload);
  }

  begun-Gets :
      (fuel : ℕ) (opts : Options) (w : Writer fs) (d' : Download fs) (f : List Event)
      (peer : Address) (raw payload : Bytes) (block : ℕ) (one : Bool) (inbox : List Event)
      (mid net' : Net)
      → w.bytes ≡ 0
      → inbox ≡ f ++ datagram peer raw ∷ mid.inbox
      → decode (take max_packet_size raw) ≡ ok (block_data block payload)
      → block == 1 ≡ one
      → (first_arm one (begun_by peer block payload) w block payload
            >>= goes_on fuel opts (begun_by peer block payload))
          mid
        ≡ (ok (finished d'), net')
      → GetsFrom opts w inbox d'.writer (begun_by peer block payload)
  unfolding begun_by
  begun-Gets fuel opts w d' f peer raw payload block false inbox mid net' z is p h e = cc
  begun-Gets fuel opts w d' f peer raw payload block true inbox mid net' z is p h e =
      let one_is : block ≡ 1 = ground arith in
      let (d, n₂, stored, e₂) =
        ran-eq-ok (store_block fs defaults peer (new_download fs w) block payload mid)
          (goes_on fuel opts (begun_by peer block payload)) e in
      let p' = p ∙ ap (λ (b : ℕ). ok (block_data b payload)) one_is in
      let stored' =
        ap (λ (b : ℕ). store_block fs defaults peer (new_download fs w) b payload mid) (sym one_is)
        ∙ stored in
      let (blocks, uploaded, written) =
        first_Loaded fs laws defaults peer fuel opts.retries w raw payload d d' mid n₂ net' p'
          stored' e₂ in
      (
        record {
          front = f;
          peer = peer;
          raw = raw;
          packet = block_data 1 payload;
          rest = mid.inbox;
          neg = defaults;
          blocks = blocks;
          arrived = is;
          is_packet = p';
          agreed = inr (payload, refl, refl);
          uploaded = uploaded;
          written = written;
          counted =
              Counts-counted w d'.writer _
                (download-Counts defaults peer fuel opts.retries (start_of w) d d' n₂ net' e₂ (
                  store_block-keeps fs defaults peer (Counts fs laws (start_of w))
                    (put_block-Counts fs laws (start_of w))
                    (finish_sink-Counts fs laws (start_of w)) (new_download fs w) d 1 payload mid n₂
                    stored' (starts_counted w z)))
                written;
        },
        refl,
        refl,
      )

  pub begun_form :
      (fuel : ℕ) (opts : Options) (w : Writer fs) (peer : Address) (block : ℕ) (payload : Bytes)
      (net : Net)
      → (first_arm (block == 1) (begun_by peer block payload) w block payload
            >>= goes_on fuel opts (begun_by peer block payload))
          net
        ≡ with_answer fs fuel opts w (begun_by peer block payload) net
  unfolding begun_by
  begun_form fuel opts w peer block payload net = unfold with_answer in refl

  abbrev pub wants : Options → Bool
  wants opts = not (is_empty (build_request_options opts none))

  answered-Gets :
      (fuel : ℕ) (opts : Options) (w : Writer fs) (d' : Download fs) (inbox : List Event)
      (answer : Answer) (mid net' : Net)
      → w.bytes ≡ 0
      → Found (get_arm (wants opts)) inbox answer mid
      → with_answer fs fuel opts w answer mid ≡ (ok (finished d'), net')
      → GetsFrom opts w inbox d'.writer answer
  unfolding begun_by
  answered-Gets fuel opts w d' inbox answer mid net' z f e =
      go (get_arm_lem (wants opts) f.src f.packet f.action answer f.behind mid f.taken f.acted)
    where
      from :
          {a : Answer}
          → answer ≡ a
          → GetsFrom opts w inbox d'.writer a
          → GetsFrom opts w inbox d'.writer answer
      from is (g, peer, neg) = (
        g,
        peer ∙ ap (λ (a : Answer). a.peer) (sym is),
        neg ∙ ap (λ (a : Answer). a.neg) (sym is),
      )

      go :
          IsGetAnswer (wants opts) f.src f.packet answer f.behind mid
          → GetsFrom opts w inbox d'.writer answer
      go (accepted options want is answer_is left) = from answer_is (
          accepted-Gets fuel opts w d' f.front f.src f.raw options inbox f.behind.inbox mid net' z
            f.arrived left (f.is_packet ∙ ap ok is) want
            (ap (λ (a : Answer). with_answer fs fuel opts w a mid) (sym answer_is) ∙ e))
      go (begun block payload is answer_is left) = from answer_is (
          begun-Gets fuel opts w d' f.front f.src f.raw payload block (block == 1) inbox mid net' z
            (f.arrived ∙ ap (λ (n : Net). f.front ++ datagram f.src f.raw ∷ n.inbox) (sym left))
            (f.is_packet ∙ ap ok is) refl
            (begun_form fuel opts w f.src block payload mid
              ∙ ap (λ (a : Answer). with_answer fs fuel opts w a mid) (sym answer_is)
              ∙ e))

  unfoldable pub asks : Options → Address → Bytes → Net → Result Answer × Net
  asks opts server remote =
      request (get_arm (wants opts)) opts.retries server (read_request fs opts remote)
        (opts.retries + 1) 0

  pub do_get_form :
      (fuel : ℕ) (opts : Options) (server : Address) (remote : Bytes) (w : Writer fs) (net : Net)
      → (asks opts server remote >>= λ answer. with_answer fs fuel opts w answer) net
        ≡ do_get fs fuel opts server remote w net
  unfolding asks
  do_get_form fuel opts server remote w net = unfold do_get in refl

  -- The download that follows a first phase.
  pub found_Gets :
      (fuel : ℕ) (opts : Options) (server : Address) (remote : Bytes) (w : Writer fs)
      (d' : Download fs) (answer : Answer) (net mid net' : Net)
      → w.bytes ≡ 0
      → request
          (get_arm (wants opts))
          opts.retries
          server
          (read_request fs opts remote)
          (opts.retries + 1)
          0
          net
        ≡ (ok answer, mid)
      → do_get fs fuel opts server remote w net ≡ (ok (finished d'), net')
      → GetsFrom opts w net.inbox d'.writer answer
  unfolding asks
  found_Gets fuel opts server remote w d' answer net mid net' z answered e =
      answered-Gets fuel opts w d' net.inbox answer mid net' z
        (request-Found (get_arm (wants opts)) opts.retries server (read_request fs opts remote)
          (opts.retries + 1) 0 answer net mid answered)
        (sym (
            ran-ok
              (request (get_arm (wants opts)) opts.retries server (read_request fs opts remote)
                (opts.retries + 1) 0 net)
              (λ answer. with_answer fs fuel opts w answer) answer mid answered)
          ∙ do_get_form fuel opts server remote w net
          ∙ e)

  -- A download that ends well, into a sink that has counted no bytes yet: a packet has come that is
  -- the OACK, if options were requested, or block 1, and its sender is the peer. The packets of
  -- the peer from there on have held, in order from block 1 and each taken once, blocks up to one
  -- that is shorter than the block size of the OACK (512 without one). The sink has grown by these
  -- blocks, decoded in the mode of the transfer, and the number of bytes that is returned is
  -- their length, as a u64.
  pub do_get-Gets :
      (fuel : ℕ) (opts : Options) (server : Address) (remote : Bytes) (w : Writer fs)
      (d' : Download fs) (net net' : Net)
      → w.bytes ≡ 0
      → do_get fs fuel opts server remote w net ≡ (ok (finished d'), net')
      → Gets opts w net.inbox d'.writer
  unfolding asks
  do_get-Gets fuel opts server remote w d' net net' z e =
      let (answer, mid, answered, _) =
        ran-eq-ok (asks opts server remote net) (λ answer. with_answer fs fuel opts w answer)
          (do_get_form fuel opts server remote w net ∙ e) in
      (found_Gets fuel opts server remote w d' answer net mid net' z answered e).0
