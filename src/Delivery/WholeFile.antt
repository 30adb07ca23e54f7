-- ===== src/Delivery/WholeFile.antt =====
-- The whole file arrives: `serve_rrq` with `do_get`, and `do_put` with `serve_wrq`.
use atftp.Blocks.Decoded.{decoded}
use atftp.Blocks.Stream.{encoded}
use atftp.Client.Download.Counts.{text}
use atftp.Client.Download.Gets.{Gets, found_Gets}
use atftp.Client.Sink.{Writer}
use atftp.Client.Source.{SourceOf, encoding}
use atftp.Client.Upload.Puts.{Puts, found_Puts}
use atftp.Client.Upload.Sources.{left_of}
use atftp.Client.Upload.{Upload}
use atftp.Client.{Options, build_request_options}
use atftp.Common.{
  ℕ, ◌+◌, ◌*◌, ◌≡◌, ◌<◌, ◌≤◌, sym, ap, subst, ◌∙◌, not, List, [], ◌∷◌, ◌++◌, Option, none, some,
  length, Bytes, arith,
}
use atftp.Delivery.Upload.{upload-Carries}
use atftp.Delivery.Network.{Brings, Brings-Carries, Carries-behind, number-Fits, IsCut-length}
use atftp.Client.Download.{Download, do_get, read_request}
use atftp.Client.Request.{Answer, request, get_arm, put_arm}
use atftp.Client.Upload.Loop.{do_put, write_request}
use atftp.Client.Source.{new_source}
use atftp.Error.{Result, ok}
use atftp.Io.{finished}
use atftp.Io.Sends.{Datagrams}
use atftp.PathSafe.{resolve}
use atftp.Proto.Options.Insert.{IsWellFormed}
use atftp.Proto.Options.{is_empty}
use atftp.Server.Negotiate.{Offer, negotiate}
use atftp.Server.Negotiate.Answers.{negotiate-IsAgreed}
use atftp.Server.Sender.Loop.{serve_rrq}
use atftp.Server.Sender.Serves.{HasSizes, serve_rrq-Serves}
use atftp.Server.Sender.{Sender}
use atftp.Server.Serve.{serve_wrq}
use atftp.Server.Serve.Stores.{serve_wrq-Stores}
use atftp.Server.{Negotiated}
use atftp.Files.{Files, FilesLaws, Attempt, done}
use atftp.Io.{Address, Event, datagram, Net}
use atftp.Netascii.Chunks.{concat}
use atftp.Netascii.RoundTrip.{to_wire_lem, from_chunks-to_wire}
use atftp.Proto.Options.{Mode, net_ascii, octet, OptionSet}
use atftp.Server.Receiver.{Receiver}
use atftp.Server.Sender.Fills.{number}
use atftp.Server.Sender.Loop.{encodes}
use atftp.Server.Sender.Serves.{Serves}
use atftp.Server.Serve.Stores.{Stores}
use atftp.Server.Serve.{decoder_of}
use atftp.Server.{Config}
use atftp.Window.{u16_mod}

-- Blocks that were cut off a text, encoded in a mode, are decoded to the text in that mode.
encoding_back :
    (mode : Mode) (s : Bytes) (blocks : List Bytes)
    → encoded (encoding mode) s ≡ concat blocks
    → decoded (decoder_of mode) blocks ≡ s
encoding_back net_ascii s blocks h = from_chunks-to_wire s blocks (sym h ∙ sym (to_wire_lem s))
encoding_back octet s blocks h = sym h

encodes_back :
    (fs : Files) (mode : Mode) (s : Bytes) (blocks : List Bytes)
    → encoded (encodes fs mode) s ≡ concat blocks
    → decoded (decoder_of mode) blocks ≡ s
encodes_back fs net_ascii s blocks h = encoding_back net_ascii s blocks h
encodes_back fs octet s blocks h = encoding_back octet s blocks h

-- Both offers of one negotiation.
one_offer :
    {x y : OptionSet} {m n : Negotiated} {o : Option Offer}
    → o ≡ some (x, m)
    → o ≡ some (y, n)
    → n ≡ m
one_offer a b = cc

one_path : {a b : Bytes} {r : Result Bytes} → r ≡ ok a → r ≡ ok b → b ≡ a
one_path a b = cc

one_attempt : {A : Type 0} {a b : A} {r : Attempt A} → r ≡ done a → r ≡ done b → b ≡ a
one_attempt a b = cc

one_answer :
    {a b : Answer} {m n : Net} {r : Result Answer × Net} → r ≡ (ok a, m) → r ≡ (ok b, n) → b ≡ a
one_answer a b = cc

-- The server's files come first, then the client's.
module _ (fs : Files) (laws : FilesLaws fs) (gs : Files) (gaws : FilesLaws gs) where
  -- What the client has taken is what the server has cut.
  whole_get :
      (cfg : Config) (client : Address) (filename : Bytes) (options : OptionSet) (net net' : Net)
      (opts : Options) (w w' : Writer gs) (inbox : List Event)
      → (s : Serves fs laws cfg client filename opts.mode options net net')
      → (g : Gets gs gaws opts w inbox w') → s.neg.blksize ≤ 65464
      → net.outbox ≡ []
      → w.decoder ≡ decoder_of opts.mode
      → g.neg.blksize ≡ s.neg.blksize
      → length s.blocks < u16_mod
      → Brings g.peer client net'.outbox inbox
      → text gs gaws w'.sink ≡ text gs gaws w.sink ++ laws.content s.file
  whole_get cfg client filename options net net' opts w w' inbox s g small fresh dec size few
        brings =
      let frames = number 1 s.blocks in
      let carries =
        Brings-Carries frames (number-Fits s.neg.blksize 1 s.blocks small (omega arith) s.cut)
          g.peer client net.outbox net'.outbox fresh s.only inbox brings in
      let blocks =
        upload-Carries s.neg.blksize g.peer s.blocks few (datagram g.peer g.raw ∷ g.rest) g.blocks
          s.cut
          (Carries-behind g.peer frames g.front (datagram g.peer g.raw ∷ g.rest)
            (rw g.arrived at carries))
          (rw size at g.uploaded) in
      g.written
      ∙ ap (λ (t : Bytes). text gs gaws w.sink ++ t)
          (ap (λ (d : Option _). decoded d g.blocks) dec
            ∙ ap (decoded (decoder_of opts.mode)) blocks
            ∙ encodes_back fs opts.mode (laws.content s.file) s.blocks s.text)

  -- A read request that `serve_rrq` has served without an error, and a download that `do_get` has made
  -- without one, in one mode. The options are as they are decoded, the sizes of files are those of
  -- a u64, the server's socket is fresh, and the client's sink has counted no bytes and decodes by
  -- the mode. Where the client has found the server's block size in its answer, where the file is,
  -- encoded, shorter than 65535 blocks of that size, and where all that comes to the client from its
  -- peer is among the datagrams that the server has sent to the client, in any order, lost or
  -- repeated, the client's sink has grown by the content of the server's file.
  pub serve_rrq-do_get :
      (fuel : ℕ) (cfg : Config) (client : Address) (filename : Bytes) (options : OptionSet)
      (s' : Sender fs) (net net' : Net) (path : Bytes) (file : fs.Handle) (size : ℕ)
      (told : OptionSet) (neg : Negotiated) (client_fuel : ℕ) (opts : Options) (server : Address)
      (w : Writer gs) (d' : Download gs) (answer : Answer) (client_net mid client_net' : Net)
      → IsWellFormed options
      → HasSizes fs laws
      → resolve cfg.root filename ≡ ok path
      → fs.open_read path ≡ done file
      → fs.len file ≡ done size
      → negotiate cfg options (some size) ≡ some (told, neg)
      → serve_rrq fs fuel cfg client filename opts.mode options net ≡ (ok (finished s'), net')
      → net.outbox ≡ []
      → w.bytes ≡ 0
      → w.decoder ≡ decoder_of opts.mode
      → request
          (get_arm (not (is_empty (build_request_options opts none))))
          opts.retries
          server
          (read_request gs opts filename)
          (opts.retries + 1)
          0
          client_net
        ≡ (ok answer, mid)
      → do_get gs client_fuel opts server filename w client_net ≡ (ok (finished d'), client_net')
      → answer.neg.blksize ≡ neg.blksize
      → length (encoded (encodes fs opts.mode) (laws.content file)) < 65535 * neg.blksize
      → Brings answer.peer client net'.outbox client_net.inbox
      → text gs gaws d'.writer.sink ≡ text gs gaws w.sink ++ laws.content file
  serve_rrq-do_get fuel cfg client filename options s' net net' path file size told neg client_fuel
        opts server w d' answer client_net mid client_net' wf sizes p o z n served fresh counted dec
        asked got same short brings =
      let s =
        serve_rrq-Serves fs laws fuel cfg client filename opts.mode options net net' s' wf sizes
          served in
      let path_is = one_path p s.resolved in
      let file_is = one_attempt o (ap (λ (b : Bytes). fs.open_read b) (sym path_is) ∙ s.opened) in
      let size_is = one_attempt z (ap (λ (h : fs.Handle). fs.len h) (sym file_is) ∙ s.sized) in
      let neg_is =
        one_offer n (ap (λ (k : ℕ). negotiate cfg options (some k)) (sym size_is) ∙ s.negotiated) in
      let (g, peer_is, g_neg) =
        found_Gets gs gaws client_fuel opts server filename w d' answer client_net mid client_net'
          counted asked got in
      let size_same : g.neg.blksize ≡ s.neg.blksize =
        ap (λ (m : Negotiated). m.blksize) g_neg
        ∙ same
        ∙ ap (λ (m : Negotiated). m.blksize) (sym neg_is) in
      let agreed =
        negotiate-IsAgreed cfg options told (some size) neg wf (sizes path file size o z) n in
      let blksize_is = ap (λ (m : Negotiated). m.blksize) neg_is in
      let small : s.neg.blksize ≤ 65464 = omega (arith, agreed.blksize.1, blksize_is) in
      let long : length (concat s.blocks) < 65535 * s.neg.blksize = omega (
        arith,
        short,
        blksize_is,
        ap (λ (h : fs.Handle). length (encoded (encodes fs opts.mode) (laws.content h))) file_is,
        ap (length {A = ℕ}) s.text,
      ) in
      let few = IsCut-length s.neg.blksize 65535 s.blocks s.cut long in
      whole_get cfg client filename options net net' opts w d'.writer client_net.inbox s g small
        fresh dec size_same (omega arith)
        (subst (λ (a : Address). Brings a client net'.outbox client_net.inbox) (sym peer_is) brings)
      ∙ ap (λ (h : fs.Handle). text gs gaws w.sink ++ laws.content h) file_is

  -- What the server has taken is what the client has cut.
  whole_put :
      (cfg : Config) (client : Address) (filename : Bytes) (options : OptionSet) (opts : Options)
      (source : SourceOf gs) (source_len : Option ℕ) (u' : Upload gs) (client_inbox : List Event)
      (inbox : List Event) (before : Datagrams) (client_net' : Net) (r' : Receiver fs)
      (tid : Address)
      → (p : Puts gs gaws opts source source_len client_inbox before u' client_net')
      → (r : Stores fs laws cfg client filename opts.mode options inbox r') → p.neg.blksize ≤ 65464
      → before ≡ []
      → r.neg.blksize ≡ p.neg.blksize
      → length p.blocks < u16_mod
      → Brings client tid client_net'.outbox inbox
      → laws.written r'.file ≡ laws.written r.file ++ left_of gs gaws source
  whole_put cfg client filename options opts source source_len u' client_inbox inbox before
        client_net' r' tid p r small fresh size few brings =
      let carries =
        Brings-Carries (number 1 p.blocks)
          (number-Fits p.neg.blksize 1 p.blocks small (omega arith) p.cut) client tid before
          client_net'.outbox fresh p.only inbox brings in
      let blocks =
        upload-Carries p.neg.blksize client p.blocks few inbox r.blocks p.cut carries
          (rw size at r.uploaded) in
      r.written
      ∙ ap (λ (t : Bytes). laws.written r.file ++ t)
          (ap (decoded (decoder_of opts.mode)) blocks
            ∙ encoding_back opts.mode (left_of gs gaws source) p.blocks p.text)

  -- An upload that `do_put` has made without an error, and a write request that `serve_wrq` has served
  -- without one, in one mode. The options are as they are decoded, and the client's socket is
  -- fresh. Where the client has found the server's block size in its answer, where the source is,
  -- encoded, shorter than 65535 blocks of that size, and where all that comes to the server from the
  -- client is among the datagrams that the client has sent to its peer, in any order, lost or
  -- repeated, the content of the client's source stands in the file that the server has opened,
  -- behind what it held.
  pub do_put-serve_wrq :
      (fuel : ℕ) (cfg : Config) (client : Address) (filename : Bytes) (options : OptionSet)
      (r' : Receiver fs) (net net' : Net) (path : Bytes) (file : fs.Handle) (told : OptionSet)
      (neg : Negotiated) (client_fuel : ℕ) (opts : Options) (server : Address)
      (source : SourceOf gs) (source_len : Option ℕ) (u' : Upload gs) (answer : Answer)
      (client_net mid client_net' : Net)
      → IsWellFormed options
      → resolve cfg.root filename ≡ ok path
      → fs.open_write cfg.allow_overwrite path ≡ done file
      → negotiate cfg options none ≡ some (told, neg)
      → serve_wrq fs fuel cfg client filename opts.mode options net ≡ (ok (finished r'), net')
      → client_net.outbox ≡ []
      → request
          (put_arm (not (is_empty (build_request_options opts source_len))))
          opts.retries
          server
          (write_request gs opts filename source_len)
          (opts.retries + 1)
          0
          client_net
        ≡ (ok answer, mid)
      → do_put gs client_fuel opts server filename
          (new_source source opts.mode)
          source_len
          client_net
        ≡ (ok (finished u'), client_net')
      → answer.neg.blksize ≡ neg.blksize
      → length (encoded (encoding opts.mode) (left_of gs gaws source)) < 65535 * neg.blksize
      → Brings client answer.peer client_net'.outbox net.inbox
      → laws.written r'.file ≡ laws.written file ++ left_of gs gaws source
  do_put-serve_wrq fuel cfg client filename options r' net net' path file told neg client_fuel opts
        server source source_len u' answer client_net mid client_net' wf p o n served fresh asked
        put same short brings =
      let r =
        serve_wrq-Stores fs laws fuel cfg client filename opts.mode options net net' r' served in
      let path_is = one_path p r.resolved in
      let file_is =
        one_attempt o
          (ap (λ (b : Bytes). fs.open_write cfg.allow_overwrite b) (sym path_is) ∙ r.opened) in
      let neg_is = one_offer n r.negotiated in
      let (u, _, u_neg) =
        found_Puts gs gaws client_fuel opts server filename source source_len u' answer client_net
          mid client_net' asked put in
      let agreed = negotiate-IsAgreed cfg options told none neg wf tt n in
      let size_is : u.neg.blksize ≡ neg.blksize = ap (λ (m : Negotiated). m.blksize) u_neg ∙ same in
      let blksize_is = ap (λ (m : Negotiated). m.blksize) neg_is in
      let small : u.neg.blksize ≤ 65464 = omega (arith, agreed.blksize.1, size_is) in
      let long : length (concat u.blocks) < 65535 * u.neg.blksize =
        omega (arith, short, size_is, ap (length {A = ℕ}) u.text) in
      let few = IsCut-length u.neg.blksize 65535 u.blocks u.cut long in
      whole_put cfg client filename options opts source source_len u' client_net.inbox net.inbox
        client_net.outbox client_net' r' answer.peer u r small fresh (blksize_is ∙ sym size_is)
        (omega arith) brings
      ∙ ap (λ (h : fs.Handle). laws.written h ++ left_of gs gaws source) file_is
