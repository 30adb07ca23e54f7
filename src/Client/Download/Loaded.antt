-- ===== src/Client/Download/Loaded.antt =====
-- What the loop of `do_get` in src/client.rs has stored when it returns, from each of the answers
-- that start it.
use atftp.Blocks.Decoded.{decoded}
use atftp.Client.Download.Alike.{seen, download-run, accept-seen}
use atftp.Client.Download.Counts.{text, write_sink_lem, flush_sink_lem}
use atftp.Client.Download.Sinks.{sinks, count_more, count_same}
use atftp.Client.Download.{Download, new_download, store_block, download}
use atftp.Client.Sink.{Sink, Writer, write_sink, flush_sink}
use atftp.Common.{
  ℕ, suc, ◌≡◌, refl, ap, ◌∙◌, true, false, List, [], ◌∷◌, ◌++◌, some, take, ◌==◌, Bytes, arith,
}
use atftp.Error.{Result, ok, other}
use atftp.Files.{Files, FilesLaws, Attempt, done, failed}
use atftp.Io.Receive.{ran-ok}
use atftp.Io.{Address, Event, datagram, Net, ◌>>=◌, pure, recv_loop, recv_one, finished}
use atftp.Proto.Options.{OptionSet}
use atftp.Proto.Packet.{Packet, block_data, oack, decode}
use atftp.Proto.{max_packet_size}
use atftp.Server.Receiver.Stored.{after_round, run_round, run-Holds}
use atftp.Server.Receiver.Turns.{pick, upload, upload_peer}
use atftp.Server.Receiver.{accept, on_data, on_packet, on_received}
use atftp.Server.{Negotiated}

==-self : (a : ℕ) → a == a ≡ true
==-self a = ground arith

module _ (fs : Files) (laws : FilesLaws fs) where
  -- The sinks obey the laws of files.
  pub count_more_done :
      (bytes : ℕ) (buf : Bytes) (a : Attempt (Sink fs.Handle)) (h : Sink fs.Handle × ℕ)
      → count_more fs bytes buf a ≡ done h
      → a ≡ done h.0
  count_more_done bytes buf (done sink) h e = cc
  count_more_done bytes buf (failed kind) h e = cc

  pub count_same_done :
      (bytes : ℕ) (a : Attempt (Sink fs.Handle)) (h : Sink fs.Handle × ℕ)
      → count_same fs bytes a ≡ done h
      → a ≡ done h.0
  count_same_done bytes (done sink) h e = cc
  count_same_done bytes (failed kind) h e = cc

  pub no_read :
      (h' : Sink fs.Handle × ℕ) (bs : Bytes)
      → ◌≡◌ {A = Attempt (Bytes × (Sink fs.Handle × ℕ))} (failed other) (done (bs, h'))
      → [] ≡ bs ++ []
  no_read h' bs e = cc

  abbrev pub sink_laws : FilesLaws (sinks fs)
  sink_laws = record {
    content = λ h. [];
    written = λ h. text fs laws h.0;
    read_front = λ h h' n bs e. no_read h' bs e;
    read_end = λ h h' n pos e. refl;
    write_adds = λ h h' bs e.
        write_sink_lem fs laws h.0 h'.0 bs (count_more_done h.1 bs (write_sink fs h.0 bs) h' e);
    flush_keeps =
        λ h h' e. flush_sink_lem fs laws h.0 h'.0 (count_same_done h.1 (flush_sink fs h.0) h' e);
  }

  -- From a state of the loop, these blocks came and are in the sink.
  abbrev pub Loaded : ℕ → Address → ℕ → List Event → Writer fs → Writer fs → Type 0
  Loaded blksize peer n inbox w w' =
      (blocks : List Bytes) × (upload blksize peer n inbox ≡ some blocks)
      × (text fs laws w'.sink ≡ text fs laws w.sink ++ decoded w.decoder blocks)

  pub download-Loaded :
      (neg : Negotiated) (peer : Address) (fuel retries attempt : ℕ) (d d' : Download fs)
      (net net' : Net)
      → d.finished ≡ false
      → download fs neg peer fuel retries attempt d net ≡ (ok (finished d'), net')
      → Loaded neg.blksize peer d.next_block net.inbox d.writer d'.writer
  download-Loaded neg peer fuel retries attempt d d' net net' open_ e =
      run-Holds (sinks fs) sink_laws fuel attempt (seen fs neg peer retries d)
        (seen fs neg peer retries d') net net' open_
        (download-run fs neg peer retries fuel attempt d d' net net' e)

  -- The first packet, when it is a block, is to the server a packet like the others.
  received_first :
      (peer : Address) (raw : Bytes) (net : Net)
      → recv_one peer (record net { inbox = datagram peer raw ∷ net.inbox })
        ≡ (ok (some (take max_packet_size raw)), net)
  received_first peer raw net = unfold recv_one recv_loop in rw (==-self peer, recv_loop) refl

  handled_first :
      (neg : Negotiated) (peer : Address) (retries : ℕ) (w : Writer fs) (payload : Bytes)
      (d : Download fs) (net mid : Net)
      → store_block fs neg peer (new_download fs w) 1 payload net ≡ (ok d, mid)
      → on_packet
          (sinks fs)
          0
          (seen fs neg peer retries (new_download fs w))
          (ok (block_data 1 payload))
          net
        ≡ (ok (0, seen fs neg peer retries d), mid)
  handled_first neg peer retries w payload d net mid e =
      unfold on_packet in
      ran-ok (on_data (sinks fs) (seen fs neg peer retries (new_download fs w)) 1 payload net)
        (λ r'. pure (0, r')) (seen fs neg peer retries d) mid
        (turn ∙ accept-seen fs neg peer retries (new_download fs w) d 1 payload net mid e)
    where
      turn :
          on_data (sinks fs) (seen fs neg peer retries (new_download fs w)) 1 payload net
          ≡ accept (sinks fs) (seen fs neg peer retries (new_download fs w)) 1 payload net
      turn = unfold on_data in refl

  pub first_Loaded :
      (neg : Negotiated) (peer : Address) (fuel retries : ℕ) (w : Writer fs) (raw payload : Bytes)
      (d d' : Download fs) (net mid net' : Net)
      → decode (take max_packet_size raw) ≡ ok (block_data 1 payload)
      → store_block fs neg peer (new_download fs w) 1 payload net ≡ (ok d, mid)
      → download fs neg peer fuel retries 0 d mid ≡ (ok (finished d'), net')
      → Loaded neg.blksize peer 1 (datagram peer raw ∷ net.inbox) w d'.writer
  first_Loaded neg peer fuel retries w raw payload d d' net mid net' p e e' =
      run-Holds (sinks fs) sink_laws (suc fuel) 0 (seen fs neg peer retries (new_download fs w))
        (seen fs neg peer retries d') net₀ net' refl
        (run_round (sinks fs) fuel 0 (seen fs neg peer retries (new_download fs w)) net₀ refl
          ∙ ran-ok (recv_one peer net₀)
              (λ got.
                on_received (sinks fs) 0 (seen fs neg peer retries (new_download fs w)) got
                >>= after_round (sinks fs) fuel)
              (some (take max_packet_size raw)) net (received_first peer raw net)
          ∙ ran-ok
              (on_packet (sinks fs) 0 (seen fs neg peer retries (new_download fs w))
                (decode (take max_packet_size raw)) net)
              (after_round (sinks fs) fuel) (0, seen fs neg peer retries d) mid
              (ap
                  (λ (r : Result Packet).
                    on_packet (sinks fs) 0 (seen fs neg peer retries (new_download fs w)) r net)
                  p
                ∙ handled_first neg peer retries w payload d net mid e)
          ∙ download-run fs neg peer retries fuel 0 d d' mid net' e')
    where
      net₀ : Net
      net₀ = record net { inbox = datagram peer raw ∷ net.inbox }

  -- Behind an OACK.
  pub accepted_Loaded :
      (blksize : ℕ) (peer : Address) (raw : Bytes) (options : OptionSet) (inbox : List Event)
      (w w' : Writer fs)
      → decode (take max_packet_size raw) ≡ ok (oack options)
      → Loaded blksize peer 1 inbox w w'
      → Loaded blksize peer 1 (datagram peer raw ∷ inbox) w w'
  accepted_Loaded blksize peer raw options inbox w w' p (blocks, is, text_is) =
      (blocks, upload_peer blksize peer 1 peer raw inbox (==-self peer) ∙ passed p ∙ is, text_is)
    where
      passed :
          decode (take max_packet_size raw) ≡ ok (oack options)
          → pick blksize 1 (decode (take max_packet_size raw)) (λ m. upload blksize peer m inbox)
            ≡ upload blksize peer 1 inbox
      passed q = rw q refl
