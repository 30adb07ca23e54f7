-- ===== src/Client/Upload/Ends.antt =====
-- `do_put` of src/client.rs comes to an end.
use atftp.Client.{Options, build_request_options}
use atftp.Client.Agrees.{merge_oack-positive}
use atftp.Client.Request.{Answer, put_arm, request}
use atftp.Client.Request.Answered.{Found, request-Found}
use atftp.Client.Request.Arms.{IsPutAnswer, accepted, acknowledged, put_arm_lem}
use atftp.Client.Source.{SourceOf, new_source}
use atftp.Client.Upload.{Upload, fill_flight}
use atftp.Client.Upload.Alike.{mirror_end, SameEnd, await_ack-await}
use atftp.Client.Upload.Loop.{upload_all, write_request, do_put, behind_ack, await_any, send_flight}
use atftp.Client.Upload.Puts.{start, wire_text, start-IsUploading, do_put_form}
use atftp.Client.Upload.Rounds.{Uploading, mirror, server_turn, Same-Uploading, upload_form}
use atftp.Client.Upload.Sources.{sources}
use atftp.Common.{
  ℕ, suc, ◌+◌, ◌≡◌, ◌<◌, ap, ◌∙◌, Bool, true, false, not, List, ◌∷◌, Option, length, Bytes, arith,
  zero, ◌&&◌, if◌then◌else◌, ◌≢◌, length-append,
}
use atftp.Error.{Result, ok}
use atftp.Files.{Files, FilesLaws}
use atftp.Io.{Address, Event, datagram, Net, Ended, finished, pure, panicked, out_of_fuel}
use atftp.Io.Receive.{ran-eq-ok, continue-eq-ok, ran-ok, returned-eq}
use atftp.Proto.Options.{is_empty}
use atftp.Proto.Packet.Sound.{decode-oack-IsWellFormed}
use atftp.Server.{Negotiated}
use atftp.Server.Sender.{Sender}
use atftp.Server.Sender.Ends.{run_returns}
use atftp.Server.Sender.Loop.{behind_window, await_move, turn, none_in_flight, run}

module _ (fs : Files) (laws : FilesLaws fs) (neg : Negotiated) (peer : Address) (retries : ℕ) where
  abbrev mir : Upload fs → Sender (sources fs)
  mir u = mirror fs laws neg peer retries u

  abbrev rounds : ℕ → Upload fs → Net → Result (Ended (Upload fs)) × Net
  rounds fuel u = upload_all fs neg peer retries fuel u

  abbrev RunsOut : ℕ → ℕ → Type 0
  RunsOut size fuel =
      (u : Upload fs) (net net' : Net)
      → Uploading fs laws neg peer retries size u
      → rounds fuel u net ≡ (ok out_of_fuel, net')
      → run (sources fs) fuel (mir u) net ≡ (ok out_of_fuel, net')

  on_again :
      (size fuel : ℕ) (u : Upload fs) (over : Bool) (net net' : Net)
      → RunsOut size fuel
      → Uploading fs laws neg peer retries size u
      → (if over then pure (finished u) else rounds fuel u) net ≡ (ok out_of_fuel, net')
      → run (sources fs) fuel (mir u) net ≡ (ok out_of_fuel, net')
  on_again size fuel u true net net' ih w e = cc
  on_again size fuel u false net net' ih w e = ih u net net' w e

  turned_out :
      (size fuel : ℕ) (u : Upload fs) (nothing : Bool) (net net' : Net)
      → RunsOut size fuel
      → Uploading fs laws neg peer retries size u
      → send_flight fs neg peer retries (rounds fuel) u nothing net ≡ (ok out_of_fuel, net')
      → turn (sources fs) (run (sources fs) fuel) (mir u) nothing net ≡ (ok out_of_fuel, net')
  turned_out size fuel u true net net' ih w e = cc
  turned_out size fuel u false net net' ih w e =
      let (end_, mid, waited, e₁) =
        ran-eq-ok (await_any fs neg peer retries u net)
          (behind_ack fs neg peer retries (rounds fuel)) e in
      let (server, same) =
        await_ack-await fs laws neg peer retries (length net.inbox + retries + 2) 0 u end_ net mid
          waited in
      go end_ mid server same e₁
    where
      go :
          (end_ : Ended (Upload fs)) (mid : Net)
          → await_move (sources fs) (mir u) net
            ≡ (ok (mirror_end fs laws neg peer retries end_), mid)
          → SameEnd fs laws neg peer retries u end_
          → behind_ack fs neg peer retries (rounds fuel) end_ mid ≡ (ok out_of_fuel, net')
          → turn (sources fs) (run (sources fs) fuel) (mir u) false net ≡ (ok out_of_fuel, net')
      go panicked mid server same e₁ = cc
      go out_of_fuel mid server same e₁ =
          let (_, net_is) = returned-eq e₁ in
          ran-ok (await_move (sources fs) (mir u) net)
            (behind_window (sources fs) (run (sources fs) fuel)) out_of_fuel mid server
          ∙ ap (λ (n : Net). (ok out_of_fuel, n)) net_is
      go (finished u₂) mid server same e₁ =
          ran-ok (await_move (sources fs) (mir u) net)
            (behind_window (sources fs) (run (sources fs) fuel)) (finished (mir u₂)) mid server
          ∙ on_again size fuel u₂ (none_in_flight u₂.in_flight && u₂.last_sent_short) mid net' ih
              (Same-Uploading fs laws neg peer retries size u u₂ same w) e₁

  -- Where the client's loop runs out of fuel, the server's does.
  upload_all_out : (size fuel : ℕ) → RunsOut size fuel
  upload_all_out size zero u net net' w e =
      let e' : ◌≡◌ {A = Result (Ended (Upload fs)) × Net} (ok out_of_fuel, net)
          (ok out_of_fuel, net') =
        unfold upload_all in e in
      let (_, net_is) = returned-eq e' in unfold run in ap (λ (n : Net). (ok out_of_fuel, n)) net_is
  upload_all_out size (suc fuel) u net net' w e =
      let (u₁, filled, e₁) =
        continue-eq-ok (fill_flight fs neg neg.windowsize u)
          (λ u'. send_flight fs neg peer retries (rounds fuel) u' (none_in_flight u'.in_flight))
          (upload_form fs laws neg peer retries fuel u net ∙ e) in
      let (server, w₁) = server_turn fs laws neg peer retries size fuel u u₁ net w filled in
      server
      ∙ turned_out size fuel u₁ (none_in_flight u₁.in_flight) net net' (upload_all_out size fuel) w₁
          e₁

  pub upload_all_ends :
      (size fuel : ℕ) (u : Upload fs) (net net' : Net)
      → Uploading fs laws neg peer retries size u
      → length net.inbox < fuel
      → rounds fuel u net ≢ (ok out_of_fuel, net')
  upload_all_ends size fuel u net net' w enough e =
      run_returns (sources fs) fuel (mir u) net net' enough
        (upload_all_out size fuel u net net' w e)

module _ (fs : Files) (laws : FilesLaws fs) where
  started_ends :
      (fuel : ℕ) (opts : Options) (source : SourceOf fs) (answer : Answer) (mid net' : Net)
      → 0 < answer.neg.blksize
      → 0 < answer.neg.windowsize
      → length mid.inbox < fuel
      → upload_all fs answer.neg answer.peer opts.retries fuel
          (start fs laws source opts.mode answer.neg.blksize)
          mid
        ≢ (ok out_of_fuel, net')
  started_ends fuel opts source answer mid net' b w enough e =
      upload_all_ends fs laws answer.neg answer.peer opts.retries
        (length (wire_text fs laws opts.mode source)) fuel
        (start fs laws source opts.mode answer.neg.blksize) mid net'
        (start-IsUploading fs laws answer.neg answer.peer opts.retries source opts.mode b w) enough
        e

  answered_ends :
      (fuel : ℕ) (opts : Options) (source : SourceOf fs) (source_len : Option ℕ) (answer : Answer)
      (inbox : List Event) (mid net' : Net)
      → Found (put_arm (not (is_empty (build_request_options opts source_len)))) inbox answer mid
      → length inbox < fuel
      → upload_all fs answer.neg answer.peer opts.retries fuel
          (start fs laws source opts.mode answer.neg.blksize)
          mid
        ≢ (ok out_of_fuel, net')
  answered_ends fuel opts source source_len answer inbox mid net' f enough e =
      go (put_arm_lem _ f.src f.packet f.action answer f.behind mid f.taken f.acted)
    where
      less : length f.behind.inbox < fuel
      less = omega (
        arith,
        ap (length {A = Event}) f.arrived,
        length-append f.front (datagram f.src f.raw ∷ f.behind.inbox),
      )

      go :
          IsPutAnswer
            (not (is_empty (build_request_options opts source_len)))
            f.src
            f.packet
            answer
            f.behind
            mid
          → ⊥
      go (accepted options want is answer_is same) =
          let wf = decode-oack-IsWellFormed _ options (f.is_packet ∙ ap ok is) in
          let (b, w) = merge_oack-positive options wf in
          let neg_is = ap (λ (a : Answer). a.neg) answer_is in
          started_ends fuel opts source answer mid net'
            (rw (ap (λ (n : Negotiated). n.blksize) neg_is) b)
            (rw (ap (λ (n : Negotiated). n.windowsize) neg_is) w)
            (rw (ap (λ (n : Net). n.inbox) same) less) e
      go (acknowledged is answer_is same) =
          let neg_is = ap (λ (a : Answer). a.neg) answer_is in
          started_ends fuel opts source answer mid net'
            (rw (ap (λ (n : Negotiated). n.blksize) neg_is) (omega arith))
            (rw (ap (λ (n : Negotiated). n.windowsize) neg_is) (omega arith))
            (rw (ap (λ (n : Net). n.inbox) same) less) e

  -- An upload comes to an end, whatever arrives: with a round for each event that arrives and one
  -- more, it returns, with or without an error.
  pub do_put_ends :
      (fuel : ℕ) (opts : Options) (server : Address) (remote : Bytes) (source : SourceOf fs)
      (source_len : Option ℕ) (net net' : Net)
      → length net.inbox < fuel
      → do_put fs fuel opts server remote (new_source source opts.mode) source_len net
        ≢ (ok out_of_fuel, net')
  do_put_ends fuel opts server remote source source_len net net' enough e =
      let (answer, mid, answered, e₁) =
        ran-eq-ok
          (request (put_arm (not (is_empty (build_request_options opts source_len)))) opts.retries
            server (write_request fs opts remote source_len) (opts.retries + 1) 0 net)
          (λ answer.
            upload_all fs answer.neg answer.peer opts.retries fuel
              (start fs laws source opts.mode answer.neg.blksize))
          (do_put_form fs laws fuel opts server remote source source_len net ∙ e) in
      answered_ends fuel opts source source_len answer net.inbox mid net'
        (request-Found (put_arm (not (is_empty (build_request_options opts source_len))))
          opts.retries server (write_request fs opts remote source_len) (opts.retries + 1) 0 answer
          net mid answered)
        enough e₁
