-- ===== src/Client/Download/Alike.antt =====
-- The loop of `do_get` in src/client.rs beside the loop of `WrqReceiver` in src/server.rs: where the
-- client's returns, the server's does the same with the client's sink as its file.
use atftp.Client.Download.Sinks.{
  sinks, as_receiver, with_writer, seen_by, put_block_seen, finish_seen,
}
use atftp.Client.Download.{
  Download, step_on, end_with, ack_full, store_block, ack_again, on_block, on_reply, on_timeout,
  on_got, download,
}
use atftp.Client.Sink.{Writer, put_block, finish_sink}
use atftp.Common.{
  ℕ, zero, suc, ◌+◌, ◌≡◌, inl, inr, refl, sym, ap, ◌∙◌, true, false, Option, none, some, length,
  ltb, leb, ◌==◌, Bytes, Bool-cases,
}
use atftp.Error.{Result, ok, err, timeout}
use atftp.Files.{Files}
use atftp.Io.Receive.{ran-eq-ok, continue-eq-ok, ran-ok, continue-ok}
use atftp.Io.{
  Address, Net, ◌>>=◌, pure, lift, continue, recv_one, Ended, finished, panicked, out_of_fuel,
}
use atftp.Proto.Packet.{Packet, rrq, wrq, block_data, ack, error, oack, decode}
use atftp.Server.Receiver.Stored.{after_round, run_stops, run_round}
use atftp.Server.Receiver.{
  Receiver, send_ack, write_block, close, advance, conclude, close_window, accept, resend_ack,
  on_data, on_packet, on_silence, on_received, run,
}
use atftp.Server.{Negotiated}

module _ (fs : Files) (neg : Negotiated) (peer : Address) (retries : ℕ) where
  abbrev pub seen : Download fs → Receiver (sinks fs)
  seen d = as_receiver fs neg peer retries d

  abbrev seen_result : Result (Download fs) × Net → Result (Receiver (sinks fs)) × Net
  seen_result (ok d, net) = (ok (seen d), net)
  seen_result (err e, net) = (err e, net)

  abbrev seen_round : Result (ℕ × Download fs) × Net → Result (ℕ × Receiver (sinks fs)) × Net
  seen_round (ok (attempt, d), net) = (ok (attempt, seen d), net)
  seen_round (err e, net) = (err e, net)

  conclude-seen :
      (d d' : Download fs) (block : ℕ) (net net' : Net)
      → end_with fs neg peer d block net ≡ (ok d', net')
      → conclude (sinks fs) (seen d) block net ≡ (ok (seen d'), net')
  conclude-seen d d' block net net' e =
      let (u, mid, acked, e₁) =
        ran-eq-ok (send_ack peer block net)
          (λ _.
            lift (finish_sink fs d.writer) >>= λ w. pure (record d { writer = w; finished = true }))
          (end_form ∙ e) in
      let (w, over, e₂) =
        continue-eq-ok (finish_sink fs d.writer)
          (λ w. pure (record d { writer = w; finished = true })) e₁ in
      let closed : close (sinks fs) (seen d) ≡ ok (with_writer fs neg peer retries d w) =
        finish_seen fs neg peer retries d d.writer ∙ ap (seen_by fs neg peer retries d) over in
      unfold conclude in
      continue-ok (close (sinks fs) (seen d))
        (λ r'. send_ack peer block >>= λ _. pure (record r' { finished = true })) net
        (with_writer fs neg peer retries d w) closed
      ∙ ran-ok (send_ack peer block net)
          (λ _. pure (record (with_writer fs neg peer retries d w) { finished = true })) u mid acked
      ∙ ap seen_result e₂
    where
      end_form :
          (send_ack peer block >>= λ _.
          lift (finish_sink fs d.writer) >>= λ w. pure (record d { writer = w; finished = true }))
            net
          ≡ end_with fs neg peer d block net
      end_form = unfold end_with in refl

  pure-seen :
      (run : Result (Unit {0}) × Net) (d : Download fs)
      → continue run.0 (λ _. pure (seen d)) run.1 ≡ seen_result (continue run.0 (λ _. pure d) run.1)
  pure-seen (ok u, net) d = refl
  pure-seen (err e, net) d = refl

  again_seen :
      (run : Result (Unit {0}) × Net) (attempt : ℕ) (d : Download fs)
      → continue run.0 (λ _. pure (attempt, seen d)) run.1
        ≡ seen_round (continue run.0 (λ _. pure (attempt, d)) run.1)
  again_seen (ok u, net) attempt d = refl
  again_seen (err e, net) attempt d = refl

  ack_full-seen :
      (d : Download fs) (block : ℕ) (net : Net)
      → close_window (sinks fs) (seen d) block net ≡ seen_result (ack_full fs neg peer d block net)
  ack_full-seen d block net = elim (Bool-cases (leb neg.windowsize d.blocks_in_window)) [
    | inl full ↦
        unfold close_window ack_full in
        rw (full, close_window, ack_full)
          (pure-seen (send_ack peer block net) (record d { blocks_in_window = 0 }))
    | inr more ↦ unfold close_window ack_full in rw (more, close_window, ack_full) refl
  ]

  ack_again-seen :
      (d : Download fs) (net : Net)
      → resend_ack (sinks fs) (seen d) net ≡ seen_result (ack_again fs neg peer d net)
  ack_again-seen d net =
      unfold resend_ack ack_again in
      pure-seen (send_ack peer d.last_acked net) (record d { blocks_in_window = 0 })

  stored_seen :
      (d : Download fs) (w : Writer fs) (payload : Bytes)
      → put_block fs d.writer payload ≡ ok w
      → write_block (sinks fs) (seen d) payload ≡ ok (with_writer fs neg peer retries d w)
  stored_seen d w payload e =
      put_block_seen fs neg peer retries d d.writer payload ∙ ap (seen_by fs neg peer retries d) e

  abbrev stored : Download fs → ℕ → Writer fs → Download fs
  stored d block w = step_on fs neg peer (record d { writer = w }) block

  abbrev rest_last : Download fs → ℕ → Writer fs → Net → Result (Download fs) × Net
  rest_last d block w = end_with fs neg peer (stored d block w) block

  abbrev server_last : ℕ → Receiver (sinks fs) → Net → Result (Receiver (sinks fs)) × Net
  server_last block r' = conclude (sinks fs) (advance (sinks fs) r' block) block

  accept_last :
      (d d' : Download fs) (block : ℕ) (payload : Bytes) (net net' : Net)
      → ltb (length payload) neg.blksize ≡ true
      → store_block fs neg peer d block payload net ≡ (ok d', net')
      → accept (sinks fs) (seen d) block payload net ≡ (ok (seen d'), net')
  accept_last d d' block payload net net' h e =
      let (w, put, e₁) =
        continue-eq-ok (put_block fs d.writer payload) (rest_last d block) (form ∙ e) in
      form'
      ∙ continue-ok (write_block (sinks fs) (seen d) payload) (server_last block) net
          (with_writer fs neg peer retries d w) (stored_seen d w payload put)
      ∙ conclude-seen (stored d block w) d' block net net' e₁
    where
      form :
          continue (put_block fs d.writer payload) (rest_last d block) net
          ≡ store_block fs neg peer d block payload net
      form = unfold store_block in rw (h, store_block) refl

      form' :
          accept (sinks fs) (seen d) block payload net
          ≡ continue (write_block (sinks fs) (seen d) payload) (server_last block) net
      form' = unfold accept in rw (h, accept) refl

  abbrev rest_more : Download fs → ℕ → Writer fs → Net → Result (Download fs) × Net
  rest_more d block w = ack_full fs neg peer (stored d block w) block

  abbrev server_more : ℕ → Receiver (sinks fs) → Net → Result (Receiver (sinks fs)) × Net
  server_more block r' = close_window (sinks fs) (advance (sinks fs) r' block) block

  accept_more :
      (d d' : Download fs) (block : ℕ) (payload : Bytes) (net net' : Net)
      → ltb (length payload) neg.blksize ≡ false
      → store_block fs neg peer d block payload net ≡ (ok d', net')
      → accept (sinks fs) (seen d) block payload net ≡ (ok (seen d'), net')
  accept_more d d' block payload net net' h e =
      let (w, put, e₁) =
        continue-eq-ok (put_block fs d.writer payload) (rest_more d block) (form ∙ e) in
      form'
      ∙ continue-ok (write_block (sinks fs) (seen d) payload) (server_more block) net
          (with_writer fs neg peer retries d w) (stored_seen d w payload put)
      ∙ ack_full-seen (stored d block w) block net
      ∙ ap seen_result e₁
    where
      form :
          continue (put_block fs d.writer payload) (rest_more d block) net
          ≡ store_block fs neg peer d block payload net
      form = unfold store_block in rw (h, store_block) refl

      form' :
          accept (sinks fs) (seen d) block payload net
          ≡ continue (write_block (sinks fs) (seen d) payload) (server_more block) net
      form' = unfold accept in rw (h, accept) refl

  pub accept-seen :
      (d d' : Download fs) (block : ℕ) (payload : Bytes) (net net' : Net)
      → store_block fs neg peer d block payload net ≡ (ok d', net')
      → accept (sinks fs) (seen d) block payload net ≡ (ok (seen d'), net')
  accept-seen d d' block payload net net' e = elim (Bool-cases (ltb (length payload) neg.blksize)) [
    | inl last ↦ accept_last d d' block payload net net' last e
    | inr more ↦ accept_more d d' block payload net net' more e
  ]

  on_data-seen :
      (d d' : Download fs) (block : ℕ) (payload : Bytes) (net net' : Net)
      → on_block fs neg peer d block payload net ≡ (ok d', net')
      → on_data (sinks fs) (seen d) block payload net ≡ (ok (seen d'), net')
  on_data-seen d d' block payload net net' e = elim (Bool-cases (block == d.next_block)) [
    | inl turn ↦
        let here : on_block fs neg peer d block payload net
            ≡ store_block fs neg peer d block payload net =
          unfold on_block in rw (turn, on_block) refl in
        let there : on_data (sinks fs) (seen d) block payload net
            ≡ accept (sinks fs) (seen d) block payload net =
          unfold on_data in rw (turn, on_data) refl in
        there ∙ accept-seen d d' block payload net net' (sym here ∙ e)
    | inr out ↦
        let here : on_block fs neg peer d block payload net ≡ ack_again fs neg peer d net =
          unfold on_block in rw (out, on_block) refl in
        let there : on_data (sinks fs) (seen d) block payload net
            ≡ resend_ack (sinks fs) (seen d) net =
          unfold on_data in rw (out, on_data) refl in
        there ∙ ack_again-seen d net ∙ ap seen_result (sym here ∙ e)
  ]

  on_packet-seen :
      (attempt attempt' : ℕ) (d d' : Download fs) (p : Result Packet) (net net' : Net)
      → on_reply fs neg peer attempt d p net ≡ (ok (attempt', d'), net')
      → on_packet (sinks fs) attempt (seen d) p net ≡ (ok (attempt', seen d'), net')
  unfolding on_reply on_packet
  on_packet-seen a a' d d' (ok (block_data block payload)) net net' e =
      let (d₁, mid, ran, e₁) =
        ran-eq-ok (on_block fs neg peer d block payload net) (λ d₁. pure (0, d₁)) e in
      ran-ok (on_data (sinks fs) (seen d) block payload net) (λ r'. pure (0, r')) (seen d₁) mid
        (on_data-seen d d₁ block payload net mid ran)
      ∙ ap seen_round e₁
  on_packet-seen a a' d d' (ok (error code msg)) net net' e = cc
  on_packet-seen a a' d d' (ok (rrq f m o)) net net' e = ap seen_round e
  on_packet-seen a a' d d' (ok (wrq f m o)) net net' e = ap seen_round e
  on_packet-seen a a' d d' (ok (ack b)) net net' e = ap seen_round e
  on_packet-seen a a' d d' (ok (oack o)) net net' e = ap seen_round e
  on_packet-seen a a' d d' (err x) net net' e = ap seen_round e

  on_silence-seen :
      (attempt attempt' : ℕ) (d d' : Download fs) (net net' : Net)
      → on_timeout fs neg peer retries attempt d net ≡ (ok (attempt', d'), net')
      → on_silence (sinks fs) attempt (seen d) net ≡ (ok (attempt', seen d'), net')
  on_silence-seen a a' d d' net net' e = elim (Bool-cases (leb retries a)) [
    | inl over ↦ absurd (raises over)
    | inr again ↦
        here again
        ∙ again_seen (send_ack peer d.last_acked net) (a + 1) d
        ∙ ap seen_round (there again ∙ e)
  ]
    where
      raises : leb retries a ≡ true → ⊥
      raises over =
          let is : on_timeout fs neg peer retries a d net ≡ (err (timeout a), net) =
            unfold on_timeout in rw (over, on_timeout) refl in
          let e' = sym is ∙ e in cc

      here :
          leb retries a ≡ false
          → on_silence (sinks fs) a (seen d) net
            ≡ continue
                (send_ack peer d.last_acked net).0
                (λ _. pure (a + 1, seen d))
                (send_ack peer d.last_acked net).1
      here again = unfold on_silence in rw (again, on_silence) refl

      there :
          leb retries a ≡ false
          → continue
              (send_ack peer d.last_acked net).0
              (λ _. pure (a + 1, d))
              (send_ack peer d.last_acked net).1
            ≡ on_timeout fs neg peer retries a d net
      there again = unfold on_timeout in rw (again, on_timeout) refl

  on_received-seen :
      (attempt attempt' : ℕ) (d d' : Download fs) (got : Option Bytes) (net net' : Net)
      → on_got fs neg peer retries attempt d got net ≡ (ok (attempt', d'), net')
      → on_received (sinks fs) attempt (seen d) got net ≡ (ok (attempt', seen d'), net')
  on_received-seen a a' d d' none net net' e = on_silence-seen a a' d d' net net' e
  on_received-seen a a' d d' (some buf) net net' e =
      on_packet-seen a a' d d' (decode buf) net net' e

  abbrev pub seen_end : Ended (Download fs) → Ended (Receiver (sinks fs))
  seen_end (finished d) = finished (seen d)
  seen_end panicked = panicked
  seen_end out_of_fuel = out_of_fuel

  abbrev seen_ended :
      Result (Ended (Download fs)) × Net → Result (Ended (Receiver (sinks fs))) × Net
  seen_ended (ok end_, net) = (ok (seen_end end_), net)
  seen_ended (err e, net) = (err e, net)

  abbrev pub after_turn : ℕ → ℕ × Download fs → Net → Result (Ended (Download fs)) × Net
  after_turn fuel (attempt, d) net = download fs neg peer fuel retries attempt d net

  pub download_stops :
      (fuel attempt : ℕ) (d : Download fs) (net : Net)
      → d.finished ≡ true
      → download fs neg peer (suc fuel) retries attempt d net ≡ (ok (finished d), net)
  download_stops fuel attempt d net h = unfold download in simp (h, download)

  pub download_round :
      (fuel attempt : ℕ) (d : Download fs) (net : Net)
      → d.finished ≡ false
      → download fs neg peer (suc fuel) retries attempt d net
        ≡ (recv_one peer >>= λ got. on_got fs neg peer retries attempt d got >>= after_turn fuel)
            net
  download_round fuel attempt d net h = unfold download in simp (h, download)

  -- The same loop, with the ends that a run on fuel has.
  pub download-run_ends :
      (fuel attempt : ℕ) (d : Download fs) (end_ : Ended (Download fs)) (net net' : Net)
      → download fs neg peer fuel retries attempt d net ≡ (ok end_, net')
      → run (sinks fs) fuel attempt (seen d) net ≡ (ok (seen_end end_), net')
  download-run_ends zero attempt d end_ net net' e =
      let e' : ◌≡◌ {A = Result (Ended (Download fs)) × Net} (ok out_of_fuel, net) (ok end_, net') =
        unfold download in e in
      unfold run in ap seen_ended e'
  download-run_ends (suc fuel) attempt d end_ net net' e = elim (Bool-cases d.finished) [
    | inl over ↦
        run_stops (sinks fs) fuel attempt (seen d) net over
        ∙ ap seen_ended (sym (download_stops fuel attempt d net over) ∙ e)
    | inr goes ↦
        let (got, mid, heard_, e₁) =
          ran-eq-ok (recv_one peer net)
            (λ got. on_got fs neg peer retries attempt d got >>= after_turn fuel)
            (sym (download_round fuel attempt d net goes) ∙ e) in
        let ((attempt', d₁), behind, handled, e₂) =
          ran-eq-ok (on_got fs neg peer retries attempt d got mid) (after_turn fuel) e₁ in
        run_round (sinks fs) fuel attempt (seen d) net goes
        ∙ ran-ok (recv_one peer net)
            (λ got. on_received (sinks fs) attempt (seen d) got >>= after_round (sinks fs) fuel) got
            mid heard_
        ∙ ran-ok (on_received (sinks fs) attempt (seen d) got mid) (after_round (sinks fs) fuel)
            (attempt', seen d₁) behind
            (on_received-seen attempt attempt' d d₁ got mid behind handled)
        ∙ download-run_ends fuel attempt' d₁ end_ behind net' e₂
  ]

  -- Where the loop of a download finishes, the loop that receives an upload at the server, on the same
  -- events and with the client's sink as its file, finishes too: it has sent the same datagrams,
  -- and its state is that of the client.
  pub download-run :
      (fuel attempt : ℕ) (d d' : Download fs) (net net' : Net)
      → download fs neg peer fuel retries attempt d net ≡ (ok (finished d'), net')
      → run (sinks fs) fuel attempt (seen d) net ≡ (ok (finished (seen d')), net')
  download-run fuel attempt d d' net net' e =
      download-run_ends fuel attempt d (finished d') net net' e
