-- ===== src/Client/Download/Keeps.antt =====
-- What the writes keep, the loop of `do_get` in src/client.rs keeps.
use atftp.Client.Download.Alike.{after_turn, download_stops, download_round}
use atftp.Client.Download.{
  Download, step_on, end_with, ack_full, store_block, ack_again, on_block, on_reply, on_timeout,
  on_got, download,
}
use atftp.Client.Sink.{Writer, put_block, finish_sink}
use atftp.Common.{
  ℕ, zero, suc, ◌+◌, ◌≡◌, inl, inr, refl, sym, ◌∙◌, Bool, true, false, Option, none, some, length,
  ltb, leb, ◌==◌, if◌then◌else◌, Bytes, Bool-cases, subst,
}
use atftp.Error.{Result, ok, err, timeout}
use atftp.Files.{Files}
use atftp.Io.Receive.{ran-eq-ok, continue-eq-ok}
use atftp.Io.{Address, Net, ◌>>=◌, pure, lift, continue, recv_one, Ended, finished}
use atftp.Proto.Packet.{Packet, rrq, wrq, block_data, ack, error, oack, decode}
use atftp.Server.Receiver.{send_ack}
use atftp.Server.{Negotiated}

module _ (fs : Files) (neg : Negotiated) (peer : Address) (P : Writer fs → Type 0)
    (put : (w w' : Writer fs) (block : Bytes) → put_block fs w block ≡ ok w' → P w → P w')
    (end_ : (w w' : Writer fs) → finish_sink fs w ≡ ok w' → P w → P w') where
  -- Behind an action without a result, a value.
  behind :
      (run : Result (Unit {0}) × Net) (d d' : Download fs) {net' : Net}
      → continue run.0 (λ _. pure d) run.1 ≡ (ok d', net')
      → P d.writer
      → P d'.writer
  behind (ok u, net) d d' {net'} e p = let same : d.writer ≡ d'.writer = cc in subst P same p
  behind (err x, net) d d' {net'} e p = cc

  end_with-keeps :
      (d d' : Download fs) (block : ℕ) (net net' : Net)
      → end_with fs neg peer d block net ≡ (ok d', net')
      → P d.writer
      → P d'.writer
  end_with-keeps d d' block net net' e p =
      let (u, mid, acked, e₁) =
        ran-eq-ok (send_ack peer block net)
          (λ _.
            lift (finish_sink fs d.writer) >>= λ w. pure (record d { writer = w; finished = true }))
          (form ∙ e) in
      let (w, over, e₂) =
        continue-eq-ok (finish_sink fs d.writer)
          (λ w. pure (record d { writer = w; finished = true })) e₁ in
      let same : w ≡ d'.writer = cc in subst P same (end_ d.writer w over p)
    where
      form :
          (send_ack peer block >>= λ _.
          lift (finish_sink fs d.writer) >>= λ w. pure (record d { writer = w; finished = true }))
            net
          ≡ end_with fs neg peer d block net
      form = unfold end_with in refl

  returned :
      (d d' : Download fs) (net net' : Net)
      → ◌≡◌ {A = Result (Download fs) × Net} (ok d, net) (ok d', net')
      → P d.writer
      → P d'.writer
  returned d d' net net' e p = let same : d.writer ≡ d'.writer = cc in subst P same p

  ack_full-keeps :
      (d d' : Download fs) (block : ℕ) (net net' : Net)
      → ack_full fs neg peer d block net ≡ (ok d', net')
      → P d.writer
      → P d'.writer
  ack_full-keeps d d' block net net' e p =
      elim (Bool-cases (leb neg.windowsize d.blocks_in_window)) [
        | inl full ↦
            behind (send_ack peer block net) (record d { blocks_in_window = 0 }) d' (acks full ∙ e)
              p
        | inr more ↦ returned d d' net net' (waits more ∙ e) p
      ]
    where
      acks :
          leb neg.windowsize d.blocks_in_window ≡ true
          → continue
              (send_ack peer block net).0
              (λ _. pure (record d { blocks_in_window = 0 }))
              (send_ack peer block net).1
            ≡ ack_full fs neg peer d block net
      acks full = unfold ack_full in rw (full, ack_full) refl

      waits :
          leb neg.windowsize d.blocks_in_window ≡ false
          → (ok d, net) ≡ ack_full fs neg peer d block net
      waits more = unfold ack_full in rw (more, ack_full) refl

  abbrev stored : Download fs → ℕ → Writer fs → Download fs
  stored d block w = step_on fs neg peer (record d { writer = w }) block

  abbrev behind_block : Download fs → ℕ → Bool → Writer fs → Net → Result (Download fs) × Net
  behind_block d block last w =
      if last
      then end_with fs neg peer (stored d block w) block
      else ack_full fs neg peer (stored d block w) block

  behind_block-keeps :
      (d d' : Download fs) (block : ℕ) (last : Bool) (w : Writer fs) (net net' : Net)
      → behind_block d block last w net ≡ (ok d', net')
      → P w
      → P d'.writer
  behind_block-keeps d d' block true w net net' e p =
      end_with-keeps (stored d block w) d' block net net' e p
  behind_block-keeps d d' block false w net net' e p =
      ack_full-keeps (stored d block w) d' block net net' e p

  pub store_block-keeps :
      (d d' : Download fs) (block : ℕ) (payload : Bytes) (net net' : Net)
      → store_block fs neg peer d block payload net ≡ (ok d', net')
      → P d.writer
      → P d'.writer
  store_block-keeps d d' block payload net net' e p =
      let (w, wrote, e₁) =
        continue-eq-ok (put_block fs d.writer payload)
          (behind_block d block (ltb (length payload) neg.blksize)) (form ∙ e) in
      behind_block-keeps d d' block (ltb (length payload) neg.blksize) w net net' e₁
        (put d.writer w payload wrote p)
    where
      form :
          continue
            (put_block fs d.writer payload)
            (behind_block d block (ltb (length payload) neg.blksize))
            net
          ≡ store_block fs neg peer d block payload net
      form = unfold store_block in refl

  on_block-keeps :
      (d d' : Download fs) (block : ℕ) (payload : Bytes) (net net' : Net)
      → on_block fs neg peer d block payload net ≡ (ok d', net')
      → P d.writer
      → P d'.writer
  on_block-keeps d d' block payload net net' e p = elim (Bool-cases (block == d.next_block)) [
    | inl turn ↦ store_block-keeps d d' block payload net net' (stores turn ∙ e) p
    | inr out ↦
        behind (send_ack peer d.last_acked net) (record d { blocks_in_window = 0 }) d'
          (acks out ∙ e) p
  ]
    where
      stores :
          block == d.next_block ≡ true
          → store_block fs neg peer d block payload net ≡ on_block fs neg peer d block payload net
      stores turn = unfold on_block in rw (turn, on_block) refl

      acks :
          block == d.next_block ≡ false
          → continue
              (send_ack peer d.last_acked net).0
              (λ _. pure (record d { blocks_in_window = 0 }))
              (send_ack peer d.last_acked net).1
            ≡ on_block fs neg peer d block payload net
      acks out = unfold on_block ack_again in rw (out, on_block) refl

  left_alone :
      (attempt attempt' : ℕ) (d d' : Download fs) (net net' : Net)
      → ◌≡◌ {A = Result (ℕ × Download fs) × Net} (ok (attempt, d), net) (ok (attempt', d'), net')
      → P d.writer
      → P d'.writer
  left_alone a a' d d' net net' e p = let same : d.writer ≡ d'.writer = cc in subst P same p

  on_reply-keeps :
      (attempt attempt' : ℕ) (d d' : Download fs) (packet : Result Packet) (net net' : Net)
      → on_reply fs neg peer attempt d packet net ≡ (ok (attempt', d'), net')
      → P d.writer
      → P d'.writer
  unfolding on_reply
  on_reply-keeps a a' d d' (ok (block_data block payload)) net net' e p =
      let (d₁, mid, ran, e₁) =
        ran-eq-ok (on_block fs neg peer d block payload net) (λ d₁. pure (0, d₁)) e in
      left_alone 0 a' d₁ d' mid net' e₁ (on_block-keeps d d₁ block payload net mid ran p)
  on_reply-keeps a a' d d' (ok (error code msg)) net net' e p = cc
  on_reply-keeps a a' d d' (ok (rrq f m o)) net net' e p = left_alone a a' d d' net net' e p
  on_reply-keeps a a' d d' (ok (wrq f m o)) net net' e p = left_alone a a' d d' net net' e p
  on_reply-keeps a a' d d' (ok (ack b)) net net' e p = left_alone a a' d d' net net' e p
  on_reply-keeps a a' d d' (ok (oack o)) net net' e p = left_alone a a' d d' net net' e p
  on_reply-keeps a a' d d' (err x) net net' e p = left_alone a a' d d' net net' e p

  again :
      (run : Result (Unit {0}) × Net) (attempt attempt' : ℕ) (d d' : Download fs) {net' : Net}
      → continue {B = ℕ × Download fs} run.0 (λ _. pure (attempt, d)) run.1
        ≡ (ok (attempt', d'), net')
      → P d.writer
      → P d'.writer
  again (ok u, mid) a a' d d' {net'} e p = left_alone a a' d d' mid net' e p
  again (err x, mid) a a' d d' {net'} e p = cc

  on_timeout-keeps :
      (retries attempt attempt' : ℕ) (d d' : Download fs) (net net' : Net)
      → on_timeout fs neg peer retries attempt d net ≡ (ok (attempt', d'), net')
      → P d.writer
      → P d'.writer
  on_timeout-keeps retries a a' d d' net net' e p = elim (Bool-cases (leb retries a)) [
    | inl over ↦ let e' = raises over ∙ e in cc
    | inr more ↦ again (send_ack peer d.last_acked net) (a + 1) a' d d' (acks more ∙ e) p
  ]
    where
      raises :
          leb retries a ≡ true → (err (timeout a), net) ≡ on_timeout fs neg peer retries a d net
      raises over = unfold on_timeout in rw (over, on_timeout) refl

      acks :
          leb retries a ≡ false
          → continue
              (send_ack peer d.last_acked net).0
              (λ _. pure (a + 1, d))
              (send_ack peer d.last_acked net).1
            ≡ on_timeout fs neg peer retries a d net
      acks more = unfold on_timeout in rw (more, on_timeout) refl

  on_got-keeps :
      (retries attempt attempt' : ℕ) (d d' : Download fs) (got : Option Bytes) (net net' : Net)
      → on_got fs neg peer retries attempt d got net ≡ (ok (attempt', d'), net')
      → P d.writer
      → P d'.writer
  on_got-keeps retries a a' d d' none net net' e p = on_timeout-keeps retries a a' d d' net net' e p
  on_got-keeps retries a a' d d' (some buf) net net' e p =
      on_reply-keeps a a' d d' (decode buf) net net' e p

  ended :
      (d d' : Download fs) (net net' : Net)
      → ◌≡◌ {A = Result (Ended (Download fs)) × Net} (ok (finished d), net) (ok (finished d'), net')
      → P d.writer
      → P d'.writer
  ended d d' net net' e p = let same : d.writer ≡ d'.writer = cc in subst P same p

  -- What `put_block` and `finish_sink` keep of the writer, the loop keeps.
  pub download-keeps :
      (fuel retries attempt : ℕ) (d d' : Download fs) (net net' : Net)
      → download fs neg peer fuel retries attempt d net ≡ (ok (finished d'), net')
      → P d.writer
      → P d'.writer
  download-keeps zero retries attempt d d' net net' e p = unfold download in cc
  download-keeps (suc fuel) retries attempt d d' net net' e p = elim (Bool-cases d.finished) [
    | inl over ↦
        ended d d' net net' (sym (download_stops fs neg peer retries fuel attempt d net over) ∙ e) p
    | inr goes ↦
        let (got, mid, heard_, e₁) =
          ran-eq-ok (recv_one peer net)
            (λ got.
              on_got fs neg peer retries attempt d got >>= after_turn fs neg peer retries fuel)
            (sym (download_round fs neg peer retries fuel attempt d net goes) ∙ e) in
        let ((attempt', d₁), behind, handled, e₂) =
          ran-eq-ok (on_got fs neg peer retries attempt d got mid)
            (after_turn fs neg peer retries fuel) e₁ in
        download-keeps fuel retries attempt' d₁ d' behind net' e₂
          (on_got-keeps retries attempt attempt' d d₁ got mid behind handled p)
  ]
