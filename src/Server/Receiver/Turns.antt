-- ===== src/Server/Receiver/Turns.antt =====
-- What a packet means for an upload: the blocks that are in their turn, as a function of the
-- packets alone, and the handlers of `WrqReceiver` beside it.
use atftp.Common.{
  ℕ, ◌≡◌, inl, inr, refl, sym, ap, ap₂, ◌∙◌, true, false, List, [], ◌∷◌, Option, none, some, length,
  take, ltb, ◌==◌, if◌then◌else◌, Bytes, Bool-cases, arith,
}
use atftp.Error.{Result, ok, err}
use atftp.Files.{Files, FilesLaws}
use atftp.Io.Receive.{ran-eq-ok, Heard, heard, heard_peer, heard_stranger}
use atftp.Io.{Address, Net, Event, datagram, failure, silence, pure}
use atftp.Proto.Packet.{Packet, rrq, wrq, block_data, ack, error, oack, decode}
use atftp.Proto.{max_packet_size}
use atftp.Server.Receiver.Writes.{acked, AcceptedLast, AcceptedMore, accept_last, accept_more}
use atftp.Server.Receiver.{Receiver, accept, resend_ack, on_data, on_packet}
use atftp.Window.{wrapping_add}

abbrev pub with_block : Bytes → Option (List Bytes) → Option (List Bytes)
with_block block none = none
with_block block (some blocks) = some (block ∷ blocks)

-- A packet, and what the packets behind it give when block `n` is awaited.
abbrev pub pick : ℕ → ℕ → Result Packet → (ℕ → Option (List Bytes)) → Option (List Bytes)
pick blksize n (ok (block_data block payload)) behind =
    if block == n
    then if ltb (length payload) blksize
      then some (payload ∷ [])
      else with_block payload (behind (wrapping_add n 1))
    else behind n
pick blksize n _ behind = behind n

-- The upload in a sequence of events: the blocks of the peer that are in their turn, in order, up
-- to the first short one; `none` where that does not come.
unfoldable pub upload : ℕ → Address → ℕ → List Event → Option (List Bytes)
unfolding decode
upload blksize peer n [] = none
upload blksize peer n (silence ∷ inbox) = upload blksize peer n inbox
upload blksize peer n (failure _ ∷ inbox) = upload blksize peer n inbox
upload blksize peer n (datagram src buf ∷ inbox) =
    if src == peer
    then pick blksize n (decode (take max_packet_size buf)) (λ m. upload blksize peer m inbox)
    else upload blksize peer n inbox

pub upload_peer :
    (blksize : ℕ) (peer : Address) (n : ℕ) (src : Address) (buf : Bytes) (inbox : List Event)
    → src == peer ≡ true
    → upload blksize peer n (datagram src buf ∷ inbox)
      ≡ pick blksize n (decode (take max_packet_size buf)) (λ m. upload blksize peer m inbox)
upload_peer blksize peer n src buf inbox same = unfold upload in rw (same, upload) refl

pub upload_stranger :
    (blksize : ℕ) (peer : Address) (n : ℕ) (src : Address) (buf : Bytes) (inbox : List Event)
    → src == peer ≡ false
    → upload blksize peer n (datagram src buf ∷ inbox) ≡ upload blksize peer n inbox
upload_stranger blksize peer n src buf inbox stranger = unfold upload in rw (stranger, upload) refl

pub no_packet :
    {P : Type 0} (x : Heard) (buf : Bytes) (inbox : List Event)
    → x ≡ (ok (some buf), inbox)
    → x.0 ≡ ok none
    → P
no_packet x buf inbox e h = cc

pub same_packet :
    (x : Heard) (buf buf' : Bytes) (inbox : List Event)
    → x ≡ (ok (some buf), inbox)
    → x.0 ≡ ok (some buf')
    → buf ≡ buf'
same_packet x buf buf' inbox e h = cc

pub upload-heard-none :
    (blksize : ℕ) (peer : Address) (n : ℕ) (inbox : List Event)
    → (heard peer inbox).0 ≡ ok none
    → upload blksize peer n inbox ≡ upload blksize peer n (heard peer inbox).1
upload-heard-none blksize peer n [] h = unfold heard in refl
upload-heard-none blksize peer n (silence ∷ inbox) h = unfold heard upload in refl
upload-heard-none blksize peer n (failure k ∷ inbox) h = unfold heard in cc
upload-heard-none blksize peer n (datagram src buf ∷ inbox) h = elim (Bool-cases (src == peer)) [
  | inl same ↦ no_packet _ (take max_packet_size buf) inbox (heard_peer peer src buf inbox same) h
  | inr stranger ↦
      rw
        (
          upload_stranger blksize peer n src buf inbox stranger,
          heard_stranger peer src buf inbox stranger,
        )
        (upload-heard-none blksize peer n inbox
          (rw (heard_stranger peer src buf inbox stranger) at h))
]

pub upload-heard-some :
    (blksize : ℕ) (peer : Address) (n : ℕ) (inbox : List Event) (buf : Bytes)
    → (heard peer inbox).0 ≡ ok (some buf)
    → upload blksize peer n inbox
      ≡ pick blksize n (decode buf) (λ m. upload blksize peer m (heard peer inbox).1)
upload-heard-some blksize peer n [] buf h = unfold heard in cc
upload-heard-some blksize peer n (silence ∷ inbox) buf h = unfold heard in cc
upload-heard-some blksize peer n (failure k ∷ inbox) buf h = unfold heard in cc
upload-heard-some blksize peer n (datagram src buf' ∷ inbox) buf h =
    elim (Bool-cases (src == peer)) [
      | inl same ↦
          let got = heard_peer peer src buf' inbox same in
          let buf_is = same_packet _ (take max_packet_size buf') buf inbox got h in
          rw (upload_peer blksize peer n src buf' inbox same, got, buf_is) refl
      | inr stranger ↦
          rw
            (
              upload_stranger blksize peer n src buf' inbox stranger,
              heard_stranger peer src buf' inbox stranger,
            )
            (upload-heard-some blksize peer n inbox buf
              (rw (heard_stranger peer src buf' inbox stranger) at h))
    ]

module _ (fs : Files) (laws : FilesLaws fs) where
  -- What the handlers leave, beside the block count of the window.
  pub record Idle (r r' : Receiver fs) : Type 0 where
    pub peer : r'.peer ≡ r.peer
    pub cfg : r'.cfg ≡ r.cfg
    pub neg : r'.neg ≡ r.neg
    pub next_block : r'.next_block ≡ r.next_block
    pub decoder : r'.decoder ≡ r.decoder
    pub file : r'.file ≡ r.file
    pub finished : r'.finished ≡ r.finished

  -- What a packet is to the receiver: none of its business, the last block, or the next one.
  pub data Turn (r r' : Receiver fs) (p : Result Packet) : Type 0 where
    idle :
        Idle r r'
        → ((behind : ℕ → Option (List Bytes))
            → pick r.neg.blksize r.next_block p behind ≡ behind r.next_block)
        → Turn r r' p
    last :
        (payload : Bytes)
        → AcceptedLast fs laws r r' r.next_block payload
        → ((behind : ℕ → Option (List Bytes))
            → pick r.neg.blksize r.next_block p behind ≡ some (payload ∷ []))
        → Turn r r' p
    more :
        (payload : Bytes)
        → AcceptedMore fs laws r r' r.next_block payload
        → ((behind : ℕ → Option (List Bytes))
            → pick r.neg.blksize r.next_block p behind
              ≡ with_block payload (behind (wrapping_add r.next_block 1)))
        → Turn r r' p

  resend_lem :
      (r r' : Receiver fs) (net net' : Net)
      → resend_ack fs r net ≡ (ok r', net')
      → Idle r r' × (net'.inbox ≡ net.inbox)
  resend_lem r r' net net' e =
      let (same, inbox) =
        acked r.peer r.last_acked (record r { blocks_in_window = 0 }) r' net {net' = net'}
          (unfold resend_ack in e) in
      (
        record {
          peer = cc;
          cfg = cc;
          neg = cc;
          next_block = cc;
          decoder = cc;
          file = cc;
          finished = cc;
        },
        inbox,
      )

  on_data_accepts :
      (r : Receiver fs) (block : ℕ) (payload : Bytes) (net : Net)
      → block == r.next_block ≡ true
      → on_data fs r block payload net ≡ accept fs r block payload net
  on_data_accepts r block payload net h = unfold on_data in rw (h, on_data) refl

  on_data_resends :
      (r : Receiver fs) (block : ℕ) (payload : Bytes) (net : Net)
      → block == r.next_block ≡ false
      → on_data fs r block payload net ≡ resend_ack fs r net
  on_data_resends r block payload net h = unfold on_data in rw (h, on_data) refl

  on_data-Turn :
      (r r' : Receiver fs) (block : ℕ) (payload : Bytes) (net net' : Net)
      → on_data fs r block payload net ≡ (ok r', net')
      → Turn r r' (ok (block_data block payload)) × (net'.inbox ≡ net.inbox)
  on_data-Turn r r' block payload net net' e = elim (Bool-cases (block == r.next_block)) [
    | inl turn ↦
        let is : block ≡ r.next_block = ground arith in
        let e₁ = sym (on_data_accepts r block payload net turn) ∙ e in
        elim (Bool-cases (ltb (length payload) r.neg.blksize)) [
          | inl short ↦
              let (a, inbox) = accept_last fs laws r r' block payload net net' short e₁ in
              (last payload (rw is at a) (λ behind. rw (turn, short) refl), inbox)
          | inr full ↦
              let (a, inbox) = accept_more fs laws r r' block payload net net' full e₁ in
              (more payload (rw is at a) (λ behind. rw (turn, full) refl), inbox)
        ]
    | inr out ↦
        let (a, inbox) =
          resend_lem r r' net net' (sym (on_data_resends r block payload net out) ∙ e) in
        (idle a (λ behind. rw out refl), inbox)
  ]

  nothing :
      (r r' : Receiver fs) (p : Result Packet) (attempt attempt' : ℕ) (net net' : Net)
      → ((behind : ℕ → Option (List Bytes))
          → pick r.neg.blksize r.next_block p behind ≡ behind r.next_block)
      → ◌≡◌ {A = Result (ℕ × Receiver fs) × Net} (ok (attempt, r), net) (ok (attempt', r'), net')
      → Turn r r' p × (net'.inbox ≡ net.inbox)
  nothing r r' p attempt attempt' net net' h e =
      let same : r' ≡ r = cc in
      let rest : net' ≡ net = cc in
      (
        idle
            (record {
              peer = cc;
              cfg = cc;
              neg = cc;
              next_block = cc;
              decoder = cc;
              file = cc;
              finished = cc;
            })
            h,
        ap (λ (n : Net). n.inbox) rest,
      )

  -- A handler that succeeds has taken the packet in its turn, or left it.
  pub on_packet-Turn :
      (attempt attempt' : ℕ) (r r' : Receiver fs) (p : Result Packet) (net net' : Net)
      → on_packet fs attempt r p net ≡ (ok (attempt', r'), net')
      → Turn r r' p × (net'.inbox ≡ net.inbox)
  unfolding on_packet
  on_packet-Turn a a' r r' (ok (block_data block payload)) net net' e =
      let (r₁, mid, ran, e₁) = ran-eq-ok (on_data fs r block payload net) (λ r'. pure (0, r')) e in
      let same : r₁ ≡ r' = cc in
      let rest : mid ≡ net' = cc in
      on_data-Turn r r' block payload net net'
        (ran ∙ ap₂ (λ (x : Receiver fs) (n : Net). (ok x, n)) same rest)
  on_packet-Turn a a' r r' (ok (error code msg)) net net' e = cc
  on_packet-Turn a a' r r' (ok (rrq f m o)) net net' e =
      nothing r r' _ a a' net net' (λ behind. refl) e
  on_packet-Turn a a' r r' (ok (wrq f m o)) net net' e =
      nothing r r' _ a a' net net' (λ behind. refl) e
  on_packet-Turn a a' r r' (ok (ack b)) net net' e = nothing r r' _ a a' net net' (λ behind. refl) e
  on_packet-Turn a a' r r' (ok (oack o)) net net' e =
      nothing r r' _ a a' net net' (λ behind. refl) e
  on_packet-Turn a a' r r' (err x) net net' e = nothing r r' _ a a' net net' (λ behind. refl) e
