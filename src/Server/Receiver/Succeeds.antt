-- ===== src/Server/Receiver/Succeeds.antt =====
-- The handlers of `WrqReceiver` on a reliable network, with files that take every write.
use atftp.Common.{
  ℕ, ◌+◌, ◌≡◌, inl, inr, refl, ap, ◌∙◌, Bool, true, false, [], ◌∷◌, Option, none, some, length, ltb,
  leb, ◌==◌, if◌then◌else◌, Bytes, Bool-cases,
}
use atftp.Error.{Result, ok, err}
use atftp.Files.{Files, FilesLaws, done}
use atftp.Io.Reliable.{IsReliable, Goes, send_to-Goes, bind-Goes, same-Goes}
use atftp.Io.{Address, Net, ◌>>=◌, pure, lift}
use atftp.Netascii.{FromWire, from_wire, finish}
use atftp.Proto.Options.{OptionSet}
use atftp.Proto.Packet.{Packet, rrq, wrq, block_data, ack, error, oack}
use atftp.Server.Receiver.Stored.{silence_acks}
use atftp.Server.Receiver.Writes.{close_window_acks, close_window_waits}
use atftp.Server.Receiver.{
  Receiver, send_ack, send_initial_oack, written_by, write_through, write_block, write_tail,
  flushed, write_rest, close, advance, conclude, close_window, accept, resend_ack, on_data,
  on_packet, on_silence,
}

-- Files that take every write and every flush.
pub record TakesWrites (fs : Files) : Type 0 where
  pub writes : (h : fs.Handle) (bs : Bytes) → (h' : fs.Handle) × (fs.write_all h bs ≡ done h')
  pub flushes : (h : fs.Handle) → (h' : fs.Handle) × (fs.flush h ≡ done h')

abbrev pub is_error : Result Packet → Bool
is_error (ok (error code msg)) = true
is_error _ = false

pub send_ack-Goes :
    (to : Address) (block : ℕ) (net : Net) → IsReliable net → Goes (send_ack to block) net
send_ack-Goes to block net safe = unfold send_ack in send_to-Goes _ to net safe

pub send_initial_oack-Goes :
    (to : Address) (options : OptionSet) (net : Net)
    → IsReliable net
    → Goes (send_initial_oack to options) net
send_initial_oack-Goes to options net safe = unfold send_initial_oack in send_to-Goes _ to net safe

module _ {A : Type 0} where
  acked-Goes :
      (to : Address) (block : ℕ) (a : A) (net : Net)
      → IsReliable net
      → Goes (send_ack to block >>= λ _. pure a) net
  acked-Goes to block a net safe =
      bind-Goes (send_ack to block) (λ _. pure a) net (send_ack-Goes to block net safe)
        (λ u mid ran safe'. (a, mid, refl, safe'))

module _ (fs : Files) (laws : FilesLaws fs) (takes : TakesWrites fs) where
  abbrev Works : Result (Receiver fs) → Type 0
  Works r = (r' : Receiver fs) × (r ≡ ok r')

  written_by-Works :
      (r : Receiver fs) (dec : Option FromWire) (text : Bytes)
      → Works (written_by fs r dec (fs.write_all r.file text))
  written_by-Works r dec text =
      let (h, is) = takes.writes r.file text in
      (record r { file = h; decoder = dec }, ap (written_by fs r dec) is)

  write_through-Works :
      (r : Receiver fs) (block : Bytes) (dec : Option FromWire)
      → Works (write_through fs r block dec)
  unfolding write_through
  write_through-Works r block none = written_by-Works r none block
  write_through-Works r block (some dec) =
      let (dec', out) = from_wire dec block [] in written_by-Works r (some dec') out

  write_block-Works : (r : Receiver fs) (block : Bytes) → Works (write_block fs r block)
  write_block-Works r block = unfold write_block in write_through-Works r block r.decoder

  write_tail-Works :
      (r : Receiver fs) (d : FromWire) (tail : Bytes) → Works (write_tail fs r (d, tail))
  write_tail-Works r d [] = (record r { decoder = some d }, refl)
  write_tail-Works r d (b ∷ tail) = written_by-Works r (some d) (b ∷ tail)

  write_rest-Works : (r : Receiver fs) (dec : Option FromWire) → Works (write_rest fs r dec)
  write_rest-Works r none = (r, refl)
  write_rest-Works r (some d) = write_tail-Works r (finish d []).0 (finish d []).1

  close-Works : (r : Receiver fs) → Works (close fs r)
  close-Works r =
      unfold close in
      let (r₁, is) = write_rest-Works r r.decoder in
      let (h, flushed_) = takes.flushes r₁.file in
      (record r₁ { file = h }, ap (flushed fs) is ∙ ap (written_by fs r₁ r₁.decoder) flushed_)

  conclude-Goes :
      (r : Receiver fs) (block : ℕ) (net : Net) → IsReliable net → Goes (conclude fs r block) net
  conclude-Goes r block net safe =
      unfold conclude in
      let (r', closed) = close-Works r in
      bind-Goes (lift (close fs r)) _ net
        (r', net, ap (λ (x : Result (Receiver fs)). (x, net)) closed, safe)
        (λ r₁ mid ran safe'. acked-Goes r.peer block (record r₁ { finished = true }) mid safe')

  close_window-Goes :
      (r : Receiver fs) (block : ℕ) (net : Net)
      → IsReliable net
      → Goes (close_window fs r block) net
  close_window-Goes r block net safe = elim (Bool-cases (leb r.neg.windowsize r.blocks_in_window)) [
    | inl full ↦
        same-Goes (close_window fs r block)
          (send_ack r.peer block >>= λ _. pure (record r { blocks_in_window = 0 })) net
          (close_window_acks fs laws r block net full)
          (acked-Goes r.peer block (record r { blocks_in_window = 0 }) net safe)
    | inr not_full ↦ (r, net, close_window_waits fs laws r block net not_full, safe)
  ]

  accept-Goes :
      (r : Receiver fs) (block : ℕ) (payload : Bytes) (net : Net)
      → IsReliable net
      → Goes (accept fs r block payload) net
  accept-Goes r block payload net safe =
      unfold accept in
      let (r', wrote) = write_block-Works r payload in
      bind-Goes (lift (write_block fs r payload)) _ net
        (r', net, ap (λ (x : Result (Receiver fs)). (x, net)) wrote, safe)
        (λ r₁ mid ran safe'. behind r₁ mid safe' (ltb (length payload) r.neg.blksize))
    where
      behind :
          (r₁ : Receiver fs) (mid : Net)
          → IsReliable mid
          → (short : Bool)
          → Goes
              (if short
                then conclude fs (advance fs r₁ block) block
                else close_window fs (advance fs r₁ block) block)
              mid
      behind r₁ mid safe' true = conclude-Goes (advance fs r₁ block) block mid safe'
      behind r₁ mid safe' false = close_window-Goes (advance fs r₁ block) block mid safe'

  on_data-Goes :
      (r : Receiver fs) (block : ℕ) (payload : Bytes) (net : Net)
      → IsReliable net
      → Goes (on_data fs r block payload) net
  on_data-Goes r block payload net safe = elim (Bool-cases (block == r.next_block)) [
    | inl turn ↦ unfold on_data in rw (turn, on_data) (accept-Goes r block payload net safe)
    | inr out ↦
        unfold on_data resend_ack in
        rw out (acked-Goes r.peer r.last_acked (record r { blocks_in_window = 0 }) net safe)
  ]

  -- Every packet but an ERROR is handled without an error.
  pub on_packet-Goes :
      (attempt : ℕ) (r : Receiver fs) (p : Result Packet) (net : Net)
      → is_error p ≡ false
      → IsReliable net
      → Goes (on_packet fs attempt r p) net
  unfolding on_packet
  on_packet-Goes a r (ok (block_data block payload)) net fine safe =
      bind-Goes (on_data fs r block payload) (λ r'. pure (0, r')) net
        (on_data-Goes r block payload net safe) (λ r' mid ran safe'. ((0, r'), mid, refl, safe'))
  on_packet-Goes a r (ok (error code msg)) net fine safe = cc
  on_packet-Goes a r (ok (rrq f m o)) net fine safe = ((a, r), net, refl, safe)
  on_packet-Goes a r (ok (wrq f m o)) net fine safe = ((a, r), net, refl, safe)
  on_packet-Goes a r (ok (ack b)) net fine safe = ((a, r), net, refl, safe)
  on_packet-Goes a r (ok (oack o)) net fine safe = ((a, r), net, refl, safe)
  on_packet-Goes a r (err x) net fine safe = ((a, r), net, refl, safe)

  -- A time-out with retries left is, too.
  pub on_silence-Goes :
      (attempt : ℕ) (r : Receiver fs) (net : Net)
      → leb r.cfg.retries attempt ≡ false
      → IsReliable net
      → Goes (on_silence fs attempt r) net
  on_silence-Goes a r net again safe =
      same-Goes (on_silence fs a r) (send_ack r.peer r.last_acked >>= λ _. pure (a + 1, r)) net
        (silence_acks fs laws a r net again) (acked-Goes r.peer r.last_acked (a + 1, r) net safe)
