-- ===== src/Delivery/Network.antt =====
-- What a network brings that loses, repeats and reorders, but brings of each sender what it has sent.
use atftp.Common.{
  ℕ, suc, zero, ◌*◌, ◌≡◌, ◌<◌, ◌≤◌, inl, inr, refl, sym, ap, ◌∙◌, List, [], ◌∷◌, ◌++◌, length, take,
  Bytes, All, arith, length-append,
}
use atftp.Delivery.{Carries}
use atftp.Error.{Result, ok}
use atftp.Io.Sends.{Datagrams, Has}
use atftp.Io.{Address, Event, datagram, failure, silence}
use atftp.Netascii.Chunks.{concat}
use atftp.Proto.Packet.RoundTrip.{decode-encode_into}
use atftp.Proto.Packet.{Packet, block_data, decode, encode_into}
use atftp.Proto.{max_packet_size}
use atftp.Server.Sender.Adds.{Made, Adds}
use atftp.Server.Sender.Delivers.{IsCut}
use atftp.Server.Sender.Fills.{number}
use atftp.Server.Sender.Sends.{packet}
use atftp.Window.{Frame, u16_mod, wrapping_add}

-- What comes from `peer` is among what has been sent to `me`, in any order and any number of times.
abbrev pub Brings : Address → Address → Datagrams → List Event → Type 0
Brings peer me sent [] = Unit
Brings peer me sent (silence ∷ inbox) = Brings peer me sent inbox
Brings peer me sent (failure kind ∷ inbox) = Brings peer me sent inbox
Brings peer me sent (datagram src buf ∷ inbox) =
    (src ≡ peer → Has (me, buf) sent) × Brings peer me sent inbox

take_whole : (n : ℕ) (s : Bytes) → length s ≤ n → take n s ≡ s
take_whole zero [] h = refl
take_whole (suc n) [] h = refl
take_whole zero (b ∷ s) h = absurd (omega arith)
take_whole (suc n) (b ∷ s) h = ap (λ (t : Bytes). b ∷ t) (take_whole n s (omega arith))

-- A frame that fits a packet.
abbrev pub Fits : Frame → Type 0
Fits (block, payload) = (block < u16_mod) × (length payload ≤ 65464)

packet-whole : (f : Frame) → Fits f → take max_packet_size (packet f) ≡ packet f
packet-whole (block, payload) (_, fits) =
    take_whole max_packet_size (packet (block, payload)) (unfold encode_into in omega arith)

packet-decode :
    (f : Frame) → Fits f → decode (take max_packet_size (packet f)) ≡ ok (block_data f.0 f.1)
packet-decode f fits =
    ap decode (packet-whole f fits) ∙ decode-encode_into (block_data f.0 f.1) fits.0

abbrev AllFit : List Frame → Type 0
AllFit frames = (f : Frame) → Has f frames → Fits f

Has-All : {A : Type 0} (P : A → Type 0) (x : A) (xs : List A) → All P xs → Has x xs → P x
Has-All P x [] all has = absurd has
Has-All P x (y ∷ ys) (first, all) (inl is) = rw is first
Has-All P x (y ∷ ys) (first, all) (inr has) = Has-All P x ys all has

same_frame :
    (block block' : ℕ) (payload payload' : Bytes) {r : Result Packet}
    → r ≡ ok (block_data block payload)
    → r ≡ ok (block_data block' payload')
    → ◌≡◌ {A = Frame} (block', payload') (block, payload)
same_frame block block' payload payload' a b = cc

Made-Has :
    (frames : List Frame) (to : Address) (buf : Bytes) (block : ℕ) (payload : Bytes)
    → AllFit frames
    → Made frames (to, buf)
    → decode (take max_packet_size buf) ≡ ok (block_data block payload)
    → Has (block, payload) frames
Made-Has frames to buf block payload fit (inl (f, has, is)) e =
    let read = packet-decode f (fit f has) in
    let e' = ap (λ (b : Bytes). decode (take max_packet_size b)) (sym is) ∙ e in
    let same : ◌≡◌ {A = Frame} (block, payload) f = same_frame f.0 block f.1 payload read e' in
    rw same has
Made-Has frames to buf block payload fit (inr other) e = absurd (other block payload e)

module _ (frames : List Frame) (fit : AllFit frames) (peer me : Address) (before sent : Datagrams)
    (nothing : before ≡ []) (adds : Adds frames before sent) where
  -- The DATA that comes from a sender of frames is some of them.
  pub Brings-Carries : (inbox : List Event) → Brings peer me sent inbox → Carries peer frames inbox
  Brings-Carries [] b = tt
  Brings-Carries (silence ∷ inbox) b = Brings-Carries inbox b
  Brings-Carries (failure kind ∷ inbox) b = Brings-Carries inbox b
  Brings-Carries (datagram src buf ∷ inbox) (here, b) = (
    λ from block payload e.
        let (more, is, all) = adds in
        let all_sent : sent ≡ more = rw nothing at is in
        Made-Has frames me buf block payload fit
          (Has-All (Made frames) (me, buf) more all (rw all_sent at (here from))) e,
    Brings-Carries inbox b,
  )

pub Carries-behind :
    (peer : Address) (frames : List Frame) (front rest : List Event)
    → Carries peer frames (front ++ rest)
    → Carries peer frames rest
Carries-behind peer frames [] rest c = c
Carries-behind peer frames (silence ∷ front) rest c = Carries-behind peer frames front rest c
Carries-behind peer frames (failure kind ∷ front) rest c = Carries-behind peer frames front rest c
Carries-behind peer frames (datagram src buf ∷ front) rest (_, c) =
    Carries-behind peer frames front rest c

-- The blocks of a cut are numbered in 16 bits, and fit a packet where their size does.
pub number-Fits :
    (blksize n : ℕ) (blocks : List Bytes)
    → blksize ≤ 65464
    → n < u16_mod
    → IsCut blksize blocks
    → (f : Frame) → Has f (number n blocks)
    → Fits f
number-Fits blksize n [] small low cut f has = absurd has
number-Fits blksize n (d ∷ []) small low cut f (inl is) = rw is (low, omega arith)
number-Fits blksize n (d ∷ []) small low cut f (inr has) = absurd has
number-Fits blksize n (d ∷ e ∷ ds) small low cut f (inl is) =
    let full = cut.0 in rw is (low, omega arith)
number-Fits blksize n (d ∷ e ∷ ds) small low cut f (inr has) =
    number-Fits blksize (wrapping_add n 1) (e ∷ ds) small (unfold wrapping_add in omega arith) cut.1
      f has

-- A text of fewer than `n` full blocks is cut into at most `n`.
pub IsCut-length :
    (blksize n : ℕ) (blocks : List Bytes)
    → IsCut blksize blocks
    → length (concat blocks) < n * blksize
    → length blocks ≤ n
IsCut-length blksize n [] cut h = absurd cut
IsCut-length blksize zero (d ∷ ds) cut h = absurd (omega arith)
IsCut-length blksize (suc n) (d ∷ []) cut h = omega arith
IsCut-length blksize (suc n) (d ∷ e ∷ ds) (full, cut) h =
    let behind : length (concat (e ∷ ds)) < n * blksize =
      omega (arith, length-append d (concat (e ∷ ds))) in
    let rest = IsCut-length blksize n (e ∷ ds) cut behind in omega arith
