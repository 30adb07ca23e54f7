-- ===== src/Server/Receiver/Patient.antt =====
-- When the peer of a write request can be waited for: it sends no ERROR, the socket has no error, and
-- between two DATA packets there are at most as many time-outs as retries.
use atftp.Common.{
  ℕ, zero, suc, ◌+◌, ◌≡◌, ◌⊎◌, inl, inr, refl, sym, ap, ◌∙◌, Bool, true, false, List, [], ◌∷◌, none,
  some, take, ◌==◌, if◌then◌else◌, Bytes, Bool-cases, arith,
}
use atftp.Error.{ErrorKind, Error, Result, ok, err}
use atftp.Files.{Files}
use atftp.Io.Receive.{ran-eq-ok, Heard, heard, heard_peer, heard_stranger}
use atftp.Io.{Address, Net, Event, datagram, failure, silence, pure}
use atftp.Proto.Packet.{Packet, rrq, wrq, block_data, ack, error, oack, decode}
use atftp.Proto.{max_packet_size}
use atftp.Server.Receiver.Succeeds.{is_error}
use atftp.Server.Receiver.Turns.{no_packet, same_packet}
use atftp.Server.Receiver.{Receiver, on_data, on_packet}

-- What a packet leaves of the retries.
abbrev pub behind_packet : ℕ → ℕ → Result Packet → (ℕ → Bool) → Bool
behind_packet retries left (ok (block_data block payload)) behind = behind retries
behind_packet retries left (ok (error code msg)) behind = false
behind_packet retries left _ behind = behind left

-- `left` are the time-outs that are borne before the next DATA packet.
unfoldable pub is_patient : ℕ → Address → ℕ → List Event → Bool
unfolding decode
is_patient retries peer left [] = true
is_patient retries peer zero (silence ∷ inbox) = false
is_patient retries peer (suc left) (silence ∷ inbox) = is_patient retries peer left inbox
is_patient retries peer left (failure _ ∷ inbox) = false
is_patient retries peer left (datagram src buf ∷ inbox) =
    if src == peer
    then behind_packet retries left (decode (take max_packet_size buf))
        (λ m. is_patient retries peer m inbox)
    else is_patient retries peer left inbox

no_fault :
    {P : Type 0} (x : Heard) (buf : Bytes) (inbox : List Event) (why : Error)
    → x ≡ (ok (some buf), inbox)
    → x.0 ≡ err why
    → P
no_fault x buf inbox why e h = cc

module _ (retries : ℕ) (peer : Address) where
  is_patient_peer :
      (left : ℕ) (src : Address) (buf : Bytes) (inbox : List Event)
      → src == peer ≡ true
      → is_patient retries peer left (datagram src buf ∷ inbox)
        ≡ behind_packet retries left
            (decode (take max_packet_size buf))
            (λ m. is_patient retries peer m inbox)
  is_patient_peer zero src buf inbox same = unfold is_patient in rw (same, is_patient) refl
  is_patient_peer (suc left) src buf inbox same = unfold is_patient in rw (same, is_patient) refl

  is_patient_stranger :
      (left : ℕ) (src : Address) (buf : Bytes) (inbox : List Event)
      → src == peer ≡ false
      → is_patient retries peer left (datagram src buf ∷ inbox) ≡ is_patient retries peer left inbox
  is_patient_stranger zero src buf inbox other = unfold is_patient in rw (other, is_patient) refl
  is_patient_stranger (suc left) src buf inbox other =
      unfold is_patient in rw (other, is_patient) refl

  is_patient_failure :
      (left : ℕ) (k : ErrorKind) (inbox : List Event)
      → is_patient retries peer left (failure k ∷ inbox) ≡ false
  is_patient_failure zero k inbox = unfold is_patient in refl
  is_patient_failure (suc left) k inbox = unfold is_patient in refl

  -- A time-out that was borne, or the end of the inbox.
  abbrev pub Bears : ℕ → List Event → Type 0
  Bears left rest =
      (rest ≡ []) ⊎ ((l : ℕ) × (left ≡ suc l) × (is_patient retries peer l rest ≡ true))

  pub is_patient-none :
      (left : ℕ) (inbox : List Event)
      → (heard peer inbox).0 ≡ ok none
      → is_patient retries peer left inbox ≡ true
      → Bears left (heard peer inbox).1
  is_patient-none left [] h waits = unfold heard in inl refl
  is_patient-none zero (silence ∷ inbox) h waits = unfold is_patient in cc
  is_patient-none (suc left) (silence ∷ inbox) h waits =
      unfold heard is_patient in inr (left, refl, waits)
  is_patient-none left (failure k ∷ inbox) h waits = unfold heard in cc
  is_patient-none left (datagram src buf ∷ inbox) h waits = elim (Bool-cases (src == peer)) [
    | inl same ↦ no_packet _ (take max_packet_size buf) inbox (heard_peer peer src buf inbox same) h
    | inr other ↦
        let skip = heard_stranger peer src buf inbox other in
        rw skip (
          is_patient-none left inbox (rw skip at h)
            (sym (is_patient_stranger left src buf inbox other) ∙ waits))
  ]

  pub is_patient-some :
      (left : ℕ) (inbox : List Event) (buf : Bytes)
      → (heard peer inbox).0 ≡ ok (some buf)
      → is_patient retries peer left inbox
        ≡ behind_packet retries left
            (decode buf)
            (λ m. is_patient retries peer m (heard peer inbox).1)
  is_patient-some left [] buf h = unfold heard in cc
  is_patient-some left (silence ∷ inbox) buf h = unfold heard in cc
  is_patient-some left (failure k ∷ inbox) buf h = unfold heard in cc
  is_patient-some left (datagram src buf' ∷ inbox) buf h = elim (Bool-cases (src == peer)) [
    | inl same ↦
        let got = heard_peer peer src buf' inbox same in
        let buf_is = same_packet _ (take max_packet_size buf') buf inbox got h in
        rw (is_patient_peer left src buf' inbox same, got, buf_is) refl
    | inr other ↦
        rw (is_patient_stranger left src buf' inbox other, heard_stranger peer src buf' inbox other)
          (is_patient-some left inbox buf (rw (heard_stranger peer src buf' inbox other) at h))
  ]

  pub is_patient-err :
      (left : ℕ) (inbox : List Event) (why : Error)
      → (heard peer inbox).0 ≡ err why
      → is_patient retries peer left inbox ≡ false
  is_patient-err left [] why h = unfold heard in cc
  is_patient-err left (silence ∷ inbox) why h = unfold heard in cc
  is_patient-err left (failure k ∷ inbox) why h = is_patient_failure left k inbox
  is_patient-err left (datagram src buf ∷ inbox) why h = elim (Bool-cases (src == peer)) [
    | inl same ↦
        no_fault _ (take max_packet_size buf) inbox why (heard_peer peer src buf inbox same) h
    | inr other ↦
        is_patient_stranger left src buf inbox other
        ∙ is_patient-err left inbox why (rw (heard_stranger peer src buf inbox other) at h)
  ]

pub no_error :
    (retries left : ℕ) (p : Result Packet) (behind : ℕ → Bool)
    → behind_packet retries left p behind ≡ true
    → is_error p ≡ false
no_error retries left (ok (block_data b d)) behind h = refl
no_error retries left (ok (error code msg)) behind h = cc
no_error retries left (ok (rrq f m o)) behind h = refl
no_error retries left (ok (wrq f m o)) behind h = refl
no_error retries left (ok (ack b)) behind h = refl
no_error retries left (ok (oack o)) behind h = refl
no_error retries left (err x) behind h = refl

module _ (fs : Files) where
  -- The retries that are left, with the ones that the handler counts.
  abbrev pub Left : ℕ → ℕ → (ℕ → Bool) → Type 0
  Left retries attempt behind = (l : ℕ) × (behind l ≡ true) × (l + attempt ≡ retries)

  unchanged :
      (retries left attempt attempt' : ℕ) (r r' : Receiver fs) (net net' : Net) (behind : ℕ → Bool)
      → ◌≡◌ {A = Result (ℕ × Receiver fs) × Net} (ok (attempt, r), net) (ok (attempt', r'), net')
      → behind left ≡ true
      → left + attempt ≡ retries
      → Left retries attempt' behind
  unchanged retries left attempt attempt' r r' net net' behind e h k =
      let same : attempt ≡ attempt' = cc in (left, h, ap (λ (a : ℕ). left + a) (sym same) ∙ k)

  pub on_packet-Left :
      (retries left attempt attempt' : ℕ) (r r' : Receiver fs) (p : Result Packet) (net net' : Net)
      (behind : ℕ → Bool)
      → on_packet fs attempt r p net ≡ (ok (attempt', r'), net')
      → behind_packet retries left p behind ≡ true
      → left + attempt ≡ retries
      → Left retries attempt' behind
  unfolding on_packet
  on_packet-Left n l a a' r r' (ok (block_data block payload)) net net' behind e h k =
      let (r₁, mid, ran, e₁) = ran-eq-ok (on_data fs r block payload net) (λ r'. pure (0, r')) e in
      let none_ : 0 ≡ a' = cc in (n, h, omega (arith, none_))
  on_packet-Left n l a a' r r' (ok (error code msg)) net net' behind e h k = cc
  on_packet-Left n l a a' r r' (ok (rrq f m o)) net net' behind e h k =
      unchanged n l a a' r r' net net' behind e h k
  on_packet-Left n l a a' r r' (ok (wrq f m o)) net net' behind e h k =
      unchanged n l a a' r r' net net' behind e h k
  on_packet-Left n l a a' r r' (ok (ack b)) net net' behind e h k =
      unchanged n l a a' r r' net net' behind e h k
  on_packet-Left n l a a' r r' (ok (oack o)) net net' behind e h k =
      unchanged n l a a' r r' net net' behind e h k
  on_packet-Left n l a a' r r' (err x) net net' behind e h k =
      unchanged n l a a' r r' net net' behind e h k
