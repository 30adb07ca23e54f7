-- ===== src/Delivery/Upload.antt =====
-- The blocks that are taken from such a network are the ones that were sent.
use atftp.Blocks.Decoded.{decoded}
use atftp.Files.{Files, FilesLaws}
use atftp.Io.{Net, finished}
use atftp.Server.Receiver.Stored.{run-Holds}
use atftp.Server.Receiver.{Receiver, run}
use atftp.Common.{
  ℕ, ◌+◌, ◌≡◌, ◌<◌, ◌≤◌, inl, inr, refl, sym, ap, ◌∙◌, Bool, true, false, List, [], ◌∷◌, ◌++◌,
  Option, none, some, length, take, ltb, ◌==◌, if◌then◌else◌, Bytes, Bool-cases, append_assoc,
  length-append, arith,
}
use atftp.Delivery.{Carries}
use atftp.Error.{Result, ok, err}
use atftp.Io.{Address, Event, datagram, failure, silence}
use atftp.Io.Sends.{Has}
use atftp.Proto.Packet.{Packet, rrq, wrq, block_data, ack, error, oack, decode}
use atftp.Proto.{max_packet_size}
use atftp.Server.Receiver.Turns.{with_block, pick, upload, upload_peer, upload_stranger}
use atftp.Server.Sender.Delivers.{IsCut}
use atftp.Server.Sender.Fills.{number}
use atftp.Window.{Frame, u16_mod, wrapping_add}

wrapping_add_one : (n : ℕ) → n + 1 < u16_mod → wrapping_add n 1 ≡ n + 1
wrapping_add_one n h = unfold wrapping_add in omega arith

-- A number that is in use is not below the first.
Has-number :
    (k m : ℕ) (p : Bytes) (ds : List Bytes)
    → m + length ds ≤ u16_mod
    → Has (k, p) (number m ds)
    → m ≤ k
Has-number k m p [] fits h = absurd h
Has-number k m p (d ∷ ds) fits (inl is) = let k_is : k ≡ m = cc in omega arith
Has-number k m p (d ∷ []) fits (inr h) = absurd h
Has-number k m p (d ∷ e ∷ ds) fits (inr h) =
    let next = wrapping_add_one m (omega arith) in
    let below = Has-number k (wrapping_add m 1) p (e ∷ ds) (omega (arith, next)) h in
    omega (arith, next)

-- The block behind `front` is the one with its number.
Has-behind :
    (m : ℕ) (front : List Bytes) (p d : Bytes) (ds : List Bytes)
    → m + length (front ++ d ∷ ds) ≤ u16_mod
    → Has (m + length front, p) (number m (front ++ d ∷ ds))
    → p ≡ d
Has-behind m [] p d ds fits (inl is) = cc
Has-behind m [] p d [] fits (inr h) = absurd h
Has-behind m [] p d (e ∷ ds) fits (inr h) =
    let next = wrapping_add_one m (omega arith) in
    let below = Has-number (m + 0) (wrapping_add m 1) p (e ∷ ds) (omega (arith, next)) h in
    absurd (omega (arith, next))
Has-behind m (f ∷ front) p d ds fits (inl is) =
    let same : m + length (f ∷ front) ≡ m = ap (λ (x : Frame). x.0) is in absurd (omega arith)
Has-behind m (f ∷ front) p d ds fits (inr h) =
    let next = wrapping_add_one m (omega (arith, length-append front (d ∷ ds))) in
    let same : m + length (f ∷ front) ≡ wrapping_add m 1 + length front = omega (arith, next) in
    Has-behind (wrapping_add m 1) front p d ds (omega (arith, next)) (rw same at h)

with_block-eq-some :
    (p : Bytes) (o : Option (List Bytes)) (bs : List Bytes)
    → with_block p o ≡ some bs
    → (bs' : List Bytes) × (o ≡ some bs') × (bs ≡ p ∷ bs')
with_block-eq-some p none bs e = cc
with_block-eq-some p (some bs') bs e = (bs', refl, cc)

module _ (blksize : ℕ) (peer : Address) (blocks : List Bytes) (few : length blocks < u16_mod) where
  -- Behind `front`, only `rest` can be taken.
  abbrev Only : List Event → Type 0
  Only inbox =
      (front rest bs : List Bytes)
      → blocks ≡ front ++ rest
      → IsCut blksize rest
      → Carries peer (number 1 blocks) inbox
      → upload blksize peer (1 + length front) inbox ≡ some bs
      → bs ≡ rest

  its_block :
      (front ds : List Bytes) (d p : Bytes) (block : ℕ)
      → blocks ≡ front ++ d ∷ ds
      → block ≡ 1 + length front
      → Has (block, p) (number 1 blocks)
      → p ≡ d
  its_block front ds d p block split is h =
      Has-behind 1 front p d ds (omega (arith, ap (length {A = Bytes}) split)) (rw (split, is) at h)

  taken :
      (inbox : List Event) (front rest bs : List Bytes) (block : ℕ) (payload : Bytes) (short : Bool)
      → Only inbox
      → blocks ≡ front ++ rest
      → IsCut blksize rest
      → Carries peer (number 1 blocks) inbox
      → Has (block, payload) (number 1 blocks)
      → block ≡ 1 + length front
      → ltb (length payload) blksize ≡ short
      → (if short
          then some (payload ∷ [])
          else with_block payload (upload blksize peer (wrapping_add (1 + length front) 1) inbox))
        ≡ some bs
      → bs ≡ rest
  taken inbox front [] bs block payload short ih split cut c h is s e = absurd cut
  taken inbox front (d ∷ []) bs block payload true ih split cut c h is s e =
      let same = its_block front [] d payload block split is h in
      let bs_is : payload ∷ [] ≡ bs = cc in sym bs_is ∙ ap (λ (x : Bytes). x ∷ []) same
  taken inbox front (d ∷ []) bs block payload false ih split cut c h is s e =
      let same = ap (length {A = ℕ}) (its_block front [] d payload block split is h) in
      absurd (ground arith)
  taken inbox front (d ∷ f ∷ ds) bs block payload true ih split cut c h is s e =
      let same = ap (length {A = ℕ}) (its_block front (f ∷ ds) d payload block split is h) in
      let full = cut.0 in absurd (ground arith)
  taken inbox front (d ∷ f ∷ ds) bs block payload false ih split cut c h is s e =
      let same = its_block front (f ∷ ds) d payload block split is h in
      let (bs', behind, bs_is) =
        with_block-eq-some payload (upload blksize peer (wrapping_add (1 + length front) 1) inbox)
          bs e in
      let next : wrapping_add (1 + length front) 1 ≡ 1 + length front + 1 =
        wrapping_add_one (1 + length front)
          (omega (arith, few, ap (length {A = Bytes}) split, length-append front (d ∷ f ∷ ds))) in
      let longer : 1 + length front + 1 ≡ 1 + length (front ++ d ∷ []) =
        omega (arith, length-append front (d ∷ [])) in
      let rest_is =
        ih (front ++ d ∷ []) (f ∷ ds) bs' (split ∙ sym (append_assoc front (d ∷ []) (f ∷ ds))) cut.1
          c (ap (λ (n : ℕ). upload blksize peer n inbox) (sym (next ∙ longer)) ∙ behind) in
      bs_is ∙ ap (λ (x : Bytes). x ∷ bs') same ∙ ap (λ (l : List Bytes). d ∷ l) rest_is

  picked :
      (inbox : List Event) (front rest bs : List Bytes) (buf : Bytes) (r : Result Packet)
      → Only inbox
      → blocks ≡ front ++ rest
      → IsCut blksize rest
      → Carries peer (number 1 blocks) inbox
      → ((block : ℕ) (payload : Bytes)
          → r ≡ ok (block_data block payload)
          → Has (block, payload) (number 1 blocks))
      → pick blksize (1 + length front) r (λ m. upload blksize peer m inbox) ≡ some bs
      → bs ≡ rest
  picked inbox front rest bs buf (ok (block_data block payload)) ih split cut c h e =
      elim (Bool-cases (block == 1 + length front)) [
        | inl turn ↦
            taken inbox front rest bs block payload (ltb (length payload) blksize) ih split cut c
              (h block payload refl) (ground arith) refl (rw turn at e)
        | inr out ↦ ih front rest bs split cut c (rw out at e)
      ]
  picked inbox front rest bs buf (ok (rrq f m o)) ih split cut c h e =
      ih front rest bs split cut c e
  picked inbox front rest bs buf (ok (wrq f m o)) ih split cut c h e =
      ih front rest bs split cut c e
  picked inbox front rest bs buf (ok (ack b)) ih split cut c h e = ih front rest bs split cut c e
  picked inbox front rest bs buf (ok (error k m)) ih split cut c h e =
      ih front rest bs split cut c e
  picked inbox front rest bs buf (ok (oack o)) ih split cut c h e = ih front rest bs split cut c e
  picked inbox front rest bs buf (err x) ih split cut c h e = ih front rest bs split cut c e

  only : (inbox : List Event) → Only inbox
  only [] front rest bs split cut c e = unfold upload in cc
  only (silence ∷ inbox) front rest bs split cut c e =
      only inbox front rest bs split cut c (unfold upload in e)
  only (failure kind ∷ inbox) front rest bs split cut c e =
      only inbox front rest bs split cut c (unfold upload in e)
  only (datagram src buf ∷ inbox) front rest bs split cut (here, c) e =
      elim (Bool-cases (src == peer)) [
        | inl same ↦
            picked inbox front rest bs buf (decode (take max_packet_size buf)) (only inbox) split
              cut c (here (ground arith))
              (sym (upload_peer blksize peer (1 + length front) src buf inbox same) ∙ e)
        | inr stranger ↦
            only inbox front rest bs split cut c
              (sym (upload_stranger blksize peer (1 + length front) src buf inbox stranger) ∙ e)
      ]

  -- The whole of what is taken.
  pub upload-Carries :
      (inbox : List Event) (bs : List Bytes)
      → IsCut blksize blocks
      → Carries peer (number 1 blocks) inbox
      → upload blksize peer 1 inbox ≡ some bs
      → bs ≡ blocks
  upload-Carries inbox bs cut c e = only inbox [] blocks bs refl cut c e

module _ (fs : Files) (laws : FilesLaws fs) where
  -- A receiver that has yet to take block 1 and returns without an error, where the DATA packets that
  -- come from its peer are some of fewer than 65536 numbered blocks, each full but the last: it has
  -- written these blocks to its file, decoded, in order, each once and all of them, whatever was
  -- lost, repeated or out of order.
  pub run-Carries :
      (fuel attempt : ℕ) (r r' : Receiver fs) (net net' : Net) (blocks : List Bytes)
      → r.finished ≡ false
      → r.next_block ≡ 1
      → length blocks < u16_mod
      → IsCut r.neg.blksize blocks
      → Carries r.peer (number 1 blocks) net.inbox
      → run fs fuel attempt r net ≡ (ok (finished r'), net')
      → laws.written r'.file ≡ laws.written r.file ++ decoded r.decoder blocks
  run-Carries fuel attempt r r' net net' blocks open_ starts few cut carries e =
      let (bs, sent, text) = run-Holds fs laws fuel attempt r r' net net' open_ e in
      let same =
        upload-Carries r.neg.blksize r.peer blocks few net.inbox bs cut carries
          (rw starts at sent) in
      text ∙ ap (λ (l : List Bytes). laws.written r.file ++ decoded r.decoder l) same
