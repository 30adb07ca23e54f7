-- ===== src/Server/Receiver/Ready.antt =====
-- What `WrqReceiver::run` needs of the events to come to complete an upload.
use atftp.Common.{
  ℕ, suc, ◌+◌, ◌≡◌, ◌<◌, ◌⊎◌, inl, inr, refl, sym, ap, ◌∙◌, true, false, List, [], ◌∷◌, Option,
  none, some, length, leb, subst, Bytes, arith,
}
use atftp.Files.{Files, FilesLaws}
use atftp.Io.Reliable.{IsReliable}
use atftp.Io.{Net, Event}
use atftp.Server.Receiver.Patient.{is_patient}
use atftp.Server.Receiver.Stored.{coming}
use atftp.Server.Receiver.Turns.{upload, with_block, Idle}
use atftp.Server.Receiver.Writes.{AcceptedMore}
use atftp.Server.{Config}
use atftp.Server.Receiver.{Receiver}
use atftp.Window.{wrapping_add}

-- An upload that is complete.
abbrev pub Comes : Option (List Bytes) → Type 0
Comes sent = (blocks : List Bytes) × (sent ≡ some blocks)

pub Comes-with_block :
    (block : Bytes) (sent : Option (List Bytes)) → Comes (with_block block sent) → Comes sent
Comes-with_block block none (blocks, e) = cc
Comes-with_block block (some blocks) c = (blocks, refl)

pub nothing_comes :
    {P : Type 0} (blksize peer n : ℕ) (inbox : List Event)
    → inbox ≡ []
    → Comes (upload blksize peer n inbox)
    → P
nothing_comes blksize peer n [] e (blocks, is) = unfold upload in cc
nothing_comes blksize peer n (x ∷ inbox) e c = cc

pub still_enough :
    (fuel blksize peer n : ℕ) (inbox rest : List Event)
    → (length rest < length inbox) ⊎ (rest ≡ [])
    → Comes (upload blksize peer n rest)
    → length inbox < suc fuel
    → length rest < fuel
still_enough fuel blksize peer n inbox rest (inl less) comes enough = omega arith
still_enough fuel blksize peer n inbox rest (inr over) comes enough =
    nothing_comes blksize peer n rest over comes

pub false-true : false ≡ true → ⊥
false-true e = cc

pub retry_left :
    (l left attempt retries : ℕ)
    → left ≡ suc l
    → left + attempt ≡ retries
    → (leb retries attempt ≡ false) × (l + (attempt + 1) ≡ retries)
retry_left l left attempt retries e counted = (ground arith, omega arith)

module _ (fs : Files) (laws : FilesLaws fs) where
  -- What a receiver needs of the events to come.
  pub record Ready (fuel attempt : ℕ) (r : Receiver fs) (net : Net) (inbox : List Event)
      : Type 0 where
    pub left : ℕ
    pub counted : left + attempt ≡ r.cfg.retries
    pub patient : is_patient r.cfg.retries r.peer left inbox ≡ true
    pub reliable : IsReliable net
    pub enough : length inbox < fuel
    pub comes : Comes (coming fs laws r inbox r.next_block)

  pub Ready-Idle :
      (fuel attempt : ℕ) (r r₁ : Receiver fs) (net : Net) (inbox : List Event)
      → Idle fs laws r r₁
      → Ready fuel attempt r net inbox
      → Ready fuel attempt r₁ net inbox
  Ready-Idle fuel attempt r r₁ net inbox i ready = record {
    left = ready.left;
    counted = ready.counted ∙ ap (λ (c : _). c.retries) (sym i.cfg);
    patient = rw (i.cfg, i.peer) ready.patient;
    reliable = ready.reliable;
    enough = ready.enough;
    comes = rw (i.peer, i.neg, i.next_block) ready.comes;
  }

  pub at_inbox :
      (fuel attempt : ℕ) (r : Receiver fs) (net : Net) (inbox : List Event)
      → net.inbox ≡ inbox
      → Ready fuel attempt r net inbox
      → Ready fuel attempt r net net.inbox
  at_inbox fuel attempt r net inbox is ready =
      subst (λ (l : List Event). Ready fuel attempt r net l) (sym is) ready

  pub Ready-AcceptedMore :
      (fuel attempt l : ℕ) (r r₁ : Receiver fs) (payload : Bytes) (net : Net) (inbox : List Event)
      → AcceptedMore fs laws r r₁ r.next_block payload
      → l + attempt ≡ r.cfg.retries
      → is_patient r.cfg.retries r.peer l inbox ≡ true
      → IsReliable net
      → length inbox < fuel
      → Comes (coming fs laws r inbox (wrapping_add r.next_block 1))
      → Ready fuel attempt r₁ net inbox
  Ready-AcceptedMore fuel attempt l r r₁ payload net inbox (a, _, _, _) counted patient safe enough
        comes =
      record {
        left = l;
        counted = counted ∙ ap (λ (c : Config). c.retries) (sym a.cfg);
        patient = rw (a.cfg, a.peer) patient;
        reliable = safe;
        enough = enough;
        comes = rw (a.peer, a.neg, a.next_block) comes;
      }

  pub again :
      (fuel attempt attempt' : ℕ) (r r₁ : Receiver fs) (net : Net) (inbox : List Event)
      → r₁ ≡ r
      → attempt' ≡ attempt
      → Ready fuel attempt r net inbox
      → Ready fuel attempt' r₁ net inbox
  again fuel attempt attempt' r r₁ net inbox same next ready = rw (same, next) ready
