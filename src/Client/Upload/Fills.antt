-- ===== src/Client/Upload/Fills.antt =====
-- How `do_put` of src/client.rs fills the window, beside `RrqSender::fill_window` of src/server.rs.
use atftp.Blocks.{Feed, fill_pending, cut}
use atftp.Blocks.Stream.{IsBlock}
use atftp.Client.Sink.{u64_mod}
use atftp.Client.Source.{ClientSender, SourceOf, read_source, emit, next_block}
use atftp.Client.Upload.Sources.{sources, as_sender, sources_laws}
use atftp.Client.Upload.{Upload, put_out, on_next, fill_flight}
use atftp.Common.{
  ℕ, zero, suc, ◌+◌, ◌%◌, ◌≡◌, ◌<◌, inl, inr, refl, sym, ap, ◌∙◌, Bool, true, false, not, ◌&&◌,
  ◌||◌, [], ◌++◌, Option, some, length, ltb, Bytes, Bool-cases, length-append, arith, subst,
}
use atftp.Error.{Result, ok, ◌>>=◌, >>=-eq-ok}
use atftp.Files.{Files, FilesLaws}
use atftp.Io.{Address}
use atftp.Server.Sender.Fills.{
  IsSending, TakesBlock, unsent, read_more, read_over, read_one_block_lem, places_none, places_some,
}
use atftp.Server.Sender.{Sender, take_block, read_one_block, push_back, put_in_flight, fill_places}
use atftp.Server.{Negotiated}

module _ (fs : Files) (laws : FilesLaws fs) (neg : Negotiated) (peer : Address) (retries : ℕ) where
  abbrev pub mirrored : Upload fs → Sender (sources fs)
  mirrored u = as_sender fs neg peer retries u

  -- What is still to be sent.
  abbrev pub to_send : Upload fs → Bytes
  to_send u = unsent (sources fs) (sources_laws fs laws) (mirrored u)

  -- The state of an upload of `size` bytes.
  pub record IsUploading (size : ℕ) (u : Upload fs) : Type 0 where
    pub sending : IsSending (sources fs) (sources_laws fs laws) (mirrored u)
    pub blksize : u.sender.blksize ≡ neg.blksize
    pub final : u.sender.final_emitted ≡ u.last_sent_short
    pub fits : u.total < u64_mod
    pub total : (u.total + length (to_send u)) % u64_mod ≡ size % u64_mod
    pub last : u.last_sent_short ≡ true → to_send u ≡ []

  next_form :
      (s : ClientSender fs.Handle)
      → s.final_emitted ≡ false
      → next_block fs s ≡ (
          fill_pending (read_source fs) s.encoder (s.blksize + 1) s.blksize s.feed >>= λ feed.
          ok (emit fs s (cut s.blksize feed)))
  next_form s h = unfold next_block in simp (h, next_block)

  -- The block that the server's sender reads, where the client's has read one.
  abbrev after_next : Upload fs → ClientSender fs.Handle → Sender (sources fs)
  after_next u sender = record (mirrored u) {
    feed = sender.feed;
    last_sent_short = sender.final_emitted;
  }

  emitted :
      (u : Upload fs) (c : Bytes × Feed (SourceOf fs) × Bool) (got : Option Bytes)
      (sender : ClientSender fs.Handle)
      → emit fs u.sender c ≡ (got, sender)
      → (got ≡ some c.0)
        × (take_block (sources fs) (mirrored u) c ≡ (some c.0, after_next u sender))
        × (sender.blksize ≡ u.sender.blksize)
        × (sender.encoder ≡ u.sender.encoder)
  emitted u (b, feed, final) got sender e =
      let is : record u.sender { feed = feed; final_emitted = final } ≡ sender = cc in
      (cc, rw (← is) refl, rw (← is) refl, rw (← is) refl)

  ok-injective {ℓ} : {A : Type ℓ} {a b : A} → ok a ≡ ok b → a ≡ b
  ok-injective e = cc

  next_block-mirrored :
      (u : Upload fs) (got : Option Bytes) (sender : ClientSender fs.Handle)
      → u.last_sent_short ≡ false
      → u.sender.final_emitted ≡ false
      → u.sender.blksize ≡ neg.blksize
      → next_block fs u.sender ≡ ok (got, sender)
      → (block : Bytes) × (got ≡ some block)
        × (read_one_block (sources fs) (mirrored u) ≡ ok (some block, after_next u sender))
        × (sender.blksize ≡ u.sender.blksize)
        × (sender.encoder ≡ u.sender.encoder)
  next_block-mirrored u got sender open_ final size e =
      let (feed, filled, e₁) =
        >>=-eq-ok
          (fill_pending (read_source fs) u.sender.encoder (u.sender.blksize + 1) u.sender.blksize
            u.sender.feed)
          (λ feed. ok (emit fs u.sender (cut u.sender.blksize feed)))
          (sym (next_form u.sender final) ∙ e) in
      let (got_is, taken, size_is, enc_is) =
        emitted u (cut u.sender.blksize feed) got sender (ok-injective e₁) in
      (
        (cut u.sender.blksize feed).0,
        got_is,
        read_more (sources fs) (sources_laws fs laws) (mirrored u) open_
            ∙ ap
                (λ (n : ℕ).
                  fill_pending (read_source fs) u.sender.encoder (n + 1) n u.sender.feed >>= λ feed.
                  ok (take_block (sources fs) (mirrored u) (cut n feed)))
                (sym size)
            ∙ ap
                (λ (r : Result (Feed (SourceOf fs))). r >>= λ feed.
                  ok (take_block (sources fs) (mirrored u) (cut u.sender.blksize feed)))
                filled
            ∙ ap ok taken,
        size_is,
        enc_is,
      )

  short_is_last :
      (blksize : ℕ) (block rest : Bytes) (last over : Bool)
      → IsBlock blksize block rest last
      → over ≡ false
      → (ltb (length block) blksize || over) ≡ last
  short_is_last blksize block rest last over (inl (full, is)) h = ground arith
  short_is_last blksize block rest last over (inr (short, is, _)) h = ground arith

  put_out-mirrored :
      (u : Upload fs) (block : Bytes) (sender : ClientSender fs.Handle)
      → sender.encoder ≡ u.sender.encoder
      → (ltb (length block) neg.blksize || u.last_sent_short) ≡ sender.final_emitted
      → mirrored (put_out fs neg u block sender)
        ≡ push_back (sources fs) (after_next u sender) block
  put_out-mirrored u block sender enc short = rw (short, enc) refl

  spent_more :
      (total size rest more : ℕ)
      → (total + (more + rest)) % u64_mod ≡ size % u64_mod
      → ((total + more) % u64_mod + rest) % u64_mod ≡ size % u64_mod
  spent_more total size rest more h = omega arith

  mod_less : (n : ℕ) → n % u64_mod < u64_mod
  mod_less n = omega arith

  last_nothing :
      (blksize : ℕ) (block rest : Bytes) (last : Bool)
      → IsBlock blksize block rest last
      → last ≡ true
      → rest ≡ []
  last_nothing blksize block rest last (inl (_, no_)) h = absurd (cc)
  last_nothing blksize block rest last (inr (_, _, nothing)) h = nothing

  put_out-IsUploading :
      (size : ℕ) (u : Upload fs) (block : Bytes) (sender : ClientSender fs.Handle)
      → IsUploading size u
      → u.last_sent_short ≡ false
      → sender.blksize ≡ u.sender.blksize
      → sender.encoder ≡ u.sender.encoder
      → TakesBlock (sources fs) (sources_laws fs laws) (mirrored u) block (after_next u sender)
      → (mirrored (put_out fs neg u block sender)
          ≡ push_back (sources fs) (after_next u sender) block)
        × IsUploading size (put_out fs neg u block sender)
  put_out-IsUploading size u block sender w open_ blk enc (sending, split, is, _, _, _) =
      let short =
        short_is_last neg.blksize block _ sender.final_emitted u.last_sent_short is open_ in
      let same = put_out-mirrored u block sender enc short in
      let left : to_send (put_out fs neg u block sender)
          ≡ unsent (sources fs) (sources_laws fs laws) (after_next u sender) =
        ap (unsent (sources fs) (sources_laws fs laws)) same in
      (
        same,
        record {
          sending = subst (IsSending (sources fs) (sources_laws fs laws)) (sym same) record {
            honest = sending.honest;
            blksize = sending.blksize;
            windowsize = sending.windowsize;
          };
          blksize = blk ∙ w.blksize;
          final = sym short;
          fits = mod_less (u.total + length block);
          total =
              spent_more u.total size (length (to_send (put_out fs neg u block sender)))
                (length block)
                (ap (λ (n : ℕ). (u.total + n) % u64_mod) (sym (lengths split left)) ∙ w.total);
          last = λ over. left ∙ last_nothing neg.blksize block _ _ is (sym short ∙ over);
        },
      )
    where
      lengths :
          to_send u ≡ block ++ unsent (sources fs) (sources_laws fs laws) (after_next u sender)
          → to_send (put_out fs neg u block sender)
            ≡ unsent (sources fs) (sources_laws fs laws) (after_next u sender)
          → length (to_send u) ≡ length block + length (to_send (put_out fs neg u block sender))
      lengths split left =
          ap (length {A = ℕ}) (split ∙ ap (λ (t : Bytes). block ++ t) (sym left))
          ∙ length-append block _

  -- Filling the client's window is filling the server's.
  abbrev pub Fill : ℕ → ℕ → Upload fs → Upload fs → Type 0
  Fill size places u u' =
      (fill_places (sources fs) places (mirrored u) ≡ ok (mirrored u')) × IsUploading size u'

  pub stops-Fill :
      (size places : ℕ) (u u' : Upload fs)
      → IsUploading size u
      → (ltb (length u.in_flight) neg.windowsize && not u.last_sent_short) ≡ false
      → u ≡ u'
      → Fill size (suc places) u u'
  stops-Fill size places u u' w h e = subst (Fill size (suc places) u) e (stays, w)
    where
      stays : fill_places (sources fs) (suc places) (mirrored u) ≡ ok (mirrored u)
      stays = elim (Bool-cases (ltb (length u.in_flight) neg.windowsize)) [
        | inr over ↦ places_none (sources fs) (sources_laws fs laws) places (mirrored u) over
        | inl room ↦
            places_some (sources fs) (sources_laws fs laws) places (mirrored u) room
            ∙ ap
                (λ (r : Result (Option Bytes × Sender (sources fs))).
                  r >>= put_in_flight (sources fs) (fill_places (sources fs) places))
                (read_over (sources fs) (sources_laws fs laws) (mirrored u) (ground arith))
      ]

  pub fill_flight-Fill :
      (size places : ℕ) (u u' : Upload fs)
      → IsUploading size u
      → fill_flight fs neg places u ≡ ok u'
      → Fill size places u u'
  fill_flight-Fill size zero u u' w e =
      let e' : ◌≡◌ {A = Result (Upload fs)} (ok u) (ok u') = unfold fill_flight in e in
      let here : fill_places (sources fs) zero (mirrored u) ≡ ok (mirrored u) =
        unfold fill_places in refl in
      subst (Fill size zero u) (ok-injective e') (here, w)
  fill_flight-Fill size (suc places) u u' w e =
      elim (Bool-cases (ltb (length u.in_flight) neg.windowsize && not u.last_sent_short)) [
        | inr stops ↦ stops-Fill size places u u' w stops (ok-injective (sym (stop_form stops) ∙ e))
        | inl goes ↦
            let ((got, sender), read, e₁) =
              >>=-eq-ok (next_block fs u.sender) (on_next fs neg (fill_flight fs neg places) u)
                (sym (more_form goes) ∙ e) in
            let open_ : u.last_sent_short ≡ false = ground arith in
            let (block, is, server, blk, enc) =
              next_block-mirrored u got sender open_ (w.final ∙ open_) w.blksize read in
            let takes =
              read_one_block_lem (sources fs) (sources_laws fs laws) (mirrored u)
                (after_next u sender) block open_ w.sending server in
            let (same, w') = put_out-IsUploading size u block sender w open_ blk enc takes in
            let (rest, w'') = fill_flight-Fill size places (put_out fs neg u block sender) u' w' (
              ap (λ (o : Option Bytes). on_next fs neg (fill_flight fs neg places) u (o, sender))
                (sym is)
              ∙ e₁) in
            (
              places_some (sources fs) (sources_laws fs laws) places (mirrored u) (ground arith)
                  ∙ ap
                      (λ (r : Result (Option Bytes × Sender (sources fs))).
                        r >>= put_in_flight (sources fs) (fill_places (sources fs) places))
                      server
                  ∙ ap (fill_places (sources fs) places) (sym same)
                  ∙ rest,
              w'',
            )
      ]
    where
      stop_form :
          (ltb (length u.in_flight) neg.windowsize && not u.last_sent_short) ≡ false
          → fill_flight fs neg (suc places) u ≡ ok u
      stop_form h = unfold fill_flight in simp (h, fill_flight)

      more_form :
          (ltb (length u.in_flight) neg.windowsize && not u.last_sent_short) ≡ true
          → fill_flight fs neg (suc places) u
            ≡ (next_block fs u.sender >>= on_next fs neg (fill_flight fs neg places) u)
      more_form h = unfold fill_flight in simp (h, fill_flight)
