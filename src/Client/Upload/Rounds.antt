-- ===== src/Client/Upload/Rounds.antt =====
-- The outer loop of `do_put` in src/client.rs beside `RrqSender::run` of src/server.rs.
use atftp.Client.Upload.Alike.{mirror_end, Same, SameEnd, await_ack-await}
use atftp.Client.Upload.Fills.{mirrored, IsUploading, fill_flight-Fill}
use atftp.Client.Upload.Loop.{behind_ack, await_any, send_flight, upload_all}
use atftp.Client.Upload.Sources.{sources, sources_laws}
use atftp.Client.Upload.{Upload, fill_flight}
use atftp.Common.{
  ℕ, zero, suc, ◌+◌, ◌≡◌, inl, inr, refl, sym, ap, ◌∙◌, Bool, true, false, not, ltb, ◌&&◌, length,
  if◌then◌else◌, subst, arith, &&-eq-true,
}
use atftp.Error.{Result, ok}
use atftp.Files.{Files, FilesLaws}
use atftp.Io.Receive.{ran-eq-ok, continue-eq-ok, ran-ok, continue-ok, returned-eq}
use atftp.Io.{Address, Net, pure, continue, Ended, finished, panicked, out_of_fuel}
use atftp.Server.Sender.Loop.{behind_window, await_move, turn, none_in_flight, run}
use atftp.Server.Sender.{Sender, fill_window}
use atftp.Server.Sender.Delivers.{run_form, none_in_flight_lem}
use atftp.Server.Sender.Fills.{fill_window-Fills}
use atftp.Server.{Negotiated}
use atftp.Window.{Frame}

module _ (fs : Files) (laws : FilesLaws fs) (neg : Negotiated) (peer : Address) (retries : ℕ) where
  abbrev pub mirror : Upload fs → Sender (sources fs)
  mirror u = mirrored fs laws neg peer retries u

  abbrev pub Uploading : ℕ → Upload fs → Type 0
  Uploading size u = IsUploading fs laws neg peer retries size u

  pub Same-Uploading :
      (size : ℕ) (u u' : Upload fs)
      → Same fs laws neg peer retries u u'
      → Uploading size u
      → Uploading size u'
  Same-Uploading size u u' h w = subst (Uploading size) (sym h) record {
    sending = record {
      honest = w.sending.honest;
      blksize = w.sending.blksize;
      windowsize = w.sending.windowsize;
    };
    blksize = w.blksize;
    final = w.final;
    fits = w.fits;
    total = w.total;
    last = w.last;
  }

  pub upload_form :
      (fuel : ℕ) (u : Upload fs) (net : Net)
      → continue
          (fill_flight fs neg neg.windowsize u)
          (λ u'.
            send_flight fs neg peer retries
              (upload_all fs neg peer retries fuel)
              u'
              (none_in_flight u'.in_flight))
          net
        ≡ upload_all fs neg peer retries (suc fuel) u net
  upload_form fuel u net = unfold upload_all in refl

  -- The loop of the server behind a fill.
  pub server_turn :
      (size fuel : ℕ) (u u₁ : Upload fs) (net : Net)
      → Uploading size u
      → fill_flight fs neg neg.windowsize u ≡ ok u₁
      → (run (sources fs) (suc fuel) (mirror u) net
          ≡ turn (sources fs) (run (sources fs) fuel) (mirror u₁) (none_in_flight u₁.in_flight) net)
        × Uploading size u₁
  server_turn size fuel u u₁ net w filled =
      let (server, w') =
        fill_flight-Fill fs laws neg peer retries size neg.windowsize u u₁ w filled in
      (
        run_form (sources fs) fuel (mirror u) net
            ∙ continue-ok (fill_window (sources fs) (mirror u))
                (λ s'. turn (sources fs) (run (sources fs) fuel) s' (none_in_flight s'.in_flight))
                net (mirror u₁) (unfold fill_window in server),
        w',
      )

  -- With the last block cut, nothing is put in flight.
  fills_nothing :
      (size places : ℕ) (u : Upload fs)
      → Uploading size u
      → u.last_sent_short ≡ true
      → fill_flight fs neg places u ≡ ok u
  fills_nothing size zero u w h = unfold fill_flight in refl
  fills_nothing size (suc places) u w h = stays (ground arith)
    where
      stays :
          (ltb (length u.in_flight) neg.windowsize && not u.last_sent_short) ≡ false
          → fill_flight fs neg (suc places) u ≡ ok u
      stays k = unfold fill_flight in simp (k, fill_flight)

  -- The server goes round once more to see that nothing is left.
  server_ends :
      (size fuel : ℕ) (u : Upload fs) (net : Net)
      → Uploading size u
      → u.last_sent_short ≡ true
      → none_in_flight u.in_flight ≡ true
      → run (sources fs) (suc fuel) (mirror u) net ≡ (ok (finished (mirror u)), net)
  server_ends size fuel u net w last nothing =
      (server_turn size fuel u u net w (fills_nothing size neg.windowsize u w last)).0
      ∙ ap (λ (b : Bool). turn (sources fs) (run (sources fs) fuel) (mirror u) b net) nothing

  -- An upload that is over: its last block has been cut, and nothing is left.
  abbrev pub IsOver : ℕ → Upload fs → Type 0
  IsOver size u = Uploading size u × (u.last_sent_short ≡ true)

  abbrev pub next_round : ℕ → Upload fs → Net → Result (Ended (Upload fs)) × Net
  next_round fuel u = upload_all fs neg peer retries fuel u

  abbrev pub server_round :
      ℕ → Sender (sources fs) → Net → Result (Ended (Sender (sources fs))) × Net
  server_round fuel s = run (sources fs) fuel s

  -- The server's loop, with a round more, and the state that is over.
  abbrev pub Finishes : ℕ → ℕ → Upload fs → Upload fs → Net → Net → Type 0
  Finishes size fuel u u' net net' =
      (run (sources fs) (suc fuel) (mirror u) net ≡ (ok (finished (mirror u')), net'))
      × IsOver size u'

  abbrev Finishing : ℕ → ℕ → Type 0
  Finishing size fuel =
      (u u' : Upload fs) (net net' : Net)
      → Uploading size u
      → upload_all fs neg peer retries fuel u net ≡ (ok (finished u'), net')
      → Finishes size fuel u u' net net'

  -- With nothing in flight behind a fill, the last block has been cut.
  last_was_cut :
      (size : ℕ) (u u₁ : Upload fs)
      → Uploading size u
      → fill_flight fs neg neg.windowsize u ≡ ok u₁
      → none_in_flight u₁.in_flight ≡ true
      → u₁.last_sent_short ≡ true
  last_was_cut size u u₁ w filled nothing =
      let (server, _) =
        fill_flight-Fill fs laws neg peer retries size neg.windowsize u u₁ w filled in
      let (_, f) =
        fill_window-Fills (sources fs) (sources_laws fs laws) (mirror u) (mirror u₁) w.sending
          (unfold fill_window in server) in
      elim f.full [
        | inl fits ↦ absurd (
            omega (
              arith,
              f.sending.windowsize,
              ap (length {A = Frame}) (none_in_flight_lem u₁.in_flight nothing),
            ))
        | inr last ↦ last
      ]

  over_or_on :
      (size fuel : ℕ) (u u' : Upload fs) (over : Bool) (net net' : Net)
      → Finishing size fuel
      → Uploading size u
      → (none_in_flight u.in_flight && u.last_sent_short) ≡ over
      → (if over then pure (finished u) else next_round fuel u) net ≡ (ok (finished u'), net')
      → Finishes size fuel u u' net net'
  over_or_on size fuel u u' true net net' ih w h e =
      let (nothing, last) = &&-eq-true (none_in_flight u.in_flight) u.last_sent_short h in
      let (is, net_is) = returned-eq e in
      let u_is : u ≡ u' = cc in
      (
        server_ends size fuel u net w last nothing
            ∙ ap (λ (n : Net). (ok (finished (mirror u)), n)) net_is
            ∙ ap (λ (x : Upload fs). (ok (finished (mirror x)), net')) u_is,
        subst (IsOver size) u_is (w, last),
      )
  over_or_on size fuel u u' false net net' ih w h e = ih u u' net net' w e

  turned :
      (size fuel : ℕ) (u u₁ u' : Upload fs) (nothing : Bool) (net net' : Net)
      → Finishing size fuel
      → Uploading size u₁
      → (nothing ≡ true → u₁.last_sent_short ≡ true)
      → send_flight fs neg peer retries (next_round fuel) u₁ nothing net ≡ (ok (finished u'), net')
      → (turn (sources fs) (server_round (suc fuel)) (mirror u₁) nothing net
          ≡ (ok (finished (mirror u')), net'))
        × IsOver size u'
  turned size fuel u u₁ u' true net net' ih w last e =
      let (is, net_is) = returned-eq e in
      let u_is : u₁ ≡ u' = cc in
      (
        ap (λ (n : Net). (ok (finished (mirror u₁)), n)) net_is
            ∙ ap (λ (x : Upload fs). (ok (finished (mirror x)), net')) u_is,
        subst (IsOver size) u_is (w, last refl),
      )
  turned size fuel u u₁ u' false net net' ih w last e =
      let (end_, mid, waited, e₁) =
        ran-eq-ok (await_any fs neg peer retries u₁ net)
          (behind_ack fs neg peer retries (next_round fuel)) e in
      let (server, same) =
        await_ack-await fs laws neg peer retries (length net.inbox + retries + 2) 0 u₁ end_ net mid
          waited in
      go end_ mid server same e₁
    where
      go :
          (end_ : Ended (Upload fs)) (mid : Net)
          → await_move (sources fs) (mirror u₁) net
            ≡ (ok (mirror_end fs laws neg peer retries end_), mid)
          → SameEnd fs laws neg peer retries u₁ end_
          → behind_ack fs neg peer retries (next_round fuel) end_ mid ≡ (ok (finished u'), net')
          → (turn (sources fs) (server_round (suc fuel)) (mirror u₁) false net
              ≡ (ok (finished (mirror u')), net'))
            × IsOver size u'
      go panicked mid server same e₁ = cc
      go out_of_fuel mid server same e₁ = cc
      go (finished u₂) mid server same e₁ =
          let (rest, over) =
            over_or_on size fuel u₂ u' (none_in_flight u₂.in_flight && u₂.last_sent_short) mid net'
              ih (Same-Uploading size u₁ u₂ same w) refl e₁ in
          (
            ran-ok (await_move (sources fs) (mirror u₁) net)
                  (behind_window (sources fs) (server_round (suc fuel))) (finished (mirror u₂)) mid
                  server
                ∙ rest,
            over,
          )

  -- The loops of an upload and the loops that send a download from the server are the same, but
  -- for what they do on a time-out: where the client's loop finishes, the server's loop on the
  -- same events, with the client's source as its file and a round more, finishes too, and has
  -- sent the same. The last block has been cut then, and the total is as many bytes as the upload
  -- had to send.
  pub upload_all-run :
      (size fuel : ℕ) (u u' : Upload fs) (net net' : Net)
      → Uploading size u
      → upload_all fs neg peer retries fuel u net ≡ (ok (finished u'), net')
      → Finishes size fuel u u' net net'
  upload_all-run size zero u u' net net' w e = unfold upload_all in cc
  upload_all-run size (suc fuel) u u' net net' w e =
      let (u₁, filled, e₁) =
        continue-eq-ok (fill_flight fs neg neg.windowsize u)
          (λ u'. send_flight fs neg peer retries (next_round fuel) u' (none_in_flight u'.in_flight))
          (upload_form fuel u net ∙ e) in
      let (server, w₁) = server_turn size (suc fuel) u u₁ net w filled in
      let (rest, over) =
        turned size fuel u u₁ u' (none_in_flight u₁.in_flight) net net'
          (λ a b n n' v k. upload_all-run size fuel a b n n' v k) w₁
          (last_was_cut size u u₁ w filled) e₁ in
      (server ∙ rest, over)
