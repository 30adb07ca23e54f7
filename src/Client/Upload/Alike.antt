-- ===== src/Client/Upload/Alike.antt =====
-- The loops of `do_put` in src/client.rs beside those of `RrqSender` in src/server.rs: where the
-- client's return, the server's do the same with the client's source as their file.
use atftp.Client.Upload.Fills.{mirrored}
use atftp.Client.Upload.Loop.{on_ack, no_ack, on_reply, until_moved, await_ack}
use atftp.Client.Upload.Sources.{sources}
use atftp.Client.Upload.{Upload}
use atftp.Common.{
  ℕ, zero, suc, ◌+◌, ◌≡◌, inl, inr, refl, sym, ap, ◌∙◌, Bool, true, false, List, Option, none, some,
  leb, Bytes, Bool-cases, subst,
}
use atftp.Error.{Result, ok, err, timeout}
use atftp.Files.{Files, FilesLaws}
use atftp.Io.Receive.{ran-eq-ok, ran-ok, returned-eq}
use atftp.Io.{Address, Net, ◌>>=◌, recv_one, Ended, finished, panicked, out_of_fuel}
use atftp.Proto.Packet.{Packet, rrq, wrq, block_data, ack, error, oack, decode}
use atftp.Server.Sender.Loop.{on_packet, on_received, unless_moved, await}
use atftp.Server.Sender.{Sender, send_frames, send_window, consume_ack}
use atftp.Server.Sender.Sends.{await_form, silence_waits}
use atftp.Server.{Negotiated}
use atftp.Window.Acks.{client_pop_acked_lem}
use atftp.Window.{Frame, client_consume_ack}

module _ (fs : Files) (laws : FilesLaws fs) (neg : Negotiated) (peer : Address) (retries : ℕ) where
  abbrev pub mirror : Upload fs → Sender (sources fs)
  mirror u = mirrored fs laws neg peer retries u

  abbrev mirror_moved :
      Result (ℕ × Upload fs × Bool) × Net → Result (ℕ × Sender (sources fs) × Bool) × Net
  mirror_moved (ok (attempt, u, moved), net) = (ok (attempt, mirror u, moved), net)
  mirror_moved (err e, net) = (err e, net)

  -- The blocks in flight behind an acknowledgement, and whether there were more before.
  abbrev popped : Upload fs → ℕ → List Frame × Bool
  popped u block = client_consume_ack u.in_flight block neg.windowsize

  abbrev behind : Upload fs → List Frame × Bool → Sender (sources fs) × Bool
  behind u (in_flight, moved) = (mirror (record u { in_flight = in_flight }), moved)

  consumed :
      (u : Upload fs) (block : ℕ)
      → consume_ack (sources fs) (mirror u) block ≡ behind u (popped u block)
  consumed u block =
      unfold consume_ack client_consume_ack in
      ap (behind u) (sym (client_pop_acked_lem block neg.windowsize u.in_flight false))

  on_packet-mirror :
      (attempt : ℕ) (u : Upload fs) (p : Result Packet) (net : Net)
      → on_packet (sources fs) attempt (mirror u) p net
        ≡ mirror_moved (on_ack fs neg attempt u p net)
  unfolding on_packet on_ack
  on_packet-mirror a u (ok (ack block)) net =
      ap (λ (x : Sender (sources fs) × Bool). (ok (a, x.0, x.1), net)) (consumed u block)
  on_packet-mirror a u (ok (error code msg)) net = refl
  on_packet-mirror a u (ok (rrq f m o)) net = refl
  on_packet-mirror a u (ok (wrq f m o)) net = refl
  on_packet-mirror a u (ok (block_data b d)) net = refl
  on_packet-mirror a u (ok (oack o)) net = refl
  on_packet-mirror a u (err x) net = refl

  -- Only the blocks in flight are others.
  abbrev pub Same : Upload fs → Upload fs → Type 0
  Same u u' = u' ≡ record u { in_flight = u'.in_flight }

  Same-trans : (u u₁ u' : Upload fs) → Same u u₁ → Same u₁ u' → Same u u'
  Same-trans u u₁ u' h k = k ∙ ap (λ (x : Upload fs). record x { in_flight = u'.in_flight }) h

  moved_Same :
      (u : Upload fs) (r r' : ℕ × Upload fs × Bool) (net net' : Net)
      → ◌≡◌ {A = Result (ℕ × Upload fs × Bool) × Net} (ok r, net) (ok r', net')
      → Same u r.1
      → Same u r'.1
  moved_Same u r r' net net' e h =
      let (is, _) = returned-eq e in subst (λ (x : ℕ × Upload fs × Bool). Same u x.1) is h

  on_ack-Same :
      (attempt : ℕ) (u : Upload fs) (p : Result Packet) (r : ℕ × Upload fs × Bool) (net net' : Net)
      → on_ack fs neg attempt u p net ≡ (ok r, net')
      → Same u r.1
  unfolding on_ack
  on_ack-Same a u (ok (ack block)) r net net' e =
      moved_Same u (a, record u { in_flight = (popped u block).0 }, (popped u block).1) r net net' e
        refl
  on_ack-Same a u (ok (error code msg)) r net net' e = cc
  on_ack-Same a u (ok (rrq f m o)) r net net' e = moved_Same u (a, u, false) r net net' e refl
  on_ack-Same a u (ok (wrq f m o)) r net net' e = moved_Same u (a, u, false) r net net' e refl
  on_ack-Same a u (ok (block_data b d)) r net net' e = moved_Same u (a, u, false) r net net' e refl
  on_ack-Same a u (ok (oack o)) r net net' e = moved_Same u (a, u, false) r net net' e refl
  on_ack-Same a u (err x) r net net' e = moved_Same u (a, u, false) r net net' e refl

  abbrev Mirrored : Upload fs → ℕ × Upload fs × Bool → Net → Option Bytes → ℕ → Net → Type 0
  Mirrored u r net got attempt net' =
      (on_received (sources fs) attempt (mirror u) got net ≡ mirror_moved (ok r, net')) × Same u r.1

  on_reply_mirror :
      (attempt : ℕ) (u : Upload fs) (got : Option Bytes) (r : ℕ × Upload fs × Bool) (net net' : Net)
      → on_reply fs neg retries attempt u got net ≡ (ok r, net')
      → Mirrored u r net got attempt net'
  on_reply_mirror a u (some buf) r net net' e = (
    on_packet-mirror a u (decode buf) net ∙ ap mirror_moved e,
    on_ack-Same a u (decode buf) r net net' e,
  )
  on_reply_mirror a u none r net net' e = elim (Bool-cases (leb retries a)) [
    | inl over ↦ let e' = raises over ∙ e in absurd (cc)
    | inr more ↦ (
      silence_waits (sources fs) a (mirror u) net more ∙ ap mirror_moved (waits more ∙ e),
      moved_Same u (a + 1, u, false) r net net' (waits more ∙ e) refl,
    )
  ]
    where
      raises : leb retries a ≡ true → (err (timeout a), net) ≡ no_ack fs neg retries a u net
      raises h = unfold no_ack in simp (h, no_ack)

      waits : leb retries a ≡ false → (ok (a + 1, u, false), net) ≡ no_ack fs neg retries a u net
      waits h = unfold no_ack in simp (h, no_ack)

  abbrev pub mirror_end : Ended (Upload fs) → Ended (Sender (sources fs))
  mirror_end (finished u) = finished (mirror u)
  mirror_end panicked = panicked
  mirror_end out_of_fuel = out_of_fuel

  abbrev pub SameEnd : Upload fs → Ended (Upload fs) → Type 0
  SameEnd u (finished u') = Same u u'
  SameEnd u panicked = Unit
  SameEnd u out_of_fuel = Unit

  abbrev pub mirror_ended :
      Result (Ended (Upload fs)) × Net → Result (Ended (Sender (sources fs))) × Net
  mirror_ended (ok end_, net) = (ok (mirror_end end_), net)
  mirror_ended (err e, net) = (err e, net)

  await_ack_form :
      (fuel attempt : ℕ) (u : Upload fs) (net : Net)
      → (send_frames peer u.in_flight >>= λ _. recv_one peer >>= λ got.
            on_reply fs neg retries attempt u got
            >>= until_moved fs neg (await_ack fs neg peer retries fuel))
          net
        ≡ await_ack fs neg peer retries (suc fuel) attempt u net
  await_ack_form fuel attempt u net = unfold await_ack in refl

  abbrev pub Awaits : ℕ → Type 0
  Awaits fuel =
      (attempt : ℕ) (u : Upload fs) (end_ : Ended (Upload fs)) (net net' : Net)
      → await_ack fs neg peer retries fuel attempt u net ≡ (ok end_, net')
      → (await (sources fs) fuel attempt (mirror u) net ≡ (ok (mirror_end end_), net'))
        × SameEnd u end_

  SameEnd-trans :
      (u u₁ : Upload fs) (end_ : Ended (Upload fs)) → Same u u₁ → SameEnd u₁ end_ → SameEnd u end_
  SameEnd-trans u u₁ (finished u') h k = Same-trans u u₁ u' h k
  SameEnd-trans u u₁ panicked h k = tt
  SameEnd-trans u u₁ out_of_fuel h k = tt

  moved_mirror :
      (fuel : ℕ) (u : Upload fs) (r : ℕ × Upload fs × Bool) (end_ : Ended (Upload fs))
      (net net' : Net)
      → Awaits fuel
      → Same u r.1
      → until_moved fs neg (await_ack fs neg peer retries fuel) r net ≡ (ok end_, net')
      → (unless_moved (sources fs) (await (sources fs) fuel) (r.0, mirror r.1, r.2) net
          ≡ (ok (mirror_end end_), net'))
        × SameEnd u end_
  moved_mirror fuel u (a, u₁, true) end_ net net' ih h e =
      let (is, _) = returned-eq e in (ap mirror_ended e, subst (SameEnd u) is h)
  moved_mirror fuel u (a, u₁, false) end_ net net' ih h e =
      let (there, same) = ih a u₁ end_ net net' e in (there, SameEnd-trans u u₁ end_ h same)

  -- Where the client's wait returns, the server's does so alike, and only what is in flight has
  -- changed.
  pub await_ack-await : (fuel : ℕ) → Awaits fuel
  await_ack-await zero a u end_ net net' e =
      let e' : ◌≡◌ {A = Result (Ended (Upload fs)) × Net} (ok out_of_fuel, net) (ok end_, net') =
        unfold await_ack in e in
      let (is, _) = returned-eq e' in
      let here : await (sources fs) zero a (mirror u) net ≡ (ok out_of_fuel, net) =
        unfold await in refl in
      (here ∙ ap mirror_ended e', subst (SameEnd u) is tt)
  await_ack-await (suc fuel) a u end_ net net' e =
      let (_, n₁, sent, e₁) =
        ran-eq-ok (send_frames peer u.in_flight net)
          (λ _. recv_one peer >>= λ got.
            on_reply fs neg retries a u got
            >>= until_moved fs neg (await_ack fs neg peer retries fuel))
          (await_ack_form fuel a u net ∙ e) in
      let (got, n₂, heard_, e₂) =
        ran-eq-ok (recv_one peer n₁)
          (λ got.
            on_reply fs neg retries a u got
            >>= until_moved fs neg (await_ack fs neg peer retries fuel))
          e₁ in
      let (r, n₃, replied, e₃) =
        ran-eq-ok (on_reply fs neg retries a u got n₂)
          (until_moved fs neg (await_ack fs neg peer retries fuel)) e₂ in
      let (server, same) = on_reply_mirror a u got r n₂ n₃ replied in
      let (rest, over) = moved_mirror fuel u r end_ n₃ net' (await_ack-await fuel) same e₃ in
      (
        await_form (sources fs) fuel a (mirror u) net
            ∙ ran-ok (send_window (sources fs) (mirror u) net)
                (λ _. recv_one peer >>= λ got.
                  on_received (sources fs) a (mirror u) got
                  >>= unless_moved (sources fs) (await (sources fs) fuel))
                tt n₁ (unfold send_window in sent)
            ∙ ran-ok (recv_one peer n₁)
                (λ got.
                  on_received (sources fs) a (mirror u) got
                  >>= unless_moved (sources fs) (await (sources fs) fuel))
                got n₂ heard_
            ∙ ran-ok (on_received (sources fs) a (mirror u) got n₂)
                (unless_moved (sources fs) (await (sources fs) fuel)) (r.0, mirror r.1, r.2) n₃
                server
            ∙ rest,
        over,
      )
