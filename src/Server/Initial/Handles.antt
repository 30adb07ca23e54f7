-- ===== src/Server/Initial/Handles.antt =====
-- What src/server.rs does with a first packet.
use atftp.Common.{◌≡◌, ◌⊎◌, inl, inr, refl, sym, ap, ◌∙◌, Bool, true, false, Bytes, ℕ, subst}
use atftp.Error.{Error, Result, ok, err}
use atftp.Files.{Files, Attempt, done, failed}
use atftp.Io.Receive.{returned-eq}
use atftp.Io.{Address, Net, pure, continue, Ended}
use atftp.Proto.Options.{Mode, OptionSet}
use atftp.Proto.Packet.{Packet, rrq, wrq, block_data, ack, error, oack, decode}
use atftp.Server.Initial.{Handled, ignored, sent, received, serve, handle_decoded, handle_initial}
use atftp.Server.Receiver.{Receiver}
use atftp.Server.Sender.Loop.{serve_rrq}
use atftp.Server.Sender.{Sender}
use atftp.Server.Serve.{serve_wrq}
use atftp.Server.{Config}

abbrev pub is_request : Packet → Bool
is_request (rrq _ _ _) = true
is_request (wrq _ _ _) = true
is_request _ = false

module _ (fs : Files) (fuel : ℕ) (cfg : Config) (peer : Address) where
  -- How a packet is dealt with: a request by its transfer, and nothing else at all.
  abbrev pub Deals : Packet → Net → Handled fs → Net → Type 0
  Deals p net ignored net' = (is_request p ≡ false) × (net' ≡ net)
  Deals p net (sent end_) net' =
      (f : Bytes) × (m : Mode) × (o : OptionSet) × (p ≡ rrq f m o)
      × (serve_rrq fs fuel cfg peer f m o net ≡ (ok end_, net'))
  Deals p net (received end_) net' =
      (f : Bytes) × (m : Mode) × (o : OptionSet) × (p ≡ wrq f m o)
      × (serve_wrq fs fuel cfg peer f m o net ≡ (ok end_, net'))

  sent-Deals :
      (f : Bytes) (m : Mode) (o : OptionSet) (run : Result (Ended (Sender fs)) × Net) (net : Net)
      (h : Handled fs) {net' : Net}
      → serve_rrq fs fuel cfg peer f m o net ≡ run
      → continue {B = Handled fs} run.0 (λ end_. pure (sent end_)) run.1 ≡ (ok h, net')
      → Deals (rrq f m o) net h net'
  sent-Deals f m o (ok end_, mid) net h {net'} is e =
      let (h_is, same) = returned-eq e in
      subst (λ (x : Handled fs). Deals (rrq f m o) net x net') h_is
        (f, m, o, refl, is ∙ ap (λ (n : Net). (ok end_, n)) same)
  sent-Deals f m o (err x, mid) net h {net'} is e = cc

  received-Deals :
      (f : Bytes) (m : Mode) (o : OptionSet) (run : Result (Ended (Receiver fs)) × Net) (net : Net)
      (h : Handled fs) {net' : Net}
      → serve_wrq fs fuel cfg peer f m o net ≡ run
      → continue {B = Handled fs} run.0 (λ end_. pure (received end_)) run.1 ≡ (ok h, net')
      → Deals (wrq f m o) net h net'
  received-Deals f m o (ok end_, mid) net h {net'} is e =
      let (h_is, same) = returned-eq e in
      subst (λ (x : Handled fs). Deals (wrq f m o) net x net') h_is
        (f, m, o, refl, is ∙ ap (λ (n : Net). (ok end_, n)) same)
  received-Deals f m o (err x, mid) net h {net'} is e = cc

  ignored-Deals :
      (p : Packet) (net net' : Net) (h : Handled fs)
      → is_request p ≡ false
      → ◌≡◌ {A = Result (Handled fs) × Net} (ok ignored, net) (ok h, net')
      → Deals p net h net'
  ignored-Deals p net net' h no_ e =
      let (h_is, same) = returned-eq e in
      subst (λ (x : Handled fs). Deals p net x net') h_is (no_, sym same)

  serve-Deals :
      (p : Packet) (net net' : Net) (h : Handled fs)
      → serve fs fuel cfg peer p net ≡ (ok h, net')
      → Deals p net h net'
  serve-Deals (rrq f m o) net net' h e =
      sent-Deals f m o (serve_rrq fs fuel cfg peer f m o net) net h refl e
  serve-Deals (wrq f m o) net net' h e =
      received-Deals f m o (serve_wrq fs fuel cfg peer f m o net) net h refl e
  serve-Deals (block_data b d) net net' h e = ignored-Deals (block_data b d) net net' h refl e
  serve-Deals (ack b) net net' h e = ignored-Deals (ack b) net net' h refl e
  serve-Deals (error k m) net net' h e = ignored-Deals (error k m) net net' h refl e
  serve-Deals (oack o) net net' h e = ignored-Deals (oack o) net net' h refl e

  -- How a frame is dealt with.
  abbrev pub Handles : Bytes → Net → Handled fs → Net → Type 0
  Handles frame net h net' =
      ((e : Error) × (decode frame ≡ err e) × (h ≡ ignored) × (net' ≡ net))
      ⊎ ((p : Packet) × (decode frame ≡ ok p) × Deals p net h net')

  decoded-Handles :
      (bound : Attempt (Unit {0})) (frame : Bytes) (r : Result Packet) (net net' : Net)
      (h : Handled fs)
      → decode frame ≡ r
      → handle_decoded fs fuel cfg peer bound r net ≡ (ok h, net')
      → Handles frame net h net'
  decoded-Handles bound frame (err x) net net' h is e =
      let (h_is, same) = returned-eq e in inl (x, is, sym h_is, sym same)
  decoded-Handles (failed kind) frame (ok p) net net' h is e = cc
  decoded-Handles (done u) frame (ok p) net net' h is e = inr (p, is, serve-Deals p net net' h e)

  -- A task that ends without an error has served what it was sent: a read request by `serve_rrq`, a
  -- write request by `serve_wrq`, each with the fields of the packet; a frame that is no packet,
  -- or a packet that is no request, has no effect at all: nothing is sent or received.
  pub handle_initial-Handles :
      (bound : Attempt (Unit {0})) (frame : Bytes) (h : Handled fs) (net net' : Net)
      → handle_initial fs fuel cfg peer bound frame net ≡ (ok h, net')
      → Handles frame net h net'
  handle_initial-Handles bound frame h net net' e =
      decoded-Handles bound frame (decode frame) net net' h refl (unfold handle_initial in e)
