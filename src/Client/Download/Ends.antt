-- ===== src/Client/Download/Ends.antt =====
-- `do_get` of src/client.rs comes to an end.
use atftp.Client.Download.Alike.{seen, download-run_ends, accept-seen}
use atftp.Client.Download.Gets.{
  with_form, goes_on, first_arm, begun_by, begun_form, wants, asks, do_get_form,
}
use atftp.Client.Download.Loaded.{sink_laws}
use atftp.Client.Download.Sinks.{sinks}
use atftp.Client.Download.{
  Download, new_download, store_block, download, with_answer, do_get, read_request,
}
use atftp.Client.Request.Answered.{Found, request-Found}
use atftp.Client.Request.Arms.{IsGetAnswer, accepted, begun, get_arm_lem}
use atftp.Client.Request.{Answer, get_arm}
use atftp.Client.Sink.{Writer}
use atftp.Client.{Options, merge_oack}
use atftp.Common.{
  ℕ, ◌+◌, ◌≡◌, ◌≢◌, ◌≤◌, inl, inr, sym, ap, ◌∙◌, Bool, true, false, List, ◌∷◌, length, ltb, ◌==◌,
  Bytes, Bool-cases, length-append, arith,
}
use atftp.Error.{Result, ok}
use atftp.Files.{Files, FilesLaws}
use atftp.Io.Receive.{ran-eq-ok}
use atftp.Io.{Address, Event, datagram, Net, ◌>>=◌, Ended, out_of_fuel}
use atftp.Server.Receiver.Ends.{run_ends}
use atftp.Server.Receiver.Writes.{accept_last, accept_more}
use atftp.Server.Receiver.{Receiver}
use atftp.Server.{Negotiated, defaults}

module _ (fs : Files) (laws : FilesLaws fs) where
  download_ends :
      (neg : Negotiated) (peer : Address) (fuel retries : ℕ) (d : Download fs) (net net' : Net)
      → length net.inbox + retries + 2 ≤ fuel
      → download fs neg peer fuel retries 0 d net ≢ (ok out_of_fuel, net')
  download_ends neg peer fuel retries d net net' enough e =
      run_ends (sinks fs) (sink_laws fs laws) fuel (seen fs neg peer retries d) net enough (
        ap (λ (x : Result (Ended (Receiver (sinks fs))) × Net). x.0)
          (download-run_ends fs neg peer retries fuel 0 d out_of_fuel net net' e))

  store_block-inbox :
      (neg : Negotiated) (peer : Address) (w : Writer fs) (d : Download fs) (payload : Bytes)
      (block : ℕ) (net net' : Net)
      → store_block fs neg peer (new_download fs w) block payload net ≡ (ok d, net')
      → net'.inbox ≡ net.inbox
  store_block-inbox neg peer w d payload block net net' e =
      let e' = accept-seen fs neg peer 0 (new_download fs w) d block payload net net' e in
      elim (Bool-cases (ltb (length payload) neg.blksize)) [
        | inl last ↦
            (accept_last (sinks fs) (sink_laws fs laws) (seen fs neg peer 0 (new_download fs w))
              (seen fs neg peer 0 d) block payload net net' last e').1
        | inr more ↦
            (accept_more (sinks fs) (sink_laws fs laws) (seen fs neg peer 0 (new_download fs w))
              (seen fs neg peer 0 d) block payload net net' more e').1
      ]

  begun_ends :
      (fuel : ℕ) (opts : Options) (w : Writer fs) (peer : Address) (payload : Bytes) (block : ℕ)
      (one : Bool) (net net' : Net)
      → length net.inbox + opts.retries + 2 ≤ fuel
      → (first_arm fs laws one (begun_by fs laws peer block payload) w block payload
            >>= goes_on fs laws fuel opts (begun_by fs laws peer block payload))
          net
        ≢ (ok out_of_fuel, net')
  unfolding begun_by
  begun_ends fuel opts w peer payload block false net net' enough e = cc
  begun_ends fuel opts w peer payload block true net net' enough e =
      let (d, mid, stored, e₁) =
        ran-eq-ok (store_block fs defaults peer (new_download fs w) block payload net)
          (goes_on fs laws fuel opts (begun_by fs laws peer block payload)) e in
      download_ends defaults peer fuel opts.retries d mid net'
        (rw (store_block-inbox defaults peer w d payload block net mid stored) enough) e₁

  answered_ends :
      (fuel : ℕ) (opts : Options) (w : Writer fs) (answer : Answer) (inbox : List Event)
      (mid net' : Net)
      → Found (get_arm (wants fs laws opts)) inbox answer mid
      → length inbox + opts.retries + 2 ≤ fuel
      → with_answer fs fuel opts w answer mid ≢ (ok out_of_fuel, net')
  unfolding begun_by
  answered_ends fuel opts w answer inbox mid net' f enough e =
      go (
        get_arm_lem (wants fs laws opts) f.src f.packet f.action answer f.behind mid f.taken
          f.acted)
    where
      less : length f.behind.inbox ≤ length inbox
      less = omega (
        arith,
        ap (length {A = Event}) f.arrived,
        length-append f.front (datagram f.src f.raw ∷ f.behind.inbox),
      )

      go : IsGetAnswer (wants fs laws opts) f.src f.packet answer f.behind mid → ⊥
      go (accepted options want is answer_is left) =
          download_ends (merge_oack defaults options) f.src fuel opts.retries (new_download fs w)
            mid net' (rw left (omega (arith, less)))
            (with_form fs laws fuel opts w _ mid
              ∙ ap (λ (a : Answer). with_answer fs fuel opts w a mid) (sym answer_is)
              ∙ e)
      go (begun block payload is answer_is left) =
          begun_ends fuel opts w f.src payload block (block == 1) mid net'
            (rw left (omega (arith, less)))
            (begun_form fs laws fuel opts w f.src block payload mid
              ∙ ap (λ (a : Answer). with_answer fs fuel opts w a mid) (sym answer_is)
              ∙ e)

  -- A download comes to an end, whatever arrives: with a round for each event that arrives, each
  -- retry, and two more, it returns, with or without an error.
  pub do_get_ends :
      (fuel : ℕ) (opts : Options) (server : Address) (remote : Bytes) (w : Writer fs)
      (net net' : Net)
      → length net.inbox + opts.retries + 2 ≤ fuel
      → do_get fs fuel opts server remote w net ≢ (ok out_of_fuel, net')
  unfolding asks
  do_get_ends fuel opts server remote w net net' enough e =
      let (answer, mid, answered, e₁) =
        ran-eq-ok (asks fs laws opts server remote net)
          (λ answer. with_answer fs fuel opts w answer)
          (do_get_form fs laws fuel opts server remote w net ∙ e) in
      answered_ends fuel opts w answer net.inbox mid net'
        (request-Found (get_arm (wants fs laws opts)) opts.retries server
          (read_request fs opts remote) (opts.retries + 1) 0 answer net mid answered)
        enough e₁
