-- ===== src/Client/Transfers/Results.antt =====
-- What the transfers of `Client` in src/client.rs return.
use atftp.Blocks.Decoded.{decoded}
use atftp.Blocks.Stream.{encoded}
use atftp.Client.Source.{slice, encoding, new_source}
use atftp.Client.Upload.Loop.{do_put}
use atftp.Client.Upload.Puts.{Puts, do_put-Puts}
use atftp.Client.Upload.{Upload}
use atftp.Proto.Options.{Mode}
use atftp.Server.Serve.{decoder_of}
use atftp.Client.Download.Alike.{after_turn, download_stops, download_round}
use atftp.Client.Download.Gets.{Gets, with_form, goes_on, asks, do_get_form, do_get-Gets}
use atftp.Client.Download.Keeps.{download-keeps, store_block-keeps}
use atftp.Client.Download.{
  Download, new_download, store_block, on_got, download, first, with_answer, do_get,
}
use atftp.Client.Request.{Answer}
use atftp.Client.Download.Counts.{text}
use atftp.Client.Sink.Keeps.{put_block-Keeps, finish_sink-Keeps}
use atftp.Client.Sink.{
  Sink, file, vec, u64_mod, Writer, new_vec, vec_in, into_vec, write_sink, flush_sink, put_block,
  finish_sink,
}
use atftp.Client.Transfers.{Client, or_panic, vec_of, get_to_vec, put_bytes, total_of}
use atftp.Client.{Options}
use atftp.Common.{
  ℕ, zero, suc, ◌+◌, ◌%◌, length, ◌≡◌, ◌≢◌, inl, inr, refl, sym, ap, ◌∙◌, Bool, true, false, List,
  [], ◌++◌, Option, none, some, ◌==◌, if◌then◌else◌, Bytes, Bool-cases, subst,
}
use atftp.Error.{ok, err, unexpected_packet}
use atftp.Files.{Files, FilesLaws, done}
use atftp.Io.Receive.{ran-eq-ok, returned-eq}
use atftp.Io.{Address, Event, Net, ◌>>=◌, pure, recv_one, Ended, finished, panicked, out_of_fuel}
use atftp.Server.{Negotiated}

module _ (fs : Files) where
  -- A sink in memory stays one.
  abbrev IsVec : Sink fs.Handle → ℕ → Type 0
  IsVec sink bytes = (v : Bytes) × (sink ≡ vec v)

  write_sink-IsVec :
      (sink sink' : Sink fs.Handle) (bytes : ℕ) (buf : Bytes)
      → write_sink fs sink buf ≡ done sink'
      → IsVec sink bytes
      → IsVec sink' ((bytes + length buf) % u64_mod)
  write_sink-IsVec (vec v) sink' bytes buf e c = (v ++ buf, cc)
  write_sink-IsVec (file h) sink' bytes buf e (v, is) = cc

  flush_sink-IsVec :
      (sink sink' : Sink fs.Handle) (bytes : ℕ)
      → flush_sink fs sink ≡ done sink'
      → IsVec sink bytes
      → IsVec sink' bytes
  flush_sink-IsVec (vec v) sink' bytes e c = (v, cc)
  flush_sink-IsVec (file h) sink' bytes e (v, is) = cc

  abbrev HasVec : Writer fs → Type 0
  HasVec w = IsVec w.sink w.bytes

  put_vec : (w w' : Writer fs) (block : Bytes) → put_block fs w block ≡ ok w' → HasVec w → HasVec w'
  put_vec = put_block-Keeps fs IsVec write_sink-IsVec flush_sink-IsVec

  end_vec : (w w' : Writer fs) → finish_sink fs w ≡ ok w' → HasVec w → HasVec w'
  end_vec = finish_sink-Keeps fs IsVec write_sink-IsVec flush_sink-IsVec

  -- The loop does not panic.
  download_safe :
      (neg : Negotiated) (peer : Address) (fuel retries attempt : ℕ) (d : Download fs)
      (net net' : Net)
      → download fs neg peer fuel retries attempt d net ≢ (ok panicked, net')
  download_safe neg peer zero retries attempt d net net' e = unfold download in cc
  download_safe neg peer (suc fuel) retries attempt d net net' e = elim (Bool-cases d.finished) [
    | inl over ↦ let e' = sym (download_stops fs neg peer retries fuel attempt d net over) ∙ e in cc
    | inr goes ↦
        let (got, mid, _, e₁) =
          ran-eq-ok (recv_one peer net)
            (λ got.
              on_got fs neg peer retries attempt d got >>= after_turn fs neg peer retries fuel)
            (sym (download_round fs neg peer retries fuel attempt d net goes) ∙ e) in
        let ((attempt', d₁), behind, _, e₂) =
          ran-eq-ok (on_got fs neg peer retries attempt d got mid)
            (after_turn fs neg peer retries fuel) e₁ in
        download_safe neg peer fuel retries attempt' d₁ behind net' e₂
  ]

  first_vec :
      (answer : Answer) (w : Writer fs) (data_ : Option (ℕ × Bytes)) (d : Download fs)
      (net net' : Net)
      → first fs answer w data_ net ≡ (ok d, net')
      → HasVec w
      → HasVec d.writer
  first_vec answer w none d net net' e p =
      let (is, _) = returned-eq e in subst HasVec (ap (λ (x : Download fs). x.writer) is) p
  first_vec answer w (some (block, payload)) d net net' e p = go (block == 1) e
    where
      go :
          (one : Bool)
          → (if one
                then store_block fs answer.neg answer.peer (new_download fs w) block payload
                else λ (n : Net). (err unexpected_packet, n))
              net
            ≡ (ok d, net')
          → HasVec d.writer
      go true e' =
          store_block-keeps fs answer.neg answer.peer HasVec put_vec end_vec (new_download fs w) d
            block payload net net' e' p
      go false e' = cc

  -- How a download into memory ends.
  abbrev IsSafe : Ended (Download fs) → Type 0
  IsSafe (finished d) = HasVec d.writer
  IsSafe panicked = ⊥
  IsSafe out_of_fuel = Unit {0}

module _ (fs : Files) (laws : FilesLaws fs) where
  loop-IsSafe :
      (fuel : ℕ) (opts : Options) (answer : Answer) (d : Download fs) (end_ : Ended (Download fs))
      (net net' : Net)
      → download fs answer.neg answer.peer fuel opts.retries 0 d net ≡ (ok end_, net')
      → HasVec fs d.writer
      → IsSafe fs end_
  loop-IsSafe fuel opts answer d (finished d') net net' e p =
      download-keeps fs answer.neg answer.peer (HasVec fs) (put_vec fs) (end_vec fs) fuel
        opts.retries 0 d d' net net' e p
  loop-IsSafe fuel opts answer d panicked net net' e p =
      download_safe fs answer.neg answer.peer fuel opts.retries 0 d net net' e
  loop-IsSafe fuel opts answer d out_of_fuel net net' e p = tt

  do_get-IsSafe :
      (fuel : ℕ) (opts : Options) (server : Address) (remote : Bytes) (w : Writer fs)
      (end_ : Ended (Download fs)) (net net' : Net)
      → do_get fs fuel opts server remote w net ≡ (ok end_, net')
      → HasVec fs w
      → IsSafe fs end_
  do_get-IsSafe fuel opts server remote w end_ net net' e p =
      let (answer, mid, _, e₁) =
        ran-eq-ok (asks fs laws opts server remote net)
          (λ answer. with_answer fs fuel opts w answer)
          (do_get_form fs laws fuel opts server remote w net ∙ e) in
      let (d, behind, begun, e₂) =
        ran-eq-ok (first fs answer w answer.first_data mid) (goes_on fs laws fuel opts answer)
          (with_form fs laws fuel opts w answer mid ∙ e₁) in
      loop-IsSafe fuel opts answer d end_ behind net' e₂
        (first_vec fs answer w answer.first_data d mid behind begun p)

  vec_back : (d : Download fs) (v : Bytes) → d.writer.sink ≡ vec v → into_vec d.writer ≡ some v
  vec_back d v is = unfold into_vec in ap vec_in is

  -- What `get_to_vec` returns: the blocks of a download, decoded. It does not panic.
  abbrev pub Fetched : Client → List Event → Ended Bytes → Type 0
  Fetched client inbox (finished v) =
      (w' : Writer fs) × (g : Gets fs laws client.options (new_vec client.options.mode) inbox w')
      × (v ≡ decoded (decoder_of client.options.mode) g.blocks)
  Fetched client inbox panicked = ⊥
  Fetched client inbox out_of_fuel = Unit {0}

  fetched :
      (fuel : ℕ) (client : Client) (remote : Bytes) (end_ : Ended (Download fs)) (net net' : Net)
      → do_get fs fuel client.options client.server remote (new_vec client.options.mode) net
        ≡ (ok end_, net')
      → IsSafe fs end_
      → Fetched client net.inbox (vec_of fs fuel client end_)
  unfolding new_vec
  fetched fuel client remote (finished d) net net' e (v, is) =
      subst (Fetched client net.inbox) (ap (or_panic fs fuel client) (sym (vec_back d v is)))
        (d.writer, g, ap (text fs laws) (sym is) ∙ g.written)
    where
      g : Gets fs laws client.options (new_vec client.options.mode) net.inbox d.writer
      g =
          do_get-Gets fs laws fuel client.options client.server remote (new_vec client.options.mode)
            d net net' refl e
  fetched fuel client remote panicked net net' e safe = safe
  fetched fuel client remote out_of_fuel net net' e safe = tt

  get_to_vec_form :
      (fuel : ℕ) (client : Client) (remote : Bytes) (net : Net)
      → (do_get fs fuel client.options client.server remote (new_vec client.options.mode)
            >>= λ end_. pure (vec_of fs fuel client end_))
          net
        ≡ get_to_vec fs fuel client remote net
  get_to_vec_form fuel client remote net = unfold get_to_vec in refl

  new_vec-HasVec : (mode : Mode) → HasVec fs (new_vec mode)
  unfolding new_vec
  new_vec-HasVec mode = ([], refl)

  -- A download into memory does not come to the unreachable arm of `into_vec`, however it ends, and
  -- where it ends well, the bytes that it returns are the blocks of a download, decoded in the
  -- mode of the client.
  pub get_to_vec-Fetched :
      (fuel : ℕ) (client : Client) (remote : Bytes) (end_ : Ended Bytes) (net net' : Net)
      → get_to_vec fs fuel client remote net ≡ (ok end_, net')
      → Fetched client net.inbox end_
  get_to_vec-Fetched fuel client remote end_ net net' e =
      let (got, mid, ran, e₁) =
        ran-eq-ok
          (do_get fs fuel client.options client.server remote (new_vec client.options.mode) net)
          (λ end_. pure (vec_of fs fuel client end_))
          (get_to_vec_form fuel client remote net ∙ e) in
      let (is, _) = returned-eq e₁ in
      subst (Fetched client net.inbox) is (
        fetched fuel client remote got net mid ran (
          do_get-IsSafe fuel client.options client.server remote (new_vec client.options.mode) got
            net mid ran (new_vec-HasVec client.options.mode)))

  -- What `put_bytes` returns: the length of the data on the wire, which has been sent.
  abbrev pub PutAll : Client → Bytes → Net → Net → Ended ℕ → Type 0
  PutAll client data_ net net' (finished n) =
      (u' : Upload fs) × Puts fs laws client.options (slice data_ 0) (some (length data_)) net.inbox
        net.outbox u' net'
      × (n ≡ length (encoded (encoding client.options.mode) data_) % u64_mod)
  PutAll client data_ net net' panicked = Unit {0}
  PutAll client data_ net net' out_of_fuel = Unit {0}

  put_bytes_form :
      (fuel : ℕ) (client : Client) (remote data_ : Bytes) (net : Net)
      → (do_put fs fuel client.options client.server remote
              (new_source (slice data_ 0) client.options.mode)
              (some (length data_))
            >>= λ end_. pure (total_of fs fuel client end_))
          net
        ≡ put_bytes fs fuel client remote data_ net
  put_bytes_form fuel client remote data_ net = unfold put_bytes in refl

  put_all :
      (fuel : ℕ) (client : Client) (remote data_ : Bytes) (end_ : Ended (Upload fs))
      (net net' : Net)
      → do_put fs fuel client.options client.server remote
          (new_source (slice data_ 0) client.options.mode)
          (some (length data_))
          net
        ≡ (ok end_, net')
      → PutAll client data_ net net' (total_of fs fuel client end_)
  put_all fuel client remote data_ (finished u) net net' e =
      let p =
        do_put-Puts fs laws fuel client.options client.server remote (slice data_ 0)
          (some (length data_)) u net net' e in
      (u, p, p.counted)
  put_all fuel client remote data_ panicked net net' e = tt
  put_all fuel client remote data_ out_of_fuel net net' e = tt

  -- An upload from memory that ends well has sent the data, encoded in the mode of the client, and
  -- no other DATA, and returns how many bytes that is, as a u64.
  pub put_bytes-PutAll :
      (fuel : ℕ) (client : Client) (remote data_ : Bytes) (end_ : Ended ℕ) (net net' : Net)
      → put_bytes fs fuel client remote data_ net ≡ (ok end_, net')
      → PutAll client data_ net net' end_
  put_bytes-PutAll fuel client remote data_ end_ net net' e =
      let (got, mid, ran, e₁) =
        ran-eq-ok
          (do_put fs fuel client.options client.server remote
            (new_source (slice data_ 0) client.options.mode) (some (length data_)) net)
          (λ end_. pure (total_of fs fuel client end_))
          (put_bytes_form fuel client remote data_ net ∙ e) in
      let (is, net_is) = returned-eq e₁ in
      subst (PutAll client data_ net net') is (
        subst (λ (n : Net). PutAll client data_ net n (total_of fs fuel client got)) net_is
          (put_all fuel client remote data_ got net mid ran))
