-- ===== src/Tests/Completed.antt =====
-- A write request over a network that loses and repeats packets, which is served to its end.
use atftp.Blocks.Decoded.{decoded}
use atftp.Common.{◌≡◌, refl, List, [], ◌∷◌, ◌++◌, none, some, true, false, Bytes, codes, arith}
use atftp.Error.{ok}
use atftp.Files.{Files, memory}
use atftp.Io.{Event, datagram, silence, Net, finished}
use atftp.PathSafe.{resolve}
use atftp.Proto.Options.{net_ascii, OptionSet, block_size, window_size}
use atftp.Proto.Packet.{decode}
use atftp.Server.Negotiate.{negotiate}
use atftp.Server.Receiver.Patient.{is_patient}
use atftp.Server.Receiver.Succeeds.{TakesWrites}
use atftp.Server.Receiver.Turns.{upload}
use atftp.Server.Receiver.{Receiver}
use atftp.Server.Serve.Completes.{serve_wrq-Completes}
use atftp.Server.Serve.{decoder_of, serve_wrq}
use atftp.Server.{Config, Negotiated}
use atftp.Tests.Disk.{memory_laws}
use atftp.Window.{wrapping_add}

abbrev cfg : Config
cfg = record {
  listen = 69;
  root = codes "/srv";
  allow_overwrite = false;
  timeout = 5;
  retries = 1;
  max_block_size = 65464;
  allow_windowsize = true;
}

abbrev small_blocks : Negotiated
small_blocks = record { blksize = 8; timeout = 5; windowsize = 2 }

abbrev disk : Files
disk = memory []

abbrev takes : TakesWrites disk
takes = record { writes = λ h bs. (h ++ bs, refl); flushes = λ h. (h, refl) }

-- A stranger, a block, silence, the block once more, silence, and the last block.
abbrev arriving : List Event
arriving =
    datagram 8 (codes "??")
    ∷ datagram 7 (0 ∷ 3 ∷ 0 ∷ 1 ∷ codes "abcdef\r\n")
    ∷ silence
    ∷ datagram 7 (0 ∷ 3 ∷ 0 ∷ 1 ∷ codes "abcdef\r\n")
    ∷ silence
    ∷ datagram 7 (0 ∷ 3 ∷ 0 ∷ 2 ∷ codes "gh")
    ∷ []

abbrev net : Net
net = record { inbox = arriving; outbox = []; send_fault = λ n. none }

abbrev options : OptionSet
options = record { items = block_size 8 ∷ window_size 2 ∷ [] }

abbrev blocks : List Bytes
blocks = codes "abcdef\r\n" ∷ codes "gh" ∷ []

abbrev up_txt : Bytes
up_txt = codes "up.txt"

resolved : resolve cfg.root up_txt ≡ ok (codes "/srv/up.txt")
unfolding resolve
resolved = refl

negotiated : negotiate cfg options none ≡ some (options, small_blocks)
unfolding negotiate
negotiated = refl

arrived : upload 8 7 1 arriving ≡ some blocks
unfolding upload decode wrapping_add
arrived = refl

patient : is_patient 1 7 1 arriving ≡ true
unfolding is_patient decode
patient = refl

serve_wrq-Completes_example :
    (r' : Receiver disk) × (net' : Net) × (serve_wrq disk 10 cfg 7 up_txt net_ascii options net
      ≡ (ok (finished r'), net'))
    × (r'.file ≡ [] ++ decoded (decoder_of net_ascii) blocks)
serve_wrq-Completes_example =
    serve_wrq-Completes disk (memory_laws []) takes 10 cfg 7 up_txt net_ascii options
      (codes "/srv/up.txt") [] options small_blocks net blocks resolved refl negotiated arrived
      patient (λ n. refl) (omega arith)
