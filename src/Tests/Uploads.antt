-- ===== src/Tests/Uploads.antt =====
-- Write requests to src/server.rs, from the packets to the file.
use atftp.Common.{
  ◌≡◌, ◌≢◌, refl, List, [], ◌∷◌, none, some, true, false, Option, arith, Bytes, codes,
}
use atftp.Error.{Result, ok}
use atftp.Files.{Files, memory}
use atftp.Io.{Event, datagram, silence, Net, Ended, finished, out_of_fuel}
use atftp.Proto.Options.{net_ascii, OptionSet, block_size, window_size}
use atftp.Server.Receiver.Ends.{run_ends}
use atftp.Server.Receiver.Stored.{Holds, coming, run-Holds}
use atftp.Server.Serve.Stores.{Stores, serve_wrq-Stores}
use atftp.Server.Receiver.{Receiver, run}
use atftp.Server.Serve.{serve_wrq, new_receiver}
use atftp.Server.{Config, Negotiated}
use atftp.Tests.Disk.{memory_laws}
use atftp.Window.{wrapping_add}

abbrev cfg : Config
cfg = record {
  listen = 69;
  root = codes "/srv";
  allow_overwrite = false;
  timeout = 5;
  retries = 1;
  max_block_size = 65464;
  allow_windowsize = true;
}

-- Blocks of 8 bytes, two to a window.
abbrev small_blocks : Negotiated
small_blocks = record { blksize = 8; timeout = 5; windowsize = 2 }

abbrev disk : Files
disk = memory []

abbrev start : Receiver disk
start = new_receiver disk cfg 7 small_blocks net_ascii []

-- A stranger, a block, silence, the block once more, and the last block.
abbrev arriving : List Event
arriving =
    datagram 8 (codes "??")
    ∷ datagram 7 (0 ∷ 3 ∷ 0 ∷ 1 ∷ codes "abcdef\r\n")
    ∷ silence
    ∷ datagram 7 (0 ∷ 3 ∷ 0 ∷ 1 ∷ codes "abcdef\r\n")
    ∷ datagram 7 (0 ∷ 3 ∷ 0 ∷ 2 ∷ codes "gh")
    ∷ []

abbrev net : Net
net = record { inbox = arriving; outbox = []; send_fault = λ n. none }

abbrev stored : Result (Ended (Receiver disk)) → Option Bytes
stored (ok (finished r)) = some r.file
stored _ = none

upload_run : stored (run disk 10 0 start net).0 ≡ some (codes "abcdef\ngh")
unfolding run wrapping_add
upload_run = refl

abbrev options : OptionSet
options = record { items = block_size 8 ∷ window_size 2 ∷ [] }

-- The receiver behind the last block.
abbrev ended : Receiver disk
ended = record start {
  file = codes "abcdef\ngh";
  next_block = 3;
  blocks_in_window = 1;
  last_acked = 2;
  finished = true;
}

run_end : run disk 10 0 start net ≡ (ok (finished ended), (run disk 10 0 start net).1)
unfolding run wrapping_add
run_end = refl

abbrev name : Bytes
name = codes "up.txt"

serve_end :
    serve_wrq disk 10 cfg 7 name net_ascii options net
    ≡ (ok (finished ended), (serve_wrq disk 10 cfg 7 name net_ascii options net).1)
unfolding serve_wrq wrapping_add
serve_end = refl

serve_wrq-Stores_example : Stores disk (memory_laws []) cfg 7 name net_ascii options arriving ended
serve_wrq-Stores_example =
    serve_wrq-Stores disk (memory_laws []) 10 cfg 7 name net_ascii options net
      (serve_wrq disk 10 cfg 7 name net_ascii options net).1 ended serve_end

run-Holds_example :
    Holds disk (memory_laws []) start (coming disk (memory_laws []) start arriving 1) ended
run-Holds_example =
    run-Holds disk (memory_laws []) 10 0 start ended net (run disk 10 0 start net).1 refl run_end

run_ends_example : (run disk 10 0 start net).0 ≢ ok out_of_fuel
run_ends_example = run_ends disk (memory_laws []) 10 start net (omega arith)
