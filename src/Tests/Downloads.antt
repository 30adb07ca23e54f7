-- ===== src/Tests/Downloads.antt =====
-- Read requests to src/server.rs, from the file to the packets.
use atftp.Blocks.{extend}
use atftp.Common.{ℕ, ◌≡◌, refl, List, [], ◌∷◌, none, length, true, false, arith, ap, Bytes, codes}
use atftp.Error.{ok}
use atftp.Files.{Files, Attempt, memory, done}
use atftp.Io.{datagram, silence, Net, finished}
use atftp.Proto.Options.Insert.{IsWellFormed}
use atftp.Proto.Options.{net_ascii, OptionSet, block_size, window_size, name}
use atftp.Server.Sender.Fills.{IsSending, Fills, fill_window-Fills}
use atftp.Server.Sender.Loop.{serve_rrq, new_sender}
use atftp.Server.Sender.Serves.{Serves, HasSizes, serve_rrq-Serves}
use atftp.Server.Sender.{Sender, fill_window}
use atftp.Server.{Config, Negotiated}
use atftp.Text.{str_eq}
use atftp.Tests.Disk.{memory_laws}
use atftp.Window.{wrapping_add}

abbrev cfg : Config
cfg = record {
  listen = 69;
  root = codes "/srv";
  allow_overwrite = false;
  timeout = 5;
  retries = 1;
  max_block_size = 65464;
  allow_windowsize = true;
}

-- 17 bytes, 18 on the wire.
abbrev content : Bytes
content = codes "0123456\n89abcdefg"

abbrev disk : Files
disk = memory content

abbrev options : OptionSet
options = record { items = block_size 8 ∷ window_size 2 ∷ [] }

abbrev small_blocks : Negotiated
small_blocks = record { blksize = 8; timeout = 5; windowsize = 2 }

abbrev start : Sender disk
start = new_sender disk cfg 7 small_blocks net_ascii content

abbrev filename : Bytes
filename = codes "up.txt"

-- ACK(0), ACK(1) once more for a window of two, a lost window, and the ACK of the last block.
abbrev net : Net
net = record {
  inbox =
      datagram 7 (0 ∷ 4 ∷ 0 ∷ 0 ∷ [])
      ∷ datagram 7 (0 ∷ 4 ∷ 0 ∷ 1 ∷ [])
      ∷ silence
      ∷ datagram 7 (0 ∷ 4 ∷ 0 ∷ 3 ∷ [])
      ∷ [];
  outbox = [];
  send_fault = λ n. none;
}

abbrev ended : Sender disk
ended = record start {
  feed = record { source = []; pending = []; eof = true };
  in_flight = [];
  next_block = 4;
  last_sent_short = true;
}

serve_end :
    serve_rrq disk 5 cfg 7 filename net_ascii options net
    ≡ (ok (finished ended), (serve_rrq disk 5 cfg 7 filename net_ascii options net).1)
unfolding serve_rrq wrapping_add extend
serve_end = refl

options-IsWellFormed : IsWellFormed options
unfolding name str_eq
options-IsWellFormed = record {
  valid = ((omega arith, omega arith), ((omega arith, omega arith), tt));
  distinct = ((refl, tt), (tt, tt));
}

done-injective : {A : Type 0} {a b : A} → ◌≡◌ {A = Attempt A} (done a) (done b) → a ≡ b
done-injective e = cc

disk-HasSizes : HasSizes disk (memory_laws content)
disk-HasSizes path h n o z =
    let size : length h ≡ n = done-injective z in
    let whole : content ≡ h = done-injective o in omega (arith, ap (length {A = ℕ}) whole)

serve_rrq-Serves_example :
    Serves disk
      (memory_laws content)
      cfg
      7
      filename
      net_ascii
      options
      net
      (serve_rrq disk 5 cfg 7 filename net_ascii options net).1
serve_rrq-Serves_example =
    serve_rrq-Serves disk (memory_laws content) 5 cfg 7 filename net_ascii options net
      (serve_rrq disk 5 cfg 7 filename net_ascii options net).1 ended options-IsWellFormed
      disk-HasSizes serve_end

start-IsSending : IsSending disk (memory_laws content) start
start-IsSending = record { honest = λ no. cc; blksize = omega arith; windowsize = omega arith }

-- The window behind the first filling.
abbrev window : Sender disk
window = record start {
  feed = record { source = codes "g"; pending = codes "f"; eof = false };
  in_flight = (1, codes "0123456\r") ∷ (2, codes "\n89abcde") ∷ [];
  next_block = 3;
}

start-window : fill_window disk start ≡ ok window
unfolding fill_window wrapping_add extend
start-window = refl

fill_window-Fills_example :
    (blocks : List Bytes) × Fills disk (memory_laws content) start blocks window
fill_window-Fills_example =
    fill_window-Fills disk (memory_laws content) start window start-IsSending start-window
