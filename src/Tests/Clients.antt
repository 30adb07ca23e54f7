-- ===== src/Tests/Clients.antt =====
-- Transfers of the client in src/client.rs.
use atftp.Blocks.{extend}
use atftp.Client.Download.Alike.{seen, download-run}
use atftp.Client.Download.Ends.{do_get_ends}
use atftp.Client.Download.Gets.{Gets, do_get-Gets}
use atftp.Client.Download.Sinks.{sinks}
use atftp.Client.Download.{Download, new_download, download, do_get}
use atftp.Client.Sink.{vec, Writer, new_vec}
use atftp.Client.Source.{slice, new_source}
use atftp.Client.Transfers.Results.{Fetched, PutAll, get_to_vec-Fetched, put_bytes-PutAll}
use atftp.Client.Transfers.{Client, get_to_vec, put_bytes}
use atftp.Client.Upload.Ends.{do_put_ends}
use atftp.Client.Upload.Loop.{do_put, upload_all}
use atftp.Client.Upload.Puts.{start-IsUploading}
use atftp.Client.Upload.Rounds.{Uploading, Finishes, upload_all-run}
use atftp.Client.Upload.{Upload, new_upload}
use atftp.Client.{Options, default_options}
use atftp.Common.{
  ℕ, ◌≡◌, ◌≢◌, refl, List, [], ◌∷◌, ◌++◌, none, some, true, Option, arith, Bytes, codes,
}
use atftp.Error.{Result, ok}
use atftp.Files.{Files, memory}
use atftp.Io.{Event, datagram, silence, Net, Ended, finished, out_of_fuel}
use atftp.Netascii.{new, wire_byte}
use atftp.Proto.Options.{net_ascii, name, from_pairs}
use atftp.Server.Receiver.{run}
use atftp.Server.{Negotiated}
use atftp.Text.{str_eq, parse_uint}
use atftp.Tests.Disk.{memory_laws}
use atftp.Window.{wrapping_add, wrapping_sub}

abbrev opts : Options
opts = record default_options {
  mode = net_ascii;
  blksize = some 8;
  windowsize = some 2;
  retries = 1;
}

abbrev client : Client
client = record { server = 69; options = opts }

abbrev disk : Files
disk = memory []

abbrev oack_8_2 : Bytes
oack_8_2 =
    0 ∷ 6 ∷ codes "blksize" ++ 0 ∷ codes "8" ++ 0 ∷ codes "windowsize" ++ 0 ∷ codes "2" ++ 0 ∷ []

-- Silence, the OACK from another port, a stranger, block 1 twice, and the last block.
abbrev arriving : List Event
arriving =
    silence
    ∷ datagram 7 oack_8_2
    ∷ datagram 8 (codes "??")
    ∷ datagram 7 (0 ∷ 3 ∷ 0 ∷ 1 ∷ codes "abcdef\r\n")
    ∷ datagram 7 (0 ∷ 3 ∷ 0 ∷ 1 ∷ codes "abcdef\r\n")
    ∷ datagram 7 (0 ∷ 3 ∷ 0 ∷ 2 ∷ codes "gh")
    ∷ []

abbrev net : Net
net = record { inbox = arriving; outbox = []; send_fault = λ n. none }

abbrev remote : Bytes
remote = codes "down.txt"

abbrev got : Result (Ended Bytes) → Option Bytes
got (ok (finished v)) = some v
got _ = none

get_run : got (get_to_vec disk 10 client remote net).0 ≡ some (codes "abcdef\ngh")
unfolding get_to_vec wrapping_add name str_eq from_pairs parse_uint
get_run = refl

abbrev sent_total : Result (Ended ℕ) → Option ℕ
sent_total (ok (finished n)) = some n
sent_total _ = none

-- The OACK, ACK(1) of a window of two, and ACK(3).
abbrev acks : List Event
acks =
    datagram 7 oack_8_2
    ∷ datagram 7 (0 ∷ 4 ∷ 0 ∷ 1 ∷ [])
    ∷ silence
    ∷ datagram 7 (0 ∷ 4 ∷ 0 ∷ 3 ∷ [])
    ∷ []

abbrev put_net : Net
put_net = record { inbox = acks; outbox = []; send_fault = λ n. none }

abbrev content : Bytes
content = codes "0123456\n89abcdefg"

put_run : sent_total (put_bytes disk 6 client remote content put_net).0 ≡ some 18
unfolding put_bytes wrapping_add wrapping_sub extend name str_eq from_pairs parse_uint
put_run = refl

-- The state behind the last block.
abbrev ended : Download disk
ended = record {
  writer = record { sink = vec (codes "abcdef\ngh"); decoder = some new; bytes = 9 };
  next_block = 3;
  blocks_in_window = 1;
  last_acked = 2;
  finished = true;
}

get_end :
    do_get disk 10 opts 69 remote (new_vec net_ascii) net
    ≡ (ok (finished ended), (do_get disk 10 opts 69 remote (new_vec net_ascii) net).1)
unfolding do_get new_vec wrapping_add name str_eq from_pairs parse_uint
get_end = refl

writer-bytes : (new_vec {H = Bytes} net_ascii).bytes ≡ 0
unfolding new_vec
writer-bytes = refl

do_get-Gets_example : Gets disk (memory_laws []) opts (new_vec net_ascii) arriving ended.writer
do_get-Gets_example =
    do_get-Gets disk (memory_laws []) 10 opts 69 remote (new_vec net_ascii) ended net
      (do_get disk 10 opts 69 remote (new_vec net_ascii) net).1 writer-bytes get_end

do_get_ends_example : do_get disk 10 opts 69 remote (new_vec net_ascii) net ≢ (ok out_of_fuel, net)
do_get_ends_example =
    do_get_ends disk (memory_laws []) 10 opts 69 remote (new_vec net_ascii) net net (omega arith)

-- Blocks of 8 bytes, two to a window.
abbrev small_blocks : Negotiated
small_blocks = record { blksize = 8; timeout = 5; windowsize = 2 }

abbrev blocks_only : Net
blocks_only = record net {
  inbox =
      datagram 7 (0 ∷ 3 ∷ 0 ∷ 1 ∷ codes "abcdef\r\n")
      ∷ datagram 7 (0 ∷ 3 ∷ 0 ∷ 2 ∷ codes "gh")
      ∷ [];
}

abbrev empty_writer : Writer disk
empty_writer = record { sink = vec []; decoder = some new; bytes = 0 }

abbrev ended_full : Download disk
ended_full = record ended { blocks_in_window = 2 }

loop_end : download disk small_blocks 7 5 1 0 (new_download disk empty_writer) blocks_only ≡ (
  ok (finished ended_full),
  (download disk small_blocks 7 5 1 0 (new_download disk empty_writer) blocks_only).1,
)
unfolding download wrapping_add
loop_end = refl

download-run_example :
    run (sinks disk) 5 0 (seen disk small_blocks 7 1 (new_download disk empty_writer)) blocks_only
    ≡ (
      ok (finished (seen disk small_blocks 7 1 ended_full)),
      (download disk small_blocks 7 5 1 0 (new_download disk empty_writer) blocks_only).1,
    )
download-run_example =
    download-run disk small_blocks 7 1 5 0 (new_download disk empty_writer) ended_full blocks_only
      (download disk small_blocks 7 5 1 0 (new_download disk empty_writer) blocks_only).1 loop_end

fetched_end :
    get_to_vec disk 10 client remote net
    ≡ (ok (finished (codes "abcdef\ngh")), (get_to_vec disk 10 client remote net).1)
unfolding get_to_vec wrapping_add name str_eq from_pairs parse_uint
fetched_end = refl

get_to_vec-Fetched_example :
    Fetched disk (memory_laws []) client arriving (finished (codes "abcdef\ngh"))
get_to_vec-Fetched_example =
    get_to_vec-Fetched disk (memory_laws []) 10 client remote (finished (codes "abcdef\ngh")) net
      (get_to_vec disk 10 client remote net).1 fetched_end

put_end :
    put_bytes disk 6 client remote content put_net
    ≡ (ok (finished 18), (put_bytes disk 6 client remote content put_net).1)
unfolding put_bytes wrapping_add wrapping_sub extend name str_eq from_pairs parse_uint
put_end = refl

put_bytes-PutAll_example :
    PutAll disk
      (memory_laws [])
      client
      content
      put_net
      (put_bytes disk 6 client remote content put_net).1
      (finished 18)
put_bytes-PutAll_example =
    put_bytes-PutAll disk (memory_laws []) 6 client remote content (finished 18) put_net
      (put_bytes disk 6 client remote content put_net).1 put_end

do_put_ends_example :
    do_put disk 6 opts 69 remote (new_source (slice content 0) net_ascii) (some 17) put_net
    ≢ (ok out_of_fuel, put_net)
do_put_ends_example =
    do_put_ends disk (memory_laws []) 6 opts 69 remote (slice content 0) (some 17) put_net put_net
      (omega arith)

abbrev started : Upload disk
started = new_upload disk (new_source (slice content 0) net_ascii) 8

abbrev acks_only : Net
acks_only = record net {
  inbox = datagram 7 (0 ∷ 4 ∷ 0 ∷ 2 ∷ []) ∷ datagram 7 (0 ∷ 4 ∷ 0 ∷ 3 ∷ []) ∷ [];
}

-- The upload is over: the last block has been acknowledged.
abbrev sent_all : Upload disk
sent_all = record {
  sender = record {
    feed = record { source = slice content 17; pending = []; eof = true };
    encoder = true;
    blksize = 8;
    final_emitted = true;
  };
  in_flight = [];
  next_number = 4;
  last_sent_short = true;
  total = 18;
}

upload_end :
    upload_all disk small_blocks 7 1 4 started acks_only
    ≡ (ok (finished sent_all), (upload_all disk small_blocks 7 1 4 started acks_only).1)
unfolding upload_all new_source wrapping_add wrapping_sub extend
upload_end = refl

started-IsUploading : Uploading disk (memory_laws []) small_blocks 7 1 18 started
unfolding wire_byte
started-IsUploading =
    start-IsUploading disk (memory_laws []) small_blocks 7 1 (slice content 0) net_ascii
      (omega arith) (omega arith)

upload_all-run_example :
    Finishes disk
      (memory_laws [])
      small_blocks
      7
      1
      18
      4
      started
      sent_all
      acks_only
      (upload_all disk small_blocks 7 1 4 started acks_only).1
upload_all-run_example =
    upload_all-run disk (memory_laws []) small_blocks 7 1 18 4 started sent_all acks_only
      (upload_all disk small_blocks 7 1 4 started acks_only).1 started-IsUploading upload_end
