-- ===== src/Tests/EndToEnd.antt =====
-- A file that goes from the server to the client, and one that goes back.
use atftp.Blocks.Decoded.{decoded}
use atftp.Blocks.Stream.{encoded}
use atftp.Blocks.{extend}
use atftp.Client.Download.{Download, do_get, read_request}
use atftp.Client.Request.{Answer, request, get_arm, put_arm}
use atftp.Client.Sink.{vec, Writer}
use atftp.Client.Source.{Source, slice, new_source}
use atftp.Client.Upload.Loop.{do_put, write_request}
use atftp.Client.Upload.{Upload}
use atftp.Client.{Options, default_options, build_request_options}
use atftp.Common.{
  ℕ, ◌+◌, ◌*◌, ◌≡◌, ◌<◌, length, not, inl, inr, refl, ap, List, [], ◌∷◌, ◌++◌, none, some, true,
  false, arith, Bytes, codes,
}
use atftp.Delivery.Network.{Brings}
use atftp.Delivery.Upload.{run-Carries}
use atftp.Delivery.WholeFile.{serve_rrq-do_get, do_put-serve_wrq}
use atftp.Delivery.{Carries}
use atftp.Error.{Result, ok}
use atftp.Files.{Files, Attempt, memory, done}
use atftp.Io.{Event, datagram, silence, Net, finished}
use atftp.Netascii.{new, wire_byte}
use atftp.PathSafe.{resolve}
use atftp.Proto.Options.Insert.{IsWellFormed}
use atftp.Proto.Options.{net_ascii, OptionSet, block_size, name, value_string, from_pairs, is_empty}
use atftp.Proto.Packet.{Packet, decode, block_data}
use atftp.Server.Negotiate.{negotiate}
use atftp.Server.Receiver.{Receiver, run}
use atftp.Server.Sender.Fills.{number}
use atftp.Server.Sender.Loop.{new_sender, serve_rrq, encodes}
use atftp.Server.Sender.Serves.{HasSizes}
use atftp.Server.Sender.{Sender}
use atftp.Server.Serve.{new_receiver, serve_wrq}
use atftp.Server.{Config, Negotiated}
use atftp.Tests.Disk.{memory_laws}
use atftp.Text.{str_eq, parse_uint, to_string}
use atftp.Window.{wrapping_add, wrapping_sub}

abbrev cfg : Config
cfg = record {
  listen = 69;
  root = codes "/srv";
  allow_overwrite = false;
  timeout = 5;
  retries = 1;
  max_block_size = 65464;
  allow_windowsize = true;
}

abbrev opts : Options
opts = record default_options { mode = net_ascii; blksize = some 8 }

abbrev options : OptionSet
options = record { items = block_size 8 ∷ [] }

options-IsWellFormed : IsWellFormed options
unfolding name str_eq
options-IsWellFormed = record { valid = ((omega arith, omega arith), tt); distinct = (tt, tt) }

abbrev eight : Negotiated
eight = record { blksize = 8; timeout = 5; windowsize = 1 }

abbrev content : Bytes
content = codes "0123456\nx"

abbrev blocks : List Bytes
blocks = codes "0123456\r" ∷ codes "\nx" ∷ []

abbrev disk : Files
disk = memory content

abbrev remote : Bytes
remote = codes "f"

done-injective : {A : Type 0} {a b : A} → ◌≡◌ {A = Attempt A} (done a) (done b) → a ≡ b
done-injective e = cc

disk-HasSizes : HasSizes disk (memory_laws content)
disk-HasSizes path h n o z =
    let size : length h ≡ n = done-injective z in
    let whole : content ≡ h = done-injective o in omega (arith, ap (length {A = ℕ}) whole)

resolved : resolve cfg.root remote ≡ ok (codes "/srv/f")
unfolding resolve
resolved = refl

negotiated : negotiate cfg options (some 9) ≡ some (options, eight)
unfolding negotiate
negotiated = refl

negotiated_write : negotiate cfg options none ≡ some (options, eight)
unfolding negotiate
negotiated_write = refl

abbrev ack_of : ℕ → Bytes
ack_of n = 0 ∷ 4 ∷ 0 ∷ n ∷ []

abbrev oack_8 : Bytes
oack_8 = 0 ∷ 6 ∷ codes "blksize" ++ 0 ∷ codes "8" ++ 0 ∷ []

abbrev first_block : Bytes
first_block = 0 ∷ 3 ∷ 0 ∷ 1 ∷ codes "0123456\r"

abbrev second_block : Bytes
second_block = 0 ∷ 3 ∷ 0 ∷ 2 ∷ codes "\nx"

-- The server, at port 9, hears the client, at 7.
abbrev heard : Net
heard = record {
  inbox = datagram 7 (ack_of 0) ∷ datagram 7 (ack_of 1) ∷ datagram 7 (ack_of 2) ∷ [];
  outbox = [];
  send_fault = λ n. none;
}

abbrev server_end : Sender disk
server_end = record (new_sender disk cfg 7 eight net_ascii content) {
  feed = record { source = []; pending = []; eof = true };
  in_flight = [];
  next_block = 3;
  last_sent_short = true;
}

abbrev sent : Net
sent = record {
  inbox = [];
  outbox = (7, oack_8) ∷ (7, first_block) ∷ (7, second_block) ∷ [];
  send_fault = λ n. none;
}

served : serve_rrq disk 5 cfg 7 remote net_ascii options heard ≡ (ok (finished server_end), sent)
unfolding serve_rrq wrapping_add extend name from_pairs str_eq value_string to_string
served = refl

-- The second block overtakes the first, and both come twice.
abbrev network : List Event
network =
    datagram 9 second_block
    ∷ datagram 9 first_block
    ∷ silence
    ∷ datagram 9 first_block
    ∷ datagram 9 second_block
    ∷ []

abbrev client_net : Net
client_net = record { inbox = datagram 9 oack_8 ∷ network; outbox = []; send_fault = λ n. none }

abbrev writer : Writer disk
writer = record { sink = vec []; decoder = some new; bytes = 0 }

abbrev client_end : Download disk
client_end = record {
  writer = record { sink = vec content; decoder = some new; bytes = 9 };
  next_block = 3;
  blocks_in_window = 1;
  last_acked = 2;
  finished = true;
}

abbrev answer : Answer
answer = record { peer = 9; neg = eight; first_data = none }

abbrev asked : Result Answer × Net
asked =
    request (get_arm (not (is_empty (build_request_options opts none)))) opts.retries 69
      (read_request disk opts remote) (opts.retries + 1) 0 client_net

asked_end : asked ≡ (ok answer, asked.1)
unfolding request get_arm build_request_options name str_eq from_pairs parse_uint is_empty
asked_end = refl

got :
    do_get disk 10 opts 69 remote writer client_net
    ≡ (ok (finished client_end), (do_get disk 10 opts 69 remote writer client_net).1)
unfolding do_get wrapping_add name str_eq from_pairs parse_uint
got = refl

brought : Brings 9 7 sent.outbox client_net.inbox
brought = (
  (λ from. inl refl),
  (
    (λ from. inr (inr (inl refl))),
    ((λ from. inr (inl refl)), ((λ from. inr (inl refl)), ((λ from. inr (inr (inl refl))), tt))),
  ),
)

short : length (encoded (encodes disk net_ascii) content) < 65535 * 8
unfolding wire_byte
short = omega arith

serve_rrq-do_get_example : content ≡ [] ++ content
serve_rrq-do_get_example =
    serve_rrq-do_get disk (memory_laws content) disk (memory_laws content) 5 cfg 7 remote options
      server_end heard sent (codes "/srv/f") content 9 options eight 10 opts 69 writer client_end
      answer client_net asked.1 (do_get disk 10 opts 69 remote writer client_net).1
      options-IsWellFormed disk-HasSizes resolved refl refl negotiated served refl refl refl
      asked_end got refl short brought

-- The way back: the client, at 7, hears the server, at 9.
abbrev source : Source disk.Handle
source = slice content 0

abbrev acks : Net
acks = record {
  inbox = datagram 9 oack_8 ∷ datagram 9 (ack_of 1) ∷ datagram 9 (ack_of 2) ∷ [];
  outbox = [];
  send_fault = λ n. none;
}

abbrev uploaded : Upload disk
uploaded = record {
  sender = record {
    feed = record { source = slice content 9; pending = []; eof = true };
    encoder = true;
    blksize = 8;
    final_emitted = true;
  };
  in_flight = [];
  next_number = 3;
  last_sent_short = true;
  total = 10;
}

abbrev put_sent : Net
put_sent = record {
  inbox = [];
  outbox =
      (69, write_request disk opts remote (some 9)) ∷ (9, first_block) ∷ (9, second_block) ∷ [];
  send_fault = λ n. none;
}

put :
    do_put disk 5 opts 69 remote (new_source source net_ascii) (some 9) acks
    ≡ (ok (finished uploaded), put_sent)
unfolding do_put wrapping_add wrapping_sub extend name from_pairs str_eq parse_uint value_string
    to_string new_source wire_byte
put = refl

abbrev put_asked : Result Answer × Net
put_asked =
    request (put_arm (not (is_empty (build_request_options opts (some 9))))) opts.retries 69
      (write_request disk opts remote (some 9)) (opts.retries + 1) 0 acks

put_asked_end : put_asked ≡ (ok answer, put_asked.1)
unfolding request put_arm build_request_options name str_eq from_pairs parse_uint is_empty
put_asked_end = refl

abbrev arriving : List Event
arriving =
    datagram 7 second_block
    ∷ datagram 7 first_block
    ∷ silence
    ∷ datagram 7 first_block
    ∷ datagram 7 second_block
    ∷ []

abbrev server_net : Net
server_net = record { inbox = arriving; outbox = []; send_fault = λ n. none }

-- The memory starts a new file, and adds what is written.
abbrev received : Receiver disk
received = record (new_receiver disk cfg 7 eight net_ascii content) {
  next_block = 3;
  blocks_in_window = 1;
  last_acked = 2;
  finished = true;
}

served_write :
    serve_wrq disk 10 cfg 7 remote net_ascii options server_net
    ≡ (ok (finished received), (serve_wrq disk 10 cfg 7 remote net_ascii options server_net).1)
unfolding serve_wrq wrapping_add
served_write = refl

put_brought : Brings 7 9 put_sent.outbox arriving
put_brought = (
  (λ from. inr (inr (inl refl))),
  ((λ from. inr (inl refl)), ((λ from. inr (inl refl)), ((λ from. inr (inr (inl refl))), tt))),
)

put_short : length (encoded true content) < 65535 * 8
unfolding wire_byte
put_short = omega arith

do_put-serve_wrq_example : content ≡ [] ++ content
do_put-serve_wrq_example =
    do_put-serve_wrq disk (memory_laws content) disk (memory_laws content) 10 cfg 7 remote options
      received server_net (serve_wrq disk 10 cfg 7 remote net_ascii options server_net).1
      (codes "/srv/f") [] options eight 5 opts 69 source (some 9) uploaded answer acks put_asked.1
      put_sent options-IsWellFormed resolved refl negotiated_write served_write refl put_asked_end
      put refl put_short put_brought

-- A receiver on the same events.
abbrev start : Receiver disk
start = new_receiver disk cfg 7 eight net_ascii []

ran : run disk 10 0 start server_net ≡ (ok (finished received), (run disk 10 0 start server_net).1)
unfolding run wrapping_add
ran = refl

same_data :
    {b b' : ℕ} {p p' : Bytes}
    → ◌≡◌ {A = Result Packet} (ok (block_data b p)) (ok (block_data b' p'))
    → ◌≡◌ {A = ℕ × Bytes} (b', p') (b, p)
same_data e = cc

carried : Carries 7 (number 1 blocks) arriving
unfolding decode wrapping_add
carried = (
  (λ from b p e. inr (inl (same_data e))),
  (
    (λ from b p e. inl (same_data e)),
    ((λ from b p e. inl (same_data e)), ((λ from b p e. inr (inl (same_data e))), tt)),
  ),
)

run-Carries_example : content ≡ [] ++ decoded (some new) blocks
run-Carries_example =
    run-Carries disk (memory_laws content) 10 0 start received server_net
      (run disk 10 0 start server_net).1 blocks refl refl (omega arith) (refl, omega arith) carried
      ran
