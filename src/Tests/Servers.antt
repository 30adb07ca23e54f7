-- ===== src/Tests/Servers.antt =====
-- Runs of the server from its arguments to the tasks, and of what the client program requests.
use atftp.Common.{
  ℕ, ◌+◌, ◌≡◌, ◌≤◌, ◌++◌, length, refl, List, [], ◌∷◌, none, some, true, false, arith, Bytes, codes,
  All,
}
use atftp.Blocks.{extend}
use atftp.Window.{wrapping_add}
use atftp.Error.{Result, ok, not_found}
use atftp.Files.{Files, Attempt, done, memory}
use atftp.Io.{Address, Event, datagram, failure, silence, Net, finished}
use atftp.Programs.Aitftp.{Args, into_mode, get_cmd, netascii_arg, options_of, default_local_for}
use atftp.Programs.Aitftp.Paths.{default_local_for-IsBehindLast, IsBehindLast}
use atftp.Programs.Aitftp.Requests.{options_of_lem}
use atftp.Programs.Aitftpd.{DaemonArgs, start, Started, start-Started}
use atftp.Proto.Options.{
  octet, from_pairs, get_block_size, get_timeout, get_transfer_size, get_window_size,
}
use atftp.Server.Accept.{Loop, Task, run_until, run, HasEnded, run_until-HasEnded}
use atftp.Server.Builder.{Server}
use atftp.Server.Initial.Handles.{Handles, handle_initial-Handles}
use atftp.Server.Initial.{Handled, sent, handle_initial}
use atftp.Server.Sender.{Sender}
use atftp.Server.Sender.Loop.{new_sender}
use atftp.Server.{Config, Negotiated}
use atftp.Client.{build_request_options}
use atftp.Tests.Disk.{memory_laws}

abbrev given : DaemonArgs
given = record {
  listen = 69;
  root = codes "srv";
  allow_overwrite = false;
  timeout = 5;
  retries = 1;
  max_block_size = 65464;
  no_windowsize = true;
}

abbrev canonicalize : Bytes → Attempt Bytes
canonicalize path = done (47 ∷ path)

abbrev bind_udp : Address → Attempt Address
bind_udp addr = done addr

abbrev cfg : Config
cfg = record {
  listen = 69;
  root = codes "/srv";
  allow_overwrite = false;
  timeout = 5;
  retries = 1;
  max_block_size = 65464;
  allow_windowsize = false;
}

abbrev server : Server
server = record { cfg = cfg; local_addr = 69 }

started : start canonicalize bind_udp 0 given ≡ ok server
unfolding start
started = refl

start-Started_example : Started canonicalize bind_udp 0 given server
start-Started_example = start-Started canonicalize bind_udp 0 given server started

abbrev content : Bytes
content = codes "hello"

abbrev net : Net
net = record {
  inbox = silence ∷ datagram 7 (0 ∷ 4 ∷ 0 ∷ 1 ∷ []) ∷ [];
  outbox = [];
  send_fault = λ n. none;
}

abbrev frame : Bytes
frame = 0 ∷ 1 ∷ codes "f" ++ 0 ∷ codes "octet" ++ 0 ∷ []

abbrev disk : Files
disk = memory content

abbrev plain : Negotiated
plain = record { blksize = 512; timeout = 5; windowsize = 1 }

-- The transfer of a file of one block.
abbrev ended : Sender disk
ended = record (new_sender disk cfg 7 plain octet content) {
  feed = record { source = []; pending = []; eof = true };
  in_flight = [];
  next_block = 2;
  last_sent_short = true;
}

abbrev task : Result (Handled disk) × Net
task = handle_initial disk 9 cfg 7 (done tt) frame net

task_end : task ≡ (ok (sent (finished ended)), task.1)
unfolding handle_initial wrapping_add extend from_pairs
task_end = refl

handle_initial-Handles_example : Handles disk 9 cfg 7 frame net (sent (finished ended)) task.1
handle_initial-Handles_example =
    handle_initial-Handles disk 9 cfg 7 (done tt) frame (sent (finished ended)) net task.1 task_end

-- A request, no packet, and an error of the listening socket.
abbrev events : List Event
events = datagram 7 frame ∷ datagram 8 [] ∷ failure not_found ∷ datagram 7 frame ∷ []

abbrev run_all : List (Task disk) × Loop
run_all = run disk 9 cfg (λ k. done tt) (λ k. net) events

two_tasks : length run_all.0 ≡ 2
unfolding run
two_tasks = refl

enough : (n : ℕ) → length net.inbox + 1 + 2 ≤ 9
enough n = omega arith

run_until-HasEnded_example :
    All
      (HasEnded disk (memory_laws content))
      (run_until disk 9 cfg (λ k. done tt) (λ k. net) events true).0
run_until-HasEnded_example =
    run_until-HasEnded disk (memory_laws content) 9 cfg (λ k. done tt) (λ k. net) events true enough

abbrev args : Args
args = record {
  server = codes "localhost";
  cmd = get_cmd (codes "pub/f") none;
  mode = netascii_arg;
  blksize = some 1428;
  tftp_timeout = none;
  windowsize = some 4;
  tsize = true;
  retries = 5;
  timeout = 5;
}

options_of_lem_example :
    let opts = options_of args in
    let requested = build_request_options opts none in
    (opts.mode ≡ into_mode args.mode)
    × (opts.retries ≡ 5)
    × (opts.timeout ≡ 5)
    × (get_block_size requested ≡ some 1428)
    × (get_timeout requested ≡ none)
    × (get_window_size requested ≡ some 4)
    × (get_transfer_size requested ≡ some 0)
options_of_lem_example = options_of_lem args none

default_local_for-IsBehindLast_example :
    IsBehindLast 47 (codes "pub/f") (default_local_for (codes "pub/f"))
default_local_for-IsBehindLast_example = default_local_for-IsBehindLast (codes "pub/f")

local_f : default_local_for (codes "pub/f") ≡ codes "f"
unfolding default_local_for
local_f = refl
