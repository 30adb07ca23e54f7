-- ===== src/Lib.antt =====
-- A model of aitftp, a TFTP client and server (RFC 1350 with the option extensions), and what is
-- proved of it. Paths are from the repository's root.
--
-- Error (src/error.rs) has the errors and the result type, Proto (src/proto/mod.rs) the constants.
-- Below Proto, Opcode and Code are src/proto/opcode.rs (`Opcode::from_u16`, `ErrorCode::from_u16`);
-- Options is src/proto/options.rs (`OptionValue::parse`, `OptionSet::insert`,
-- `OptionSet::from_pairs`); Packet is src/proto/packet.rs (`encode_into`, `decode`). Netascii is
-- src/netascii.rs: `to_wire` is `ToWire::translate`, `from_wire` is `FromWire::translate`. PathSafe
-- is src/path_safe.rs (`resolve`). Server is src/server.rs, with `negotiate` in Server.Negotiate,
-- `WrqReceiver` in Server.Receiver, `serve_wrq` in Server.Serve, `RrqSender` in Server.Sender with
-- its loops and `serve_rrq` in Server.Sender.Loop, and `handle_initial` in Server.Initial: a request
-- is resolved, its file opened, its options negotiated, and the loop of the transfer takes the
-- packets one by one.
-- Client is src/client.rs: its options, `build_request_options` and `merge_oack`. Client.Request has
-- the first phase of `do_get` and `do_put`, Client.Sink the `Receiver` and Client.Source the `Sender`
-- of that file; Client.Download is `do_get`, Client.Upload and Client.Upload.Loop are `do_put`, and
-- Client.Transfers has `Client`, its builder, and `get`, `put`, `get_to_vec` and `put_bytes`. The loops
-- of the client are compared with those of the server: Client.Download.Sinks makes a file of a sink
-- with its count, Client.Upload.Sources one of a source, and the theorems on the server's transfers
-- are carried over. `send_ack`, `recv_one` and `Negotiated` are the same in both files, and modelled
-- once, below Io and Server.
-- Window has the arithmetic of block numbers and the loops of `consume_ack` in src/server.rs and
-- src/client.rs; Blocks how both cut a source into blocks. Common has the shared helpers, Tests the
-- runs on concrete inputs and the instances of the theorems. A child module with lemmas is named
-- for what it proves.
--
-- Text and PathSafe model what the program uses of Rust's standard library: `str` on UTF-8 bytes,
-- the printing and parsing of unsigned integers, and `Path` on Unix. The sockets and files of tokio
-- are not in the repository. Io has the datagrams that arrive, as a list of events (a datagram, an
-- error, or the deadline), and the ones that were sent. Files has the operations on files as a
-- parameter, with laws.
--
-- A byte, a u16 and a u64 are numbers, with wrap-around written out. A string is the list of its
-- bytes. Durations are seconds. A loop runs on fuel: that of `decode_request` takes the length of
-- what is left, since a round takes at least one byte; the fill loop of a block takes the block
-- size and one more, since a round adds a byte or is the last; the loop that takes blocks, at the
-- server and in `do_get`, takes a round for each event that arrives, each retry, and two more. The
-- outer loop that sends blocks, at the server and in `do_put`, takes a round for each event and one
-- more, since a window moves on a packet only; its inner loop is given a round for each event, each
-- retry, and two more.
--
-- Server.Builder is `ServerBuilder` and `Server::bind`, and Server.Accept is `Server::run` and
-- `Server::run_until`: the tasks that are spawned for what arrives at the listening socket, each with
-- a network of its own. Programs is src/bin, from the parsed arguments on: Programs.Aitftp is the
-- client program, Programs.Aitftpd the server program up to the bound server. Delivery puts the two
-- sides together: a run of the one and a run of the other, where what the one has sent arrives at the
-- other lost, repeated or reordered, but not made up; Server.Sender.Adds has what a side sends.
-- Io.Reliable is a network on which sending succeeds, and Server.Receiver.Patient how long the server
-- bears a silent client; with them the success of a write request is stated.
--
-- Not modelled: time, the scheduling of tasks and what a shutdown does to a running one, the binding
-- of the client's socket, logging, `Display`, the accessors of the records, the parsing of arguments
-- (clap) and the signal that ends the server program.
pub mod Common
pub mod Text
pub mod Error
pub mod Proto
pub mod Netascii
pub mod PathSafe
pub mod Window
pub mod Io
pub mod Files
pub mod Blocks
pub mod Server
pub mod Client
pub mod Tests
pub mod Delivery
pub mod Programs
