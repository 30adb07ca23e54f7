-- ===== src/Delivery.antt =====
-- A transfer from end to end: what src/server.rs and src/client.rs send to each other through a
-- network that loses, repeats and reorders datagrams, but makes none.
pub mod Upload
pub mod Network
pub mod WholeFile
use atftp.Common.{ℕ, ◌≡◌, List, [], ◌∷◌, take, Bytes}
use atftp.Error.{ok}
use atftp.Io.{Address, Event, datagram, failure, silence}
use atftp.Io.Sends.{Has}
use atftp.Proto.Packet.{block_data, decode}
use atftp.Proto.{max_packet_size}
use atftp.Window.{Frame}

-- The DATA packets of a peer among the events are some of the frames, in any order.
abbrev pub Carries : Address → List Frame → List Event → Type 0
Carries peer frames [] = Unit
Carries peer frames (silence ∷ inbox) = Carries peer frames inbox
Carries peer frames (failure kind ∷ inbox) = Carries peer frames inbox
Carries peer frames (datagram src buf ∷ inbox) =
    (src ≡ peer
      → (block : ℕ) (payload : Bytes)
      → decode (take max_packet_size buf) ≡ ok (block_data block payload)
      → Has (block, payload) frames)
    × Carries peer frames inbox
