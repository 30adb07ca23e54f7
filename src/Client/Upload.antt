-- ===== src/Client/Upload.antt =====
-- src/client.rs: `do_put`: the variables of its loop, and the blocks that are put in flight.
pub mod Loop
pub mod Sources
pub mod Fills
pub mod Alike
pub mod Rounds
pub mod Puts
pub mod Ends
use atftp.Client.Request.{Answer, put_arm, request}
use atftp.Client.Sink.{u64_mod}
use atftp.Client.Source.{ClientSender, set_blksize, next_block}
use atftp.Client.{Options, build_request_options}
use atftp.Common.{
  ℕ, zero, suc, ◌+◌, ◌%◌, Bool, true, false, not, ◌&&◌, ◌||◌, List, [], ◌∷◌, ◌++◌, Option, none,
  some, length, ltb, leb, if◌then◌else◌, Bytes,
}
use atftp.Error.{Error, Result, ok, err, timeout, ◌>>=◌}
use atftp.Files.{Files}
use atftp.Io.{Address, Net, Io, pure, raise, lift, recv_one, Ended, finished, panicked, out_of_fuel}
use atftp.Proto.Options.{OptionSet, is_empty}
use atftp.Proto.Packet.{Packet, rrq, wrq, block_data, ack, error, oack, decode, encode_into}
use atftp.Server.Sender.Loop.{none_in_flight}
use atftp.Server.Sender.{send_frames}
use atftp.Server.{Negotiated}
use atftp.Window.{Frame, client_consume_ack, wrapping_add}

module _ (fs : Files) where
  -- The variables of the loop, and the sender.
  pub record Upload : Type 0 where
    pub sender : ClientSender fs.Handle
    pub in_flight : List Frame
    pub next_number : ℕ
    pub last_sent_short : Bool
    pub total : ℕ

  module _ (neg : Negotiated) where
    -- A block is put in flight under the next number, and its length added to the `u64`.
    abbrev pub put_out : Upload → Bytes → ClientSender fs.Handle → Upload
    put_out u block sender = record {
      sender = sender;
      in_flight = u.in_flight ++ (u.next_number, block) ∷ [];
      next_number = wrapping_add u.next_number 1;
      last_sent_short = ltb (length block) neg.blksize || u.last_sent_short;
      total = (u.total + length block) % u64_mod;
    }

    abbrev pub on_next :
        (Upload → Result Upload) → Upload → Option Bytes × ClientSender fs.Handle → Result Upload
    on_next next u (none, sender) = ok (record u { sender = sender })
    on_next next u (some block, sender) = next (put_out u block sender)

    -- `while in_flight.len() < windowsize && !last_sent_short`: as many rounds as the window has
    -- places.
    unfoldable pub fill_flight : ℕ → Upload → Result Upload
    unfolding next_block
    fill_flight zero u = ok u
    fill_flight (suc places) u =
        elim (ltb (length u.in_flight) neg.windowsize && not u.last_sent_short) [
          | true ↦ next_block fs u.sender >>= on_next (fill_flight places) u
          | false ↦ ok u
        ]

  abbrev pub new_upload : ClientSender fs.Handle → ℕ → Upload
  new_upload sender blksize = record {
    sender = set_blksize sender blksize;
    in_flight = [];
    next_number = 1;
    last_sent_short = false;
    total = 0;
  }
