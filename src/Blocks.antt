-- ===== src/Blocks.antt =====
-- How src/server.rs (`RrqSender::read_one_block`) and src/client.rs (`Sender::next_block`) cut a
-- source into blocks: the loop that fills `pending`, which both have alike, and the cut.
pub mod Stream
pub mod Decoded
use atftp.Common.{
  ℕ, zero, suc, ◌+◌, Bool, true, false, not, ◌&&◌, List, [], ◌∷◌, ◌++◌, length, take, drop, min,
  ltb, if◌then◌else◌, Bytes,
}
use atftp.Error.{Result, ok, err, ◌>>=◌}
use atftp.Netascii.{to_wire}

-- The source, the bytes that are read and not yet sent, and whether the source has ended.
pub record Feed {ℓ} (H : Type ℓ) : Type ℓ where
  pub source : H
  pub pending : Bytes
  pub eof : Bool

-- `ToWire` has no state, so `encoder` is whether there is one.
unfoldable pub extend : Bool → Bytes → Bytes → Bytes
unfolding to_wire
extend encoder chunk pending = if encoder then (to_wire chunk pending).1 else pending ++ chunk

module _ {H : Type 0} (read : H → ℕ → Result (Bytes × H)) (encoder : Bool) where
  -- After a read: no bytes mean the end of the source.
  abbrev pub after_read : (Feed H → Result (Feed H)) → Feed H → Bytes × H → Result (Feed H)
  after_read next feed ([], source) = ok (record feed { source = source; eof = true })
  after_read next feed (b ∷ bs, source) =
      next (record feed { source = source; pending = extend encoder (b ∷ bs) feed.pending })

  -- `while self.pending.len() < blksize && !self.eof`. A round adds a byte or ends the loop, so
  -- `blksize + 1` is fuel enough.
  unfoldable pub fill_pending : ℕ → ℕ → Feed H → Result (Feed H)
  fill_pending zero blksize feed = ok feed
  fill_pending (suc fuel) blksize feed = elim (ltb (length feed.pending) blksize && not feed.eof) [
    | true ↦ do got ← read feed.source blksize; after_read (fill_pending fuel blksize) feed got
    | false ↦ ok feed
  ]

abbrev pub is_nil : Bytes → Bool
is_nil [] = true
is_nil (_ ∷ _) = false

abbrev pub cut_front : {H : Type 0} → ℕ → Feed H → Bytes × Feed H × Bool
cut_front blksize feed =
    let n = min (length feed.pending) blksize in
    let block = take n feed.pending in
    (block, record feed { pending = drop n feed.pending }, ltb (length block) blksize)

-- The cut behind the loop: the block, what is left, and whether the block is the last.
unfoldable pub cut : {H : Type 0} → ℕ → Feed H → Bytes × Feed H × Bool
cut blksize feed =
    if is_nil feed.pending && feed.eof then ([], feed, true) else cut_front blksize feed
