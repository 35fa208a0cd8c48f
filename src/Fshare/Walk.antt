-- ===== src/Fshare/Walk.antt =====
-- The record walk of `reader_loop` in src/fshare2fifo/fshare2fifo.c, from the published tail to the
-- record that is delivered.
pub mod Log
pub mod Entries
pub mod Frame
pub mod Delivery
pub mod Ends
use yi_outdoor_1080p_ptz.Prelude.{ℕ, zero, suc, ◌+◌, ◌*◌, Bool, not, ◌||◌, ltb, ◌==◌, if◌then◌else◌}
use yi_outdoor_1080p_ptz.Memory.{Buf, u32, sub32}
use yi_outdoor_1080p_ptz.Fshare.Record.{RecHdr, rec_at, readable, entry_wanted, next_off, next_left}

-- How a walk ends: with nothing (and the cursor it leaves), at a wanted record (its header and
-- offset), or out of fuel.
pub data Walk : Type 0 where
  stop : ℕ → Walk
  hit : RecHdr → ℕ → Walk
  exhausted : Walk

-- More than 100 records ahead of the cursor: the live-edge jump.
unfoldable pub far_ahead : ℕ → RecHdr → Bool
far_ahead cursor h = ltb 100 (sub32 h.seq (u32 (cursor + 1)))

-- `while (left > 26)`. The jump's `continue` tests the same record again, behind a new cursor.
unfoldable pub walk : ℕ → Buf → ℕ → ℕ → ℕ → ℕ → ℕ → Walk
unfolding far_ahead
walk zero m filter newest cursor off left = exhausted
walk (suc fuel) m filter newest cursor off left =
    let h = rec_at m off in
    let jumped = walk fuel m filter newest (sub32 h.seq 1) off left in
    let rest = walk fuel m filter newest cursor (next_off off h) (next_left left h) in
    if not (readable m off left) || h.seq == newest
    then stop cursor
    else if entry_wanted cursor filter h
    then (if far_ahead cursor h then jumped else hit h off)
    else rest

-- Each record takes two rounds at most and 26 bytes at least.
abbrev pub walk_fuel : ℕ → ℕ
walk_fuel left = 2 * left + 2
