-- ===== src/Fshare/Poll.antt =====
-- One round of `reader_loop` in src/fshare2fifo/fshare2fifo.c on the slot and the ring: the pending
-- test, the walk, the delivery and the era reset. The image of the memory is that of the round.
pub mod Frame
pub mod Result
pub mod Mirror
pub mod Drain
pub mod View
pub mod Others
pub mod Backlog
use yi_outdoor_1080p_ptz.Prelude.{
  ℕ, ◌+◌, ◌-◌, Bool, List, Option, none, some, ltb, leb, ◌==◌, ◌&&◌, if◌then◌else◌,
}
use yi_outdoor_1080p_ptz.Memory.{Buf, u32}
use yi_outdoor_1080p_ptz.Fshare.Layout.{
  slot_off, hdr_tail, hdr_valid, hdr_seq, max_pay, hdr_u32, hdr_wr_u32, ring_copy,
}
use yi_outdoor_1080p_ptz.Fshare.Record.{RecHdr}
use yi_outdoor_1080p_ptz.Fshare.Walk.{Walk, stop, hit, exhausted, walk, walk_fuel}

-- `payload`, `cur_len` and `cur_type`
pub record Delivered : Type 0 where
  pub payload : List ℕ
  pub len : ℕ
  pub kind : ℕ

-- What a round leaves: the memory, `slot_cursor`, and the delivery if there is one (`got`).
pub record Polled : Type 0 where
  pub mem : Buf
  pub cursor : ℕ
  pub got : Option Delivered

-- `if (!got)`: the era reset, and the pending flag cleared.
unfoldable pub settle : ℕ → Buf → ℕ → ℕ → Polled
settle k m newest cursor =
    let reset = ltb newest cursor && ltb 10000 (cursor - newest) in
    let m' = if reset then hdr_wr_u32 m (slot_off k + 8) newest else m in
    record {
      mem = hdr_wr_u32 m' (slot_off k) 0;
      cursor = if reset then newest else cursor;
      got = none;
    }

-- The wanted record `h` at `off`: cursor and pending flag of the slot, and the copy out.
unfoldable pub deliver : ℕ → Buf → ℕ → RecHdr → ℕ → Polled
deliver k m newest h off =
    let m1 = hdr_wr_u32 m (slot_off k + 8) h.seq in
    let m2 = if u32 (h.seq + 1) == newest then hdr_wr_u32 m1 (slot_off k) 0 else m1 in
    if leb h.len max_pay
    then record {
      mem = m2;
      cursor = h.seq;
      got =
          some
            (record { payload = ring_copy m (u32 (off + 26)) h.len; len = h.len; kind = h.kind });
    }
    else settle k m2 newest h.seq

-- By the end of the walk.
unfoldable pub conclude : ℕ → Buf → ℕ → ℕ → Walk → Polled
unfolding settle deliver
conclude k m newest cursor (stop c) = settle k m newest c
conclude k m newest cursor (hit h off) = deliver k m newest h off
conclude k m newest cursor exhausted = settle k m newest cursor

unfoldable pub poll : ℕ → ℕ → Buf → ℕ → Polled
poll k filter m cursor =
    let left = hdr_u32 m hdr_valid in
    let newest = hdr_u32 m hdr_seq in
    if hdr_u32 m (slot_off k) == 0
    then record { mem = m; cursor = cursor; got = none }
    else conclude k m newest cursor
        (walk (walk_fuel left) m filter newest cursor (hdr_u32 m hdr_tail) left)
