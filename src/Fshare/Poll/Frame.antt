-- ===== src/Fshare/Poll/Frame.antt =====
-- The bytes that a poll of src/fshare2fifo/fshare2fifo.c may write.
use yi_outdoor_1080p_ptz.Prelude.{ℕ, ◌+◌, ◌≤◌, ◌<◌, ◌≡◌, ◌⊎◌, arith}
use yi_outdoor_1080p_ptz.Memory.{Buf}
use yi_outdoor_1080p_ptz.Fshare.Layout.{slot_off, hdr_tail, hdr_valid, hdr_seq, hdr_u32, hdr_wr_u32}
use yi_outdoor_1080p_ptz.Fshare.Layout.Slots.{hdr_wr_u32_outside}
use yi_outdoor_1080p_ptz.Fshare.Record.{RecHdr}
use yi_outdoor_1080p_ptz.Fshare.Walk.{Walk, stop, hit, exhausted, walk, walk_fuel}
use yi_outdoor_1080p_ptz.Fshare.Poll.{settle, deliver, conclude, poll}

-- Outside the pending word and the cursor word of slot `k`.
abbrev pub Elsewhere : ℕ → ℕ → Type 0
Elsewhere k a = (a < slot_off k) ⊎ (slot_off k + 12 ≤ a)

settle-Elsewhere :
    (k : ℕ) (m : Buf) (newest cursor a : ℕ) → Elsewhere k a → (settle k m newest cursor).mem a ≡ m a
unfolding settle
settle-Elsewhere k m newest cursor a e = ground (
  arith,
  hdr_wr_u32_outside m (slot_off k + 8) newest a,
  hdr_wr_u32_outside m (slot_off k) 0 a,
  hdr_wr_u32_outside (hdr_wr_u32 m (slot_off k + 8) newest) (slot_off k) 0 a,
)

deliver-Elsewhere :
    (k : ℕ) (m : Buf) (newest : ℕ) (h : RecHdr) (off a : ℕ)
    → Elsewhere k a
    → (deliver k m newest h off).mem a ≡ m a
unfolding deliver
deliver-Elsewhere k m newest h off a e = ground (
  arith,
  hdr_wr_u32_outside m (slot_off k + 8) h.seq a,
  hdr_wr_u32_outside (hdr_wr_u32 m (slot_off k + 8) h.seq) (slot_off k) 0 a,
  settle-Elsewhere k (hdr_wr_u32 m (slot_off k + 8) h.seq) newest h.seq a,
  settle-Elsewhere k (hdr_wr_u32 (hdr_wr_u32 m (slot_off k + 8) h.seq) (slot_off k) 0) newest h.seq
      a,
)

conclude-Elsewhere :
    (k : ℕ) (m : Buf) (newest cursor a : ℕ) (w : Walk)
    → Elsewhere k a
    → (conclude k m newest cursor w).mem a ≡ m a
unfolding conclude
conclude-Elsewhere k m newest cursor a (stop c) e = settle-Elsewhere k m newest c a e
conclude-Elsewhere k m newest cursor a (hit h off) e = deliver-Elsewhere k m newest h off a e
conclude-Elsewhere k m newest cursor a exhausted e = settle-Elsewhere k m newest cursor a e

-- A poll changes no byte of the shared memory but the pending word and the cursor word of its own
-- slot: not the header, not another slot, not the ring, whatever they hold.
pub poll-Elsewhere :
    (k filter : ℕ) (m : Buf) (cursor a : ℕ) → Elsewhere k a → (poll k filter m cursor).mem a ≡ m a
unfolding poll
poll-Elsewhere k filter m cursor a e = ground (
  arith,
  conclude-Elsewhere k m (hdr_u32 m hdr_seq) cursor a
      (walk (walk_fuel (hdr_u32 m hdr_valid)) m filter (hdr_u32 m hdr_seq) cursor
        (hdr_u32 m hdr_tail) (hdr_u32 m hdr_valid))
      e,
)
