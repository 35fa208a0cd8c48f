-- ===== src/Fshare/Layout/Slots.antt =====
-- The slot table's words: what a store leaves to be read.
use yi_outdoor_1080p_ptz.Prelude.{ℕ, ◌+◌, ◌%◌, ◌^◌, arith, ◌≤◌, ◌<◌, ◌≡◌, ◌⊎◌, ap, ◌∙◌}
use yi_outdoor_1080p_ptz.Memory.{Buf, read, write, poke, of_le, to_le}
use yi_outdoor_1080p_ptz.Memory.Laws.{
  write_outside, read-write_self, read-write_disjoint, of_le-to_le_four,
}
use yi_outdoor_1080p_ptz.Fshare.Layout.{hdr_u32, hdr_wr_u32, hdr_wr_u16}

-- A stored word is read back.
pub hdr_u32-hdr_wr_u32_self :
    (m : Buf) (off v : ℕ) → v < 2 ^ 32 → hdr_u32 (hdr_wr_u32 m off v) off ≡ v
unfolding hdr_u32 hdr_wr_u32
hdr_u32-hdr_wr_u32_self m off v h =
    ap of_le (read-write_self m off (to_le 4 v)) ∙ of_le-to_le_four v h

-- Another word is not touched by a store.
pub hdr_u32-hdr_wr_u32_ne :
    (m : Buf) (off v a : ℕ)
    → (a + 4 ≤ off) ⊎ (off + 4 ≤ a)
    → hdr_u32 (hdr_wr_u32 m off v) a ≡ hdr_u32 m a
unfolding hdr_u32 hdr_wr_u32
hdr_u32-hdr_wr_u32_ne m off v a h = ap of_le (read-write_disjoint m off (to_le 4 v) a 4 h)

pub hdr_u32-hdr_wr_u16_ne :
    (m : Buf) (off v a : ℕ)
    → (a + 4 ≤ off) ⊎ (off + 2 ≤ a)
    → hdr_u32 (hdr_wr_u16 m off v) a ≡ hdr_u32 m a
unfolding hdr_u32 hdr_wr_u16
hdr_u32-hdr_wr_u16_ne m off v a h = ap of_le (read-write_disjoint m off (to_le 2 v) a 4 h)

pub hdr_wr_u32_outside :
    (m : Buf) (off v a : ℕ) → (a < off) ⊎ (off + 4 ≤ a) → hdr_wr_u32 m off v a ≡ m a
unfolding hdr_wr_u32
hdr_wr_u32_outside m off v a h = write_outside m off (to_le 4 v) a h

pub hdr_wr_u16_outside :
    (m : Buf) (off v a : ℕ) → (a < off) ⊎ (off + 2 ≤ a) → hdr_wr_u16 m off v a ≡ m a
unfolding hdr_wr_u16
hdr_wr_u16_outside m off v a h = write_outside m off (to_le 2 v) a h

-- The low half of a word is the two bytes stored there, whatever follows.
pub hdr_u16-hdr_wr_u16_self :
    (m : Buf) (off v : ℕ) → v < 2 ^ 16 → hdr_u32 (hdr_wr_u16 m off v) off % 2 ^ 16 ≡ v
unfolding hdr_u32 hdr_wr_u16 read write poke
hdr_u16-hdr_wr_u16_self m off v h = ground arith
