-- ===== src/Sps/Writer.antt =====
-- `sps_wbits` and `sps_wue` of src/fshare2fifo/fshare2fifo.c.
pub mod SetBit
pub mod Written
use Prim.Native.Nat.{bit_or}
use yi_outdoor_1080p_ptz.Prelude.{ℕ, zero, suc, ◌+◌, ◌-◌, ◌/◌, ◌%◌, ◌^◌, ltb, ◌==◌, if◌then◌else◌}
use yi_outdoor_1080p_ptz.Memory.{Buf, poke, u32}

-- The buffer and the bit position.
pub record Out : Type 0 where
  pub bytes : Buf
  pub pos : ℕ

-- `out[*pos / 8] |= 1 << (7 - *pos % 8)`
abbrev pub set_bit : Buf → ℕ → Buf
set_bit b pos = poke b (pos / 8) (bit_or (b (pos / 8)) (2 ^ (7 - pos % 8)))

unfoldable pub wbits : Out → ℕ → ℕ → Out
wbits o v zero = o
wbits o v (suc n) =
    wbits
      (record {
        bytes = if v / 2 ^ n % 2 == 1 then set_bit o.bytes o.pos else o.bytes;
        pos = o.pos + 1;
      })
      v n

-- `while (t > 1) { t >>= 1; n++; }`, within 32 rounds for a uint32_t.
unfoldable pub width : ℕ → ℕ → ℕ
width zero t = 0
width (suc rounds) t = let rest = width rounds (t / 2) + 1 in if ltb 1 t then rest else 0

unfoldable pub wue : Out → ℕ → Out
wue o v = let n = width 32 (u32 (v + 1)) in wbits (wbits o 0 n) (u32 (v + 1)) (n + 1)
