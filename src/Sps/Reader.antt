-- ===== src/Sps/Reader.antt =====
-- `sps_read_bit` and `sps_read_ue` of src/fshare2fifo/fshare2fifo.c. A reader takes the bit position
-- and returns a value with the new position.
pub mod Reads
use yi_outdoor_1080p_ptz.Prelude.{
  ℕ, zero, suc, ◌+◌, ◌-◌, ◌*◌, ◌/◌, ◌%◌, ◌^◌, not, ltb, ◌==◌, if◌then◌else◌, min,
}
use yi_outdoor_1080p_ptz.Memory.{Buf}

abbrev pub Bits : Type 0 → Type 0
Bits A = ℕ → A × ℕ

infixl 5 ◌>>=◌ ◌>>◌
abbrev pub ◌>>=◌ : {A B : Type 0} → Bits A → (A → Bits B) → Bits B
◌>>=◌ m f pos = let r = m pos in f r.0 r.1

abbrev pub ◌>>◌ : {A B : Type 0} → Bits A → Bits B → Bits B
m >> k = m >>= λ _. k

abbrev pub pure : {A : Type 0} → A → Bits A
pure a pos = (a, pos)

-- Bit `pos` of a buffer, the highest bit of a byte first.
abbrev pub bit_at : Buf → ℕ → ℕ
bit_at s pos = s (pos / 8) / 2 ^ (7 - pos % 8) % 2

module _ (s : Buf) (slen : ℕ) where
  unfoldable pub read_bit : Bits ℕ
  read_bit pos = if ltb pos (slen * 8) then (bit_at s pos, pos + 1) else (0, pos)

  -- `while (*pos < slen * 8 && sps_read_bit(...) == 0) z++`, with the bits left as its rounds.
  unfoldable pub count_zeros : ℕ → ℕ → Bits ℕ
  unfolding read_bit
  count_zeros zero z pos = (z, pos)
  count_zeros (suc left) z pos =
      let rest = count_zeros left (z + 1) (pos + 1) in
      if not (ltb pos (slen * 8))
      then (z, pos)
      else if bit_at s pos == 0
      then rest
      else (z, pos + 1)

  -- `v = (v << 1) | bit`, a number of times.
  unfoldable pub read_bits : ℕ → ℕ → Bits ℕ
  read_bits zero v = pure v
  read_bits (suc n) v = do b ← read_bit; read_bits n (v * 2 + b)

  unfoldable pub read_ue : Bits ℕ
  unfolding read_bits count_zeros
  read_ue pos =
      let (z, p) = count_zeros (slen * 8 - pos) 0 pos in
      let (v, q) = read_bits (min z 24) 0 p in (if ltb 24 z then 0xFFFF else 2 ^ z - 1 + v, q)
