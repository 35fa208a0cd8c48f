-- ===== src/Memory.antt =====
-- Byte memory, as the C code sees it: `volatile uint8_t *buf`, `unsigned char msg[64]`, a payload
-- pointer. A buffer is a function from an offset to a byte, and an access names its length.
-- Multi-byte fields are little-endian (the camera's ARM1176), as `memcpy` into an integer reads
-- them and as `put32` and `put16` write them.
pub mod Laws
use yi_outdoor_1080p_ptz.Prelude.{
  ℕ, zero, suc, ◌+◌, ◌-◌, ◌*◌, ◌/◌, ◌%◌, ◌^◌, ◌<◌, List, [], ◌∷◌, ◌==◌, if◌then◌else◌,
}

abbrev pub Buf : Type 0
Buf = ℕ → ℕ

-- A store of one byte.
unfoldable pub poke : Buf → ℕ → ℕ → Buf
poke m a v x = if x == a then v else m x

-- `memcpy` out of a buffer, and into one.
unfoldable pub read : Buf → ℕ → ℕ → List ℕ
read m off zero = []
read m off (suc n) = m off ∷ read m (off + 1) n

unfoldable pub write : Buf → ℕ → List ℕ → Buf
write m off [] = m
write m off (b ∷ bs) = write (poke m off b) (off + 1) bs

-- The integer that little-endian bytes stand for, and the bytes of an integer.
abbrev pub of_le : List ℕ → ℕ
of_le [] = 0
of_le (b ∷ bs) = b + 256 * of_le bs

abbrev pub to_le : ℕ → ℕ → List ℕ
to_le zero v = []
to_le (suc n) v = (v % 256) ∷ to_le n (v / 256)

-- Arithmetic of `uint32_t`.
abbrev pub u32 : ℕ → ℕ
u32 v = v % 2 ^ 32

abbrev pub sub32 : ℕ → ℕ → ℕ
sub32 a b = (a + 2 ^ 32 - b) % 2 ^ 32

abbrev pub IsBytes : Buf → Type 0
IsBytes m = (a : ℕ) → m a < 256
