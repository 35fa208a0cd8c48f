-- ===== src/Sps/Writer/SetBit.antt =====
-- `|=` with one bit, read back bit by bit.
use Prim.Native.Nat.{bit_or}
use yi_outdoor_1080p_ptz.Prelude.{
  ℕ, zero, suc, ◌+◌, ◌-◌, ◌*◌, ◌/◌, ◌%◌, ◌^◌, ◌≤◌, ◌<◌, ◌≡◌, refl, ◌∙◌, Bool, true, false, arith,
  ltb, ◌==◌, ==_iff, ltb→lt, if◌then◌else◌, Bool-cases, inl, inr,
}
use yi_outdoor_1080p_ptz.Memory.{Buf, poke, IsBytes}
use yi_outdoor_1080p_ptz.Memory.Laws.{poke-IsBytes}
use yi_outdoor_1080p_ptz.Sps.Reader.{bit_at}
use yi_outdoor_1080p_ptz.Sps.Writer.{set_bit}

-- A table of `bound` entries, each of which passes.
passes : (ℕ → Bool) → ℕ → Bool
passes test zero = true
passes test (suc bound) = if test bound then passes test bound else false

passes-at :
    (test : ℕ → Bool) (bound : ℕ) {x : ℕ} → x < bound → passes test bound ≡ true → test x ≡ true
unfolding passes
passes-at test zero lt h = absurd (omega arith)
passes-at test (suc bound) {x} lt h = elim (Bool-cases (test bound)) [
  | inl t ↦ elim (Bool-cases (x == bound)) [
    | inl same ↦ let e : x ≡ bound = ground arith in rw e t
    | inr other ↦ passes-at test bound (ground arith) (rw t at h)
  ]
  | inr f ↦ cc
]

-- Entry `b * 64 + k * 8 + j`: bit `j` of byte `b` with bit `k` set.
abbrev or_entry : ℕ → Bool
or_entry x =
    (bit_or (x / 64) (2 ^ (7 - x / 8 % 8)) / 2 ^ (7 - x % 8) % 2)
    == (if x % 8 == x / 8 % 8 then 1 else x / 64 / 2 ^ (7 - x % 8) % 2)

or_table : passes or_entry 16384 ≡ true
unfolding passes
or_table = refl

-- Entry `b * 8 + k`: the result is a byte.
abbrev or_byte : ℕ → Bool
or_byte x = ltb (bit_or (x / 8) (2 ^ (7 - x % 8))) 256

or_byte_table : passes or_byte 2048 ≡ true
unfolding passes
or_byte_table = refl

bit_or_bit :
    (b k j : ℕ)
    → b < 256
    → k < 8
    → j < 8
    → bit_or b (2 ^ (7 - k)) / 2 ^ (7 - j) % 2 ≡ (if j == k then 1 else b / 2 ^ (7 - j) % 2)
bit_or_bit b k j hb hk hj =
    let e : bit_or (x / 64) (2 ^ (7 - x / 8 % 8)) / 2 ^ (7 - x % 8) % 2
        ≡ (if x % 8 == x / 8 % 8 then 1 else x / 64 / 2 ^ (7 - x % 8) % 2) =
      (==_iff _ _).0 (passes-at or_entry 16384 (omega arith) or_table) in
    rw (byte_is, set_is, read_is) at e
  where
    x : ℕ
    x = b * 64 + k * 8 + j

    byte_is : x / 64 ≡ b
    byte_is = omega arith

    set_is : x / 8 % 8 ≡ k
    set_is = omega arith

    read_is : x % 8 ≡ j
    read_is = omega arith

bit_or-lt : (b k : ℕ) → b < 256 → k < 8 → bit_or b (2 ^ (7 - k)) < 256
bit_or-lt b k hb hk =
    rw (byte_is, set_is) at
      (ltb→lt (bit_or (x / 8) (2 ^ (7 - x % 8))) 256
        (passes-at or_byte 2048 (omega arith) or_byte_table))
  where
    x : ℕ
    x = b * 8 + k

    byte_is : x / 8 ≡ b
    byte_is = omega arith

    set_is : x % 8 ≡ k
    set_is = omega arith

pub set_bit-IsBytes : (m : Buf) (p : ℕ) → IsBytes m → IsBytes (set_bit m p)
set_bit-IsBytes m p b =
    poke-IsBytes m (p / 8) _ b (bit_or-lt (m (p / 8)) (p % 8) (b (p / 8)) (omega arith))

-- Setting bit `p` changes that bit alone.
pub bit_at-set_bit :
    (m : Buf) (p q : ℕ) → IsBytes m → bit_at (set_bit m p) q ≡ (if q == p then 1 else bit_at m q)
unfolding poke
bit_at-set_bit m p q b = elim (Bool-cases (q / 8 == p / 8)) [
  | inl same ↦
      let e : q / 8 ≡ p / 8 = ground arith in
      rw same (
        bit_or_bit (m (p / 8)) (p % 8) (q % 8) (b (p / 8)) (omega arith) (omega arith)
        ∙ rw e (tests e))
  | inr other ↦ rw other (ground arith)
]
  where
    tests :
        q / 8 ≡ p / 8
        → (if q % 8 == p % 8 then 1 else m (p / 8) / 2 ^ (7 - q % 8) % 2)
          ≡ (if q == p then 1 else m (p / 8) / 2 ^ (7 - q % 8) % 2)
    tests e = ground arith

-- Byte 0 is not reached from bit 8 on.
pub set_bit-header : (m : Buf) (p : ℕ) → 8 ≤ p → set_bit m p 0 ≡ m 0
unfolding poke
set_bit-header m p h = ground arith
