-- ===== src/Sps/Codes.antt =====
-- The bit strings of fixed-width numbers and of exp-Golomb codes, apart from any buffer.
use native.Mathlib.Nat.{pow-suc, div-add-mod, mod-lt, mod-eq_of_lt, mul-add-mod_self_right}
use native.Mathlib.Numerals.{add-one}
use yi_outdoor_1080p_ptz.Prelude.{
  ℕ, zero, suc, ◌+◌, ◌*◌, ◌/◌, ◌%◌, ◌^◌, ◌≤◌, ◌<◌, ◌≡◌, refl, List, [], ◌∷◌, ◌++◌, arith, length,
  ap, ◌∙◌, Bool-cases, ◌==◌, inl, inr, ltb,
}
use yi_outdoor_1080p_ptz.Sps.Writer.{width}

-- The low `n` bits of `v`, highest first.
abbrev pub bits_of : ℕ → ℕ → List ℕ
bits_of zero v = []
bits_of (suc n) v = (v / 2 ^ n % 2) ∷ bits_of n v

abbrev pub zeros : ℕ → List ℕ
zeros zero = []
zeros (suc n) = 0 ∷ zeros n

-- `v + 1` behind as many zeros as it has bits after its first.
abbrev pub ue_code : ℕ → List ℕ
ue_code v = zeros (width 32 (v + 1)) ++ bits_of (width 32 (v + 1) + 1) (v + 1)

pub length-bits_of : (n v : ℕ) → length (bits_of n v) ≡ n
length-bits_of zero v = refl
length-bits_of (suc n) v = omega (arith, length-bits_of n v)

pub length-zeros : (n : ℕ) → length (zeros n) ≡ n
length-zeros zero = refl
length-zeros (suc n) = omega (arith, length-zeros n)

pub zero-div-mod : (p : ℕ) → 0 / p % 2 ≡ 0
zero-div-mod p = grind arith

pub bits_of_zero : (n : ℕ) → bits_of n 0 ≡ zeros n
bits_of_zero zero = refl
bits_of_zero (suc n) = rw (bits_of_zero n) (ap (λ k. k ∷ zeros n) (zero-div-mod (2 ^ n)))

-- One more bit of a number.
pub mod_double : (v p : ℕ) → 0 < p → v % (2 * p) ≡ v / p % 2 * p + v % p
mod_double v p h = begin
  where
    low : ℕ
    low = v / p % 2 * p + v % p

    low_lt : low < 2 * p
    low_lt = elim (Bool-cases (v / p % 2 == 0)) [
      | inl e ↦ let z : v / p % 2 ≡ 0 = ground arith in rw z (omega (arith, mod-lt v h))
      | inr e ↦ let z : v / p % 2 ≡ 1 = ground arith in rw z (omega (arith, mod-lt v h))
    ]

    split : v ≡ v / p / 2 * (2 * p) + low
    split = omega (arith, div-add-mod v p, ap (λ (t : ℕ). p * t) (div-add-mod (v / p) 2))

    begin : v % (2 * p) ≡ low
    begin =
        ap (λ (t : ℕ). t % (2 * p)) split
        ∙ mul-add-mod_self_right (v / p / 2) (2 * p) low
        ∙ mod-eq_of_lt low_lt

pub width_bounds :
    (rounds t : ℕ)
    → 0 < t
    → t < 2 ^ suc rounds
    → (2 ^ width rounds t ≤ t) × (t < 2 * 2 ^ width rounds t)
unfolding width
width_bounds zero t p h = omega arith
width_bounds (suc rounds) t p h = elim (Bool-cases (ltb 1 t)) [
  | inl more ↦
      rw (more, add-one)
        (ground (
          arith,
          width_bounds rounds (t / 2) (ground arith) (omega (arith, pow-suc 2 (suc rounds))),
          pow-suc 2 (width rounds (t / 2)),
        ))
  | inr done ↦ rw done (ground arith)
]

pub width-le : (rounds t : ℕ) → width rounds t ≤ rounds
unfolding width
width-le zero t = omega arith
width-le (suc rounds) t = ground (arith, width-le rounds (t / 2))

pub width_small : (rounds k t : ℕ) → t < 2 ^ suc k → width rounds t ≤ k
unfolding width
width_small zero k t h = omega arith
width_small (suc rounds) zero t h = ground arith
width_small (suc rounds) (suc k) t h =
    ground (arith, pow-suc 2 (suc k), width_small rounds k (t / 2))
