-- ===== src/Onvif/Reply/Digits.antt =====
-- Printed numbers in src/onvif/onvif.c.
use yi_outdoor_1080p_ptz.Prelude.{
  ℕ, zero, suc, ◌+◌, ◌/◌, ◌%◌, ◌≤◌, ◌<◌, arith, List, [], ◌∷◌, ◌++◌, ltb, if-both, if-each, length,
  length-append,
}
use yi_outdoor_1080p_ptz.Onvif.Reply.Pieces.{digits, decimal}

length-digits : (fuel n : ℕ) → length (digits fuel n) ≤ fuel
unfolding digits
length-digits zero n = omega arith
length-digits (suc fuel) n =
    if-both (λ (t : List ℕ). length t ≤ suc fuel) (ltb n 10) (omega arith)
      (omega (
        arith,
        length-append (digits fuel (n / 10)) ((48 + n % 10) ∷ []),
        length-digits fuel (n / 10),
      ))

pub length-decimal : (n : ℕ) → length (decimal n) ≤ 10
length-decimal n = length-digits 10 n

abbrev pub AllDigits : List ℕ → Type 0
AllDigits [] = Unit
AllDigits (c ∷ cs) = ((48 ≤ c) × (c < 58)) × AllDigits cs

AllDigits-append : (s t : List ℕ) → AllDigits s → AllDigits t → AllDigits (s ++ t)
AllDigits-append [] t u v = v
AllDigits-append (c ∷ s) t (d, u) v = (d, AllDigits-append s t u v)

pub digits-AllDigits : (fuel n : ℕ) → AllDigits (digits fuel n)
unfolding digits
digits-AllDigits zero n = tt
digits-AllDigits (suc fuel) n =
    if-each AllDigits (ltb n 10) (λ t. ((omega arith, ground arith), tt))
      λ f.
        AllDigits-append (digits fuel (n / 10)) _ (digits-AllDigits fuel (n / 10))
          ((omega arith, omega arith), tt)
