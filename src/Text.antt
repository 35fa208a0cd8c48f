-- ===== src/Text.antt =====
-- C strings as lists of character codes, and the functions of string.h that the programs call on
-- them.
use Prim.Native.Char.{code}
use Prim.Native.String.{String}
use yi_outdoor_1080p_ptz.Prelude.{
  ℕ, zero, suc, Bool, true, false, ◌&&◌, ◌||◌, List, [], ◌∷◌, Option, none, some, ◌==◌,
  if◌then◌else◌,
}

-- The codes of a literal. `String` has its own `[]` and `∷`.
abbrev pub codes : String → List ℕ
codes String.[] = []
codes (String.◌∷◌ c s) = code c ∷ codes s

-- `!strcmp(a, b)`
abbrev pub same : List ℕ → List ℕ → Bool
same [] [] = true
same [] (b ∷ t) = false
same (a ∷ s) [] = false
same (a ∷ s) (b ∷ t) = (a == b) && same s t

-- What follows a prefix.
abbrev pub after_prefix : List ℕ → List ℕ → Option (List ℕ)
after_prefix [] s = some s
after_prefix (p ∷ ps) [] = none
after_prefix (p ∷ ps) (c ∷ cs) = if p == c then after_prefix ps cs else none

-- `strstr(s, p)`, from behind the first place of `p` on.
unfoldable pub after_first : List ℕ → List ℕ → Option (List ℕ)
after_first p [] = after_prefix p []
after_first p (c ∷ cs) =
    let rest = after_first p cs in elim (after_prefix p (c ∷ cs)) [ none ↦ rest | some t ↦ some t ]

-- `while (p[i] && p[i] != stop && i < n)`
unfoldable pub take_until : ℕ → ℕ → List ℕ → List ℕ
take_until zero stop s = []
take_until (suc n) stop [] = []
take_until (suc n) stop (c ∷ cs) =
    let rest = take_until n stop cs in if c == stop || c == 0 then [] else c ∷ rest

-- `strstr(s, p)`, from the first place of `p` on, and the text before that place.
unfoldable pub from_first : List ℕ → List ℕ → Option (List ℕ)
from_first p [] = elim (after_prefix p []) [ none ↦ none | some t ↦ some [] ]
from_first p (c ∷ cs) =
    let rest = from_first p cs in
    elim (after_prefix p (c ∷ cs)) [ none ↦ rest | some t ↦ some (c ∷ cs) ]

unfoldable pub before_first : List ℕ → List ℕ → Option (List ℕ)
before_first p [] = elim (after_prefix p []) [ none ↦ none | some t ↦ some [] ]
before_first p (c ∷ cs) =
    let rest : Option (List ℕ) = elim (before_first p cs) [ none ↦ none | some t ↦ some (c ∷ t) ] in
    elim (after_prefix p (c ∷ cs)) [ none ↦ rest | some t ↦ some [] ]

unfoldable pub contains : List ℕ → List ℕ → Bool
contains p s = elim (after_first p s) [ none ↦ false | some t ↦ true ]

-- A buffer as a C string.
unfoldable pub c_string : List ℕ → List ℕ
c_string [] = []
c_string (c ∷ cs) = if c == 0 then [] else c ∷ c_string cs

-- `strrchr(s, c) + 1`
unfoldable pub after_last : ℕ → List ℕ → Option (List ℕ)
after_last c [] = none
after_last c (x ∷ xs) = elim (after_last c xs) [
  | some t ↦ some t
  | none ↦ if x == c then some xs else none
]
