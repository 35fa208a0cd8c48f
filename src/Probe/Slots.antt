-- ===== src/Probe/Slots.antt =====
-- Parts D and E of src/ring-capture/slotprobe.c: the words of the ring header that move, and the
-- samples around every backward move of the word at 0x04.
pub mod History
pub mod Replay
use yi_outdoor_1080p_ptz.Prelude.{
  ℕ, zero, suc, ◌+◌, ◌-◌, ◌*◌, ◌%◌, Bool, true, false, not, ◌&&◌, List, [], ◌∷◌, ◌++◌, ltb, ◌==◌,
  if◌then◌else◌,
}

-- Part D: what one comparison prints: the offset of a word, and its values before and after.
pub record Move : Type 0 where
  pub offset : ℕ
  pub was : ℕ
  pub now : ℕ

-- `for (i = 0; i < 0x100 / 4; i++)`, from word `i` on.
unfoldable pub moves : ℕ → List ℕ → List ℕ → List Move
moves i [] cur = []
moves i (p ∷ prev) [] = []
moves i (p ∷ prev) (c ∷ cur) =
    let rest = moves (i + 1) prev cur in
    if not (c == p) then record { offset = i * 4; was = p; now = c } ∷ rest else rest

-- The loop of part D, over the samples that it takes.
unfoldable pub watch_header : List ℕ → List (List ℕ) → List Move
watch_header prev [] = []
watch_header prev (cur ∷ later) = moves 0 prev cur ++ watch_header cur later

-- Part E: one sample, the header's words and the counts of three semaphores as 32 bits.
pub record Sample : Type 0 where
  pub t : ℕ
  pub a04 : ℕ
  pub a0c : ℕ
  pub a10 : ℕ
  pub a14 : ℕ
  pub a18 : ℕ
  pub n0 : ℕ
  pub n1 : ℕ
  pub n2 : ℕ

-- What is printed for a backward move: the values of the word, and the samples around.
pub record Backward : Type 0 where
  pub at : ℕ
  pub was : ℕ
  pub now : ℕ
  pub around : List Sample

-- `ring`, `rn`, `have`, `prev04` and `first`.
pub record Recent : Type 0 where
  pub ring : ℕ → Sample
  pub rn : ℕ
  pub have : ℕ
  pub prev04 : ℕ
  pub first : Bool

unfoldable pub set_slot : (ℕ → Sample) → ℕ → Sample → ℕ → Sample
set_slot ring rn s i = if i == rn then s else ring i

-- `for (k = 0; k < have; k++)`, with the rounds left to go.
unfoldable pub print_around : ℕ → (ℕ → Sample) → ℕ → ℕ → ℕ → List Sample
print_around zero ring rn have k = []
print_around (suc left) ring rn have k =
    ring ((rn + k + 4 - have) % 4) ∷ print_around left ring rn have (k + 1)

-- A sample goes into the ring.
unfoldable pub keep : Recent → Sample → Recent
unfolding set_slot
keep e s = record {
  ring = set_slot e.ring e.rn s;
  rn = (e.rn + 1) % 4;
  have = if ltb e.have 4 then e.have + 1 else e.have;
  prev04 = s.a04;
  first = false;
}

-- The move is looked at before `prev04` and `first` are set; nothing printed reads those two.
unfoldable pub report : Recent → Sample → List Backward
unfolding keep print_around
report e s =
    let e' = keep e s in
    if not e.first && ltb s.a04 e.prev04 && ltb 1024 (e.prev04 - s.a04)
    then record {
      at = s.t;
      was = e.prev04;
      now = s.a04;
      around = print_around e'.have e'.ring e'.rn e'.have 0;
    }
      ∷ []
    else []

-- The loop of part E, over the samples that it takes.
unfoldable pub part_e : Recent → List Sample → List Backward
unfolding keep report
part_e e [] = []
part_e e (s ∷ later) = report e s ++ part_e (keep e s) later

abbrev pub no_samples : (ℕ → Sample) → Recent
no_samples ring = record { ring = ring; rn = 0; have = 0; prev04 = 0; first = true }
