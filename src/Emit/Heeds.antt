-- ===== src/Emit/Heeds.antt =====
-- The chain gate of src/fshare2fifo/fshare2fifo.c does open: what a record has to hold for it.
use yi_outdoor_1080p_ptz.Prelude.{
  ℕ, ◌+◌, ◌-◌, ◌%◌, ◌≤◌, ◌≡◌, ◌≢◌, ◌⊎◌, inl, inr, refl, true, false, not, ◌&&◌, List, [], ◌∷◌,
  arith, ltb, ◌==◌, if-both, if-each,
}
use yi_outdoor_1080p_ptz.Memory.{Buf}
use yi_outdoor_1080p_ptz.Sps.Parse.{parse_sps_full}
use yi_outdoor_1080p_ptz.Emit.{Emitter, count, one_nal}
use yi_outdoor_1080p_ptz.Emit.Output.{Rc, done, dropped, hard, waiting, stuck}
use yi_outdoor_1080p_ptz.Emit.Keeps.{send_nal_keeps, one_nal_keeps}
use yi_outdoor_1080p_ptz.Emit.Chain.{
  Gate, Verdict, gate, gate_sps, gate_pps, gate_idr, gate_slice, gate_other, trim, pps_readable,
  can_synth,
}

-- The span is a NAL of a type, with a payload.
abbrev pub IsNal : ℕ → Buf → ℕ × ℕ → Type 0
IsNal kind p n = (5 ≤ n.1 - n.0) × (p (n.0 + 4) % 32 ≡ kind)

-- A picture parameter set that the gate accepts: two bytes without the zeros at its end, and
-- identifiers that can be read.
abbrev pub IsPps : Buf → ℕ × ℕ → Type 0
IsPps p (s, e) =
    IsNal 8 p (s, e)
    × (2 ≤ trim (λ j. p (s + 4 + j)) (e - s - 4))
    × (pps_readable (λ j. p (s + 4 + j)) (trim (λ j. p (s + 4 + j)) (e - s - 4)) ≡ true)

-- An IDR slice comes, and no sequence parameter set before it.
abbrev pub IdrComes : Buf → List (ℕ × ℕ) → Type 0
IdrComes p [] = ⊥
IdrComes p (n ∷ rest) = IsNal 5 p n ⊎ ((p (n.0 + 4) % 32 ≢ 7) × IdrComes p rest)

-- A picture parameter set comes, and an IDR slice behind it.
abbrev pub PpsComes : Buf → List (ℕ × ℕ) → Type 0
PpsComes p [] = ⊥
PpsComes p (n ∷ rest) = (IsPps p n × IdrComes p rest) ⊎ PpsComes p rest

-- A sequence parameter set comes, then a picture parameter set, then an IDR slice.
abbrev pub ChainComes : Buf → List (ℕ × ℕ) → Type 0
ChainComes p [] = ⊥
ChainComes p (n ∷ rest) = (IsNal 7 p n × PpsComes p rest) ⊎ ChainComes p rest

-- The gate is open, or its stage is at least so far.
abbrev pub At : ℕ → Gate → Type 0
At st g = (g.chain_open ≡ true) ⊎ (st ≤ g.stage)

At-count : (st : ℕ) (r : Rc) (n : ℕ) (g : Gate) → At st g → At st (count r n g)
unfolding count
At-count st done n g w = w
At-count st dropped n g w = w
At-count st hard n g w = w
At-count st waiting n g w = w
At-count st stuck n g w = w

abbrev pub IsOpen : Gate → Type 0
IsOpen g = g.chain_open ≡ true

IsOpen-count : (r : Rc) (n : ℕ) (g : Gate) → IsOpen g → IsOpen (count r n g)
unfolding count
IsOpen-count done n g w = w
IsOpen-count dropped n g w = w
IsOpen-count hard n g w = w
IsOpen-count waiting n g w = w
IsOpen-count stuck n g w = w

abbrev After : ℕ → Verdict × Gate → Type 0
After st v = At st v.1

module _ (g : Gate) (p : Buf) (s e : ℕ) where
  sps_heeded : (st : ℕ) → st ≤ 1 → After st (gate_sps g p s e)
  unfolding gate_sps
  sps_heeded st le =
      if-both (After st) (can_synth (parse_sps_full (λ j. p (s + 4 + j)) (e - s - 4))) (inr le)
        (inr le)

  -- A picture parameter set does not take the gate back.
  pps_At : (st : ℕ) → st ≤ 2 → At st g → After st (gate_pps g p s e)
  unfolding gate_pps
  pps_At st le at = if-both (After st) (ltb g.stage 1) at (
      if-both (After st) (ltb body 2) at
        (if-both (After st) (not (pps_readable (λ j. p (s + 4 + j)) body)) at (inr le)))
    where
      body : ℕ
      body = trim (λ j. p (s + 4 + j)) (e - s - 4)

  pps_heeded : IsPps p (s, e) → At 1 g → After 2 (gate_pps g p s e)
  unfolding gate_pps
  pps_heeded (nal, long, ok) (inl o) = pps_At 2 (omega arith) (inl o)
  pps_heeded (nal, long, ok) (inr staged) =
      let first : ltb g.stage 1 ≡ false = ground arith in
      let second : ltb (trim (λ j. p (s + 4 + j)) (e - s - 4)) 2 ≡ false = ground arith in
      rw (first, second, ok) (inr (omega arith))

  idr_heeded : At 2 g → (gate_idr g e).1.chain_open ≡ true
  unfolding gate_idr
  idr_heeded (inl o) =
      if-both (λ (v : Verdict × Gate). v.1.chain_open ≡ true) (ltb g.stage 2) o refl
  idr_heeded (inr staged) = let full : ltb g.stage 2 ≡ false = ground arith in rw full refl

  -- No NAL takes the gate back below stage 1, and only a sequence parameter set below stage 2.
  gate-At : (st : ℕ) → st ≤ 2 → (st ≡ 2 → p (s + 4) % 32 ≢ 7) → At st g → After st (gate g p s e)
  unfolding gate gate_slice gate_other gate_idr
  gate-At st le other at =
      if-each (After st) (k == 7) (λ t. sps_heeded st (ground (arith, other)))
        λ _. if-both (After st) (k == 8) (pps_At st le at) (
          if-both (After st) (k == 5) (if-both (After st) (ltb g.stage 2) at (inl refl)) (
            if-both (After st) (k == 1) (if-both (After st) (not g.chain_open) at at) (
              if-both (After st) (k == 9) at
                (if-both (After st) (not g.chain_open && g.stage == 0) at at))))
    where
      k : ℕ
      k = p (s + 4) % 32

  gate-IsOpen : IsOpen g → IsOpen (gate g p s e).1
  unfolding gate gate_sps gate_pps gate_idr gate_slice gate_other
  gate-IsOpen o =
      if-both Open (k == 7)
        (if-both Open (can_synth (parse_sps_full (λ j. p (s + 4 + j)) (e - s - 4))) o o)
        (if-both Open (k == 8)
          (if-both Open (ltb g.stage 1) o (
            if-both Open (ltb body 2) o
              (if-both Open (not (pps_readable (λ j. p (s + 4 + j)) body)) o o)))
          (if-both Open (k == 5) (if-both Open (ltb g.stage 2) o refl) (
            if-both Open (k == 1) (if-both Open (not g.chain_open) o o)
              (if-both Open (k == 9) o (if-both Open (not g.chain_open && g.stage == 0) o o)))))
    where
      k : ℕ
      k = p (s + 4) % 32

      body : ℕ
      body = trim (λ j. p (s + 4 + j)) (e - s - 4)

      Open : Verdict × Gate → Type 0
      Open v = IsOpen v.1

  gate_of_sps : p (s + 4) % 32 ≡ 7 → gate g p s e ≡ gate_sps g p s e
  unfolding gate
  gate_of_sps h = rw h refl

  gate_of_pps : p (s + 4) % 32 ≡ 8 → gate g p s e ≡ gate_pps g p s e
  unfolding gate
  gate_of_pps h = rw h refl

  gate_of_idr : p (s + 4) % 32 ≡ 5 → gate g p s e ≡ gate_idr g e
  unfolding gate
  gate_of_idr h = rw h refl

module _ (em : Emitter) (p : Buf) (s e : ℕ) (r : Rc) where
  abbrev pub left : Emitter
  left = (one_nal em p s e r).after

  pub one_nal-At :
      (st : ℕ) → st ≤ 2 → (st ≡ 2 → p (s + 4) % 32 ≢ 7) → At st em.gate → At st left.gate
  one_nal-At st le other at =
      one_nal_keeps (At st) (At-count st) em p s e r at
        (λ full. gate-At em.gate p s e st le other at)

  -- A NAL with a payload goes through the gate.
  full_nal :
      (P : Gate → Type 0)
      → ((q : Rc) (n : ℕ) (g : Gate) → P g → P (count q n g))
      → 5 ≤ e - s
      → P (gate em.gate p s e).1
      → P left.gate
  unfolding one_nal
  full_nal P counted full w =
      let long : ltb (e - s) 5 ≡ false = ground arith in
      rw (long, left) (send_nal_keeps P counted (gate em.gate p s e) em.sink p s e r w)

  pub sps_taken : IsNal 7 p (s, e) → At 1 left.gate
  sps_taken (full, k) =
      full_nal (At 1) (At-count 1) full
        (rw (gate_of_sps em.gate p s e k) (sps_heeded em.gate p s e 1 (omega arith)))

  pub pps_taken : IsPps p (s, e) → At 1 em.gate → At 2 left.gate
  pps_taken ((full, k), long, ok) at =
      full_nal (At 2) (At-count 2) full
        (rw (gate_of_pps em.gate p s e k) (pps_heeded em.gate p s e ((full, k), long, ok) at))

  pub idr_taken : IsNal 5 p (s, e) → At 2 em.gate → left.gate.chain_open ≡ true
  idr_taken (full, k) at =
      full_nal IsOpen IsOpen-count full
        (rw (gate_of_idr em.gate p s e k) (idr_heeded em.gate p s e at))

  pub open_kept : em.gate.chain_open ≡ true → left.gate.chain_open ≡ true
  open_kept o = one_nal_keeps IsOpen IsOpen-count em p s e r o (λ full. gate-IsOpen em.gate p s e o)
