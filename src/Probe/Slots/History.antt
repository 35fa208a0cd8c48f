-- ===== src/Probe/Slots/History.antt =====
-- The ring of four samples of src/ring-capture/slotprobe.c against the whole history.
use yi_outdoor_1080p_ptz.Prelude.{
  ℕ, zero, suc, ◌+◌, ◌-◌, ◌%◌, ◌<◌, ◌≡◌, refl, ap, ap₂, ◌∙◌, min, Bool, true, false, ◌&&◌, List, [],
  ◌∷◌, ◌++◌, arith, ltb, ◌==◌, if◌then◌else◌, length, get_or,
}
use yi_outdoor_1080p_ptz.Probe.Slots.{
  Sample, Backward, Recent, set_slot, print_around, keep, report, part_e, no_samples,
}

-- The last `n` samples of a history, the newest first, in the order that they were taken.
unfoldable pub last_few : ℕ → Sample → List Sample → List Sample
last_few zero d h = []
last_few (suc n) d h = get_or h n d ∷ last_few n d h

-- The samples with a backward move, each with the last four samples up to it, or all if there are
-- fewer; `d` is the sample that stands for none.
unfoldable pub backward_moves : Sample → List Sample → List Sample → List Backward
unfolding last_few
backward_moves d h [] = []
backward_moves d [] (s ∷ later) = backward_moves d (s ∷ []) later
backward_moves d (p ∷ h) (s ∷ later) =
    let rest = backward_moves d (s ∷ p ∷ h) later in
    if ltb s.a04 p.a04 && ltb 1024 (p.a04 - s.a04)
    then record {
      at = s.t;
      was = p.a04;
      now = s.a04;
      around = last_few (min 4 (length (s ∷ p ∷ h))) d (s ∷ p ∷ h);
    }
      ∷ rest
    else rest

-- The ring holds the last samples of the history.
record Holds (d : Sample) (h : List Sample) (e : Recent) : Type 0 where
  counted : e.have ≡ min 4 (length h)
  next_slot : e.rn ≡ length h % 4
  held : (i : ℕ) → i < e.have → e.ring ((length h + 3 - i) % 4) ≡ get_or h i d

Holds-keep :
    (d : Sample) (h : List Sample) (e : Recent) (s : Sample)
    → Holds d h e
    → Holds d (s ∷ h) (keep e s)
unfolding keep set_slot
Holds-keep d h e s w = record {
  counted = ground (arith, w.counted);
  next_slot = omega (arith, w.next_slot);
  held = held_after;
}
  where
    held_after :
        (i : ℕ)
        → i < (keep e s).have
        → (keep e s).ring ((suc (length h) + 3 - i) % 4) ≡ get_or (s ∷ h) i d
    held_after zero lt =
        let here : ((suc (length h) + 3 - 0) % 4 == e.rn) ≡ true =
          let q = w.next_slot in ground arith in
        rw here refl
    held_after (suc j) lt =
        let c = w.counted in
        let bound : j < e.have = ground arith in
        let three : j < 3 = ground arith in
        let apart : ((length h + 3 - j) % 4 == e.rn) ≡ false =
          let q = w.next_slot in ground arith in
        let same : (suc (length h) + 3 - suc j) % 4 ≡ (length h + 3 - j) % 4 = omega arith in
        rw (same, apart) (w.held j bound)

print_around-last_few :
    (left : ℕ) (d : Sample) (h : List Sample) (e : Recent) (k : ℕ)
    → Holds d h e
    → left + k ≡ e.have
    → print_around left e.ring e.rn e.have k ≡ last_few left d h
unfolding print_around last_few
print_around-last_few zero d h e k w q = refl
print_around-last_few (suc left) d h e k w q =
    let at : (e.rn + k + 4 - e.have) % 4 ≡ (length h + 3 - left) % 4 =
      omega (arith, w.next_slot, w.counted) in
    ap₂ ◌∷◌ (ap e.ring at ∙ w.held left (omega arith))
      (print_around-last_few left d h e (k + 1) w (omega arith))

-- What the two words that a backward move is judged by say of the history.
abbrev Linked : List Sample → Recent → Type 0
Linked [] e = e.first ≡ true
Linked (p ∷ h) e = (e.prev04 ≡ p.a04) × (e.first ≡ false)

around-last_few :
    (d : Sample) (h : List Sample) (e : Recent)
    → Holds d h e
    → print_around e.have e.ring e.rn e.have 0 ≡ last_few (min 4 (length h)) d h
around-last_few d h e w =
    print_around-last_few e.have d h e 0 w (omega arith) ∙ ap (λ n. last_few n d h) w.counted

choose :
    (b : Bool) (x y : Backward) (xs ys : List Backward)
    → x ≡ y
    → xs ≡ ys
    → (if b then x ∷ [] else []) ++ xs ≡ (if b then y ∷ ys else ys)
choose true x y xs ys q r = ap₂ ◌∷◌ q r
choose false x y xs ys q r = r

part_e_from :
    (d : Sample) (h later : List Sample) (e : Recent)
    → Holds d h e
    → Linked h e
    → part_e e later ≡ backward_moves d h later
unfolding part_e backward_moves
part_e_from d h [] e w l = refl
part_e_from d [] (s ∷ later) e w l =
    unfold report in
    rw l (part_e_from d (s ∷ []) later (keep e s) (Holds-keep d [] e s w) (refl, refl))
part_e_from d (p ∷ h) (s ∷ later) e w (prev, begun) =
    let next : Holds d (s ∷ p ∷ h) (keep e s) = Holds-keep d (p ∷ h) e s w in
    unfold report in
    rw (begun, prev)
      (choose (ltb s.a04 p.a04 && ltb 1024 (p.a04 - s.a04)) _ _ _ _
        (ap (λ xs. record { at = s.t; was = p.a04; now = s.a04; around = xs })
          (around-last_few d (s ∷ p ∷ h) (keep e s) next))
        (part_e_from d (s ∷ p ∷ h) later (keep e s) next (refl, refl)))

-- Part E prints the backward moves of the word at 0x04 by more than 1024 bytes, each with the last
-- four samples in the order that they were taken, the one of the move last, or with all of them if
-- fewer have been taken. What the ring of four holds before the first sample does not matter.
pub part_e-backward_moves :
    (d : Sample) (ring : ℕ → Sample) (samples : List Sample)
    → part_e (no_samples ring) samples ≡ backward_moves d [] samples
part_e-backward_moves d ring samples =
    part_e_from d [] samples (no_samples ring)
      (record { counted = refl; next_slot = refl; held = λ i lt. absurd (omega arith) }) refl
