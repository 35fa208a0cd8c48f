-- ===== src/Probe/Timeline/Tear.antt =====
-- What the verdict of the tear check of src/ring-capture/cap-timeline.c says of the snapshot.
use yi_outdoor_1080p_ptz.Prelude.{
  ℕ, zero, suc, ◌+◌, ◌-◌, ◌<◌, ◌≡◌, ◌≢◌, ◌⊎◌, inl, inr, refl, sym, ap, ap₂, Bool, true, false, ◌&&◌,
  List, [], ◌∷◌, arith, ◌==◌, if-each, Bool-cases, not_both, ◌∙◌,
}
use mathlib.Core.Path.{subst}
use yi_outdoor_1080p_ptz.Probe.Timeline.{same_bytes, Snapshot, snap_loop, snapshot, is_clean}

both : (b c : Bool) → (b && c) ≡ true → (b ≡ true) × (c ≡ true)
both true c t = (refl, t)
both false c t = cc

same_bytes_sound : (xs ys : List ℕ) → same_bytes xs ys ≡ true → xs ≡ ys
unfolding same_bytes
same_bytes_sound [] [] t = refl
same_bytes_sound [] (y ∷ ys) t = cc
same_bytes_sound (x ∷ xs) [] t = cc
same_bytes_sound (x ∷ xs) (y ∷ ys) t =
    let (h, r) = both (x == y) (same_bytes xs ys) t in
    let e : x ≡ y = ground arith in ap₂ ◌∷◌ e (same_bytes_sound xs ys r)

same_bytes_refl : (xs : List ℕ) → same_bytes xs xs ≡ true
unfolding same_bytes
same_bytes_refl [] = refl
same_bytes_refl (x ∷ xs) = let h : (x == x) ≡ true = ground arith in rw h (same_bytes_refl xs)

-- Both copies of try `i`, and whether the ring was torn between them.
abbrev pub Torn : (ℕ → List ℕ × List ℕ) → ℕ → Type 0
Torn copies i = (copies i).0 ≢ (copies i).1

-- A clean snapshot has been read twice, in the first try that was not torn.
pub record IsClean (copies : ℕ → List ℕ × List ℕ) (s : Snapshot) : Type 0 where
  pub in_time : s.tries < 10
  pub twice : copies s.tries ≡ (s.bytes, s.bytes)
  pub torn_before : (i : ℕ) → i < s.tries → Torn copies i

-- A failed one is the first copy of the tenth torn try.
pub record IsFailed (copies : ℕ → List ℕ × List ℕ) (s : Snapshot) : Type 0 where
  pub used_up : s.tries ≡ 10
  pub last_copy : s.bytes ≡ (copies 9).0
  pub all_torn : (i : ℕ) → i < 10 → Torn copies i

abbrev pub Checked : (ℕ → List ℕ × List ℕ) → Snapshot → Type 0
Checked copies s = IsClean copies s ⊎ IsFailed copies s

snap_loop-Checked :
    (left : ℕ) (copies : ℕ → List ℕ × List ℕ) (tries : ℕ) (snap1 : List ℕ)
    → left + tries ≡ 10
    → (0 < tries → snap1 ≡ (copies (tries - 1)).0)
    → ((i : ℕ) → i < tries → Torn copies i)
    → Checked copies (snap_loop left copies tries snap1)
unfolding snap_loop
snap_loop-Checked zero copies tries snap1 q last torn = inr (record {
  used_up = omega arith;
  last_copy = last (omega arith) ∙ ap (λ i. (copies i).0) (omega arith);
  all_torn = λ i lt. torn i (omega arith);
})
snap_loop-Checked (suc left) copies tries snap1 q last torn =
    if-each (Checked copies) (same_bytes (copies tries).0 (copies tries).1)
      (λ t. inl (record {
        in_time = omega arith;
        twice = ap (λ b. ((copies tries).0, b)) (sym (same_bytes_sound _ _ t));
        torn_before = torn;
      }))
      λ f.
        snap_loop-Checked left copies (tries + 1) (copies tries).0 (omega arith)
          (λ _. ap (λ i. (copies i).0) (omega arith))
          λ i lt. elim (Bool-cases (i == tries)) [
            | inl t ↦
                let e : tries ≡ i = ground arith in
                subst (Torn copies) e λ alike.
                  not_both
                    (subst (λ b. same_bytes (copies tries).0 b ≡ true) alike
                      (same_bytes_refl (copies tries).0))
                    f
            | inr g ↦ torn i (ground arith)
          ]

-- The tear check can be trusted: if the snapshot is called clean, the two copies of its try were
-- alike, and so were those of no earlier try; if it is called failed, ten tries were torn, and the
-- bytes written are the first copy of the tenth.
pub snapshot-Checked :
    (copies : ℕ → List ℕ × List ℕ)
    → ((is_clean (snapshot copies) ≡ true) × IsClean copies (snapshot copies))
      ⊎ ((is_clean (snapshot copies) ≡ false) × IsFailed copies (snapshot copies))
unfolding snapshot
snapshot-Checked copies =
    elim (snap_loop-Checked 10 copies 0 [] refl (λ lt. absurd (omega arith))
      (λ i lt. absurd (omega arith))) [
        | inl c ↦ inl (let h = c.in_time in ground arith, c)
        | inr f ↦ inr (let h = f.used_up in ground arith, f)
      ]
