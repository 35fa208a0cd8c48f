-- ===== src/Probe/Scan/Head.antt =====
-- The write head that src/ring-capture/scanprobe.c makes out of the changed stretches.
use yi_outdoor_1080p_ptz.Prelude.{
  ℕ, zero, suc, ◌+◌, ◌≤◌, ◌<◌, ◌≡◌, ◌⊎◌, inl, inr, refl, sym, ap, true, false, if-both, List, [],
  ◌∷◌, some, arith, ltb, ◌==◌, ◌&&◌, Bool-cases,
}
use mathlib.Core.Path.{subst}
use yi_outdoor_1080p_ptz.Memory.{Buf}
use yi_outdoor_1080p_ptz.Probe.Scan.{scan_base, Run, runs, write_head}
use yi_outdoor_1080p_ptz.Probe.Scan.Runs.{Same, Changed, IsFirst, AreRuns, runs-AreRuns}

module _ (buf snap : Buf) (size : ℕ) where
  end_of : (b : ℕ) → b ≤ size → Same buf snap size b size → (b ≡ size) ⊎ (buf b ≡ snap b)
  end_of b bs after = elim (Bool-cases (b == size)) [
    | inl t ↦ inl (ground arith)
    | inr f ↦ inr (after b (omega arith) (ground arith))
  ]

  -- The first run is the stretch from `a` to `b`.
  first_is :
      (lo a b : ℕ) (r : Run)
      → lo ≤ a
      → a < b
      → b ≤ size
      → Same buf snap size lo a
      → Changed buf snap size a b
      → ((b ≡ size) ⊎ (buf b ≡ snap b))
      → IsFirst buf snap size lo r
      → (r.s ≡ a) × (r.e ≡ b)
  first_is lo a b r la ab bs same ch end f = (start, squeeze r.e b not_short not_long)
    where
      squeeze : (x y : ℕ) → (x < y → ⊥) → (y < x → ⊥) → x ≡ y
      squeeze x y p q = ground (arith, p, q)

      start : r.s ≡ a
      start =
          squeeze r.s a (λ lt. f.changed_in r.s (omega arith) f.nonempty (same r.s f.from lt))
            (λ gt. ch a (omega arith) ab (f.same_before a la gt))

      not_short : r.e < b → ⊥
      not_short lt = elim f.ends [
        | inl last ↦ absurd (omega arith)
        | inr eq ↦ let n = f.nonempty in let at : r.s ≡ a = start in ch r.e (omega arith) lt eq
      ]

      not_long : b < r.e → ⊥
      not_long gt = elim end [
        | inl last ↦ let i = f.inside in absurd (omega arith)
        | inr eq ↦ let at : r.s ≡ a = start in f.changed_in b (omega arith) gt eq
      ]

  -- Where nothing has changed there is no run.
  none_more :
      (room lo : ℕ) (rs : List Run)
      → Same buf snap size lo size
      → AreRuns buf snap size room lo rs
      → rs ≡ []
  none_more zero lo [] same w = refl
  none_more (suc room) lo [] same w = refl
  none_more zero lo (r ∷ rs) same w = elim w [ ]
  none_more (suc room) lo (r ∷ rs) same (f, w) =
      let i = f.inside in
      let n = f.nonempty in
      absurd (f.changed_in r.s (omega arith) f.nonempty (same r.s f.from (omega arith)))

  -- The writer has gone from `a` on up to `b`.
  head_of_one :
      (a b : ℕ) (rs : List Run)
      → scan_base ≤ a
      → a < b
      → b ≤ size
      → Same buf snap size scan_base a
      → Changed buf snap size a b
      → Same buf snap size b size
      → AreRuns buf snap size 4 scan_base rs
      → write_head size rs ≡ some b
  unfolding write_head
  head_of_one a b [] la ab bs same ch after w =
      absurd (ch a (omega arith) ab (w a la (omega arith)))
  head_of_one a b (r ∷ rs) la ab bs same ch after (f, w) =
      let (start, end) = first_is scan_base a b r la ab bs same ch (end_of b bs after) f in
      let one : rs ≡ [] =
        none_more 3 r.e rs (subst (λ x. Same buf snap size x size) (sym end) after) w in
      rw (one, end)
        (ap some
          (if-both (λ x. x ≡ b) (b == size && false && ltb r.s (scan_base + 4096)) refl refl))

  -- It has gone round the end of the mapping, from `a` on, and up to `b`.
  head_of_two :
      (a b : ℕ) (rs : List Run)
      → scan_base < b
      → b < a
      → a < size
      → Changed buf snap size scan_base b
      → Same buf snap size b a
      → Changed buf snap size a size
      → AreRuns buf snap size 4 scan_base rs
      → write_head size rs ≡ some b
  unfolding write_head
  head_of_two a b [] lb ba fits ch same ch' w =
      absurd (ch' a (omega arith) fits (w a (omega arith) fits))
  head_of_two a b (r ∷ []) lb ba fits ch same ch' (f, w) =
      let (start, end) =
        first_is scan_base scan_base b r (omega arith) lb (omega arith)
          (λ x y z. absurd (omega arith)) ch (inr (same b (omega arith) ba)) f in
      absurd (ch' a (omega arith) fits (w a (omega arith) fits))
  head_of_two a b (r ∷ q ∷ rs) lb ba fits ch same ch' (f, (g, w)) =
      let (start, end) =
        first_is scan_base scan_base b r (omega arith) lb (omega arith)
          (λ x y z. absurd (omega arith)) ch (inr (same b (omega arith) ba)) f in
      let (start', end') =
        first_is b a size q (omega arith) fits (omega arith) same ch' (inl refl)
          (subst (λ x. IsFirst buf snap size x q) end g) in
      let two : rs ≡ [] = none_more 2 q.e rs (λ x y z. absurd (omega arith)) w in
      let here : (q.e == size) ≡ true = ground arith in
      let low : ltb r.s (scan_base + 4096) ≡ true = ground arith in
      rw (two, here, low) (ap some end)

  -- The probe finds the write head: if every byte that the writer has passed since the snapshot
  -- differs and no other does, then what it reports is where the writer stands, whether the writer
  -- went from `a` straight on to `b`, or from `a` on round the end of the mapping and up to `b`.
  pub write_head-runs :
      (a b : ℕ)
      → scan_base < b
      → b ≤ size
      → ((scan_base ≤ a)
          × (a < b)
          × Same buf snap size scan_base a
          × Changed buf snap size a b
          × Same buf snap size b size)
        ⊎ ((b < a)
            × (a < size)
            × Changed buf snap size scan_base b
            × Same buf snap size b a
            × Changed buf snap size a size)
      → write_head size (runs buf snap size) ≡ some b
  write_head-runs a b lb bs (inl (la, ab, same, ch, after)) =
      head_of_one a b _ la ab bs same ch after (runs-AreRuns buf snap size (omega arith))
  write_head-runs a b lb bs (inr (ba, fits, ch, same, ch')) =
      head_of_two a b _ lb ba fits ch same ch' (runs-AreRuns buf snap size (omega arith))
