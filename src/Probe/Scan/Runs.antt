-- ===== src/Probe/Scan/Runs.antt =====
-- The runs that src/ring-capture/scanprobe.c collects are the changed stretches of the ring.
use yi_outdoor_1080p_ptz.Prelude.{
  ℕ, zero, suc, ◌+◌, ◌-◌, ◌≤◌, ◌<◌, ◌≡◌, ◌≢◌, ◌⊎◌, inl, inr, true, false, List, [], ◌∷◌, Option,
  none, some, arith, ltb, ◌==◌, Bool-cases,
}
use mathlib.Core.Path.{subst}
use yi_outdoor_1080p_ptz.Memory.{Buf}
use yi_outdoor_1080p_ptz.Probe.Scan.{scan_base, Run, changed_runs, runs}

module _ (buf snap : Buf) (size : ℕ) where
  -- From `lo` up to `hi` no byte has changed; every byte has.
  abbrev pub Same : ℕ → ℕ → Type 0
  Same lo hi = (a : ℕ) → lo ≤ a → a < hi → buf a ≡ snap a

  abbrev pub Changed : ℕ → ℕ → Type 0
  Changed lo hi = (a : ℕ) → lo ≤ a → a < hi → buf a ≢ snap a

  -- The run is a changed stretch, the first from `lo` on, and it is as long as can be.
  pub record IsFirst (lo : ℕ) (r : Run) : Type 0 where
    pub from : lo ≤ r.s
    pub nonempty : r.s < r.e
    pub inside : r.e ≤ size
    pub same_before : Same lo r.s
    pub changed_in : Changed r.s r.e
    pub ends : (r.e ≡ size) ⊎ (buf r.e ≡ snap r.e)

  -- The runs are the changed stretches from `lo` on, one after the other: the first `room` of them,
  -- or all if there are no more.
  abbrev pub AreRuns : ℕ → ℕ → List Run → Type 0
  AreRuns zero lo [] = Unit
  AreRuns zero lo (r ∷ rs) = ⊥
  AreRuns (suc room) lo [] = Same lo size
  AreRuns (suc room) lo (r ∷ rs) = IsFirst lo r × AreRuns room r.e rs

  -- What the loop has seen behind it.
  abbrev Seen : ℕ → ℕ → Option ℕ → Type 0
  Seen lo p none = (lo ≤ p) × Same lo p
  Seen lo p (some s) = (lo ≤ s) × (s < p) × Same lo s × Changed s p

  extend :
      (P : ℕ → Type 0) (lo p : ℕ)
      → ((a : ℕ) → lo ≤ a → a < p → P a)
      → P p
      → (a : ℕ) → lo ≤ a
      → a < p + 1
      → P a
  extend P lo p before here a x y = elim (Bool-cases (a == p)) [
    | inl e ↦ let q : p ≡ a = ground arith in subst P q here
    | inr e ↦ before a x (ground arith)
  ]

  none_left : (room p : ℕ) → p ≡ size → AreRuns room p []
  none_left zero p q = tt
  none_left (suc room) p q = λ a x y. absurd (omega arith)

  equal : (p : ℕ) → (buf p == snap p) ≡ true → buf p ≡ snap p
  equal p t = ground arith

  unequal : (p : ℕ) → (buf p == snap p) ≡ false → buf p ≢ snap p
  unequal p t e = ground arith

  -- The open run ends at `p`.
  closes :
      (lo s p : ℕ)
      → Seen lo p (some s)
      → p ≤ size
      → (p ≡ size) ⊎ (buf p ≡ snap p)
      → IsFirst lo (record { s = s; e = p })
  closes lo s p (le, lt, same, ch) bound end = record {
    from = le;
    nonempty = lt;
    inside = bound;
    same_before = same;
    changed_in = ch;
    ends = end;
  }

  changed_runs-AreRuns :
      (left room lo p : ℕ) (o : Option ℕ)
      → left + p ≡ size
      → Seen lo p o
      → AreRuns (suc room) lo (changed_runs left buf snap p (suc room) o)
  unfolding changed_runs
  changed_runs-AreRuns zero room lo p none q (le, same) = λ a x y. same a x (omega arith)
  changed_runs-AreRuns zero room lo p (some s) q w =
      let some_room : ltb 0 (suc room) ≡ true = ground arith in
      rw some_room
        (closes lo s p w (omega arith) (inl (omega arith)), none_left room p (omega arith))
  changed_runs-AreRuns (suc left) room lo p none q (le, same) =
      elim (Bool-cases (buf p == snap p)) [
        | inl t ↦ rw t (
            changed_runs-AreRuns left room lo (p + 1) none (omega arith)
              (omega arith, extend (λ a. buf a ≡ snap a) lo p same (equal p t)))
        | inr f ↦ rw f (
            changed_runs-AreRuns left room lo (p + 1) (some p) (omega arith) (
              le,
              omega arith,
              same,
              extend (λ a. buf a ≢ snap a) p p (λ a x y. absurd (omega arith)) (unequal p f),
            ))
      ]
  changed_runs-AreRuns (suc left) zero lo p (some s) q (le, lt, same, ch) =
      elim (Bool-cases (buf p == snap p)) [
        | inl t ↦ rw t (closes lo s p (le, lt, same, ch) (omega arith) (inr (equal p t)), tt)
        | inr f ↦ rw f (
            changed_runs-AreRuns left zero lo (p + 1) (some s) (omega arith)
              (le, omega arith, same, extend (λ a. buf a ≢ snap a) s p ch (unequal p f)))
      ]
  changed_runs-AreRuns (suc left) (suc room) lo p (some s) q (le, lt, same, ch) =
      elim (Bool-cases (buf p == snap p)) [
        | inl t ↦
            let more : (suc (suc room) - 1 == 0) ≡ false = ground arith in
            let one : suc (suc room) - 1 ≡ suc room = omega arith in
            rw (t, more, one)
              (
                closes lo s p (le, lt, same, ch) (omega arith) (inr (equal p t)),
                changed_runs-AreRuns left room p (p + 1) none (omega arith) (
                  omega arith,
                  extend (λ a. buf a ≡ snap a) p p (λ a x y. absurd (omega arith)) (equal p t),
                ),
              )
        | inr f ↦ rw f (
            changed_runs-AreRuns left (suc room) lo (p + 1) (some s) (omega arith)
              (le, omega arith, same, extend (λ a. buf a ≢ snap a) s p ch (unequal p f)))
      ]

  -- The runs that are collected are the changed stretches of the ring: each is a stretch of bytes
  -- that differ from the snapshot and is as long as can be, the bytes before the first and between
  -- two of them are the same, and there are no others unless four have been found. The mapping is
  -- at least as long as its header.
  pub runs-AreRuns : scan_base ≤ size → AreRuns 4 scan_base (runs buf snap size)
  unfolding runs
  runs-AreRuns h =
      changed_runs-AreRuns (size - scan_base) 3 scan_base scan_base none (omega arith)
        (omega arith, λ a x y. absurd (omega arith))
