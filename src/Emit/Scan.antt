-- ===== src/Emit/Scan.antt =====
-- The start code scans of `emit_record` in src/fshare2fifo/fshare2fifo.c.
use yi_outdoor_1080p_ptz.Prelude.{
  ℕ, zero, suc, ◌+◌, ◌-◌, ◌≤◌, ◌<◌, ◌≡◌, ◌⊎◌, inl, inr, Bool, true, false, ◌&&◌, ◌||◌, ◌==◌, ltb,
  if◌then◌else◌, arith, Bool-cases, ltb→lt,
}
use yi_outdoor_1080p_ptz.Memory.{Buf}

abbrev pub is_start : Buf → ℕ → Bool
is_start p i = p i == 0 && p (i + 1) == 0 && p (i + 2) == 0 && p (i + 3) == 1

-- `while (i + 4 <= len && !start code) i++`; `len - i` rounds are enough.
unfoldable pub find_start : ℕ → Buf → ℕ → ℕ → ℕ
find_start zero p len i = i
find_start (suc rounds) p len i =
    let rest = find_start rounds p len (i + 1) in
    if ltb len (i + 4) || is_start p i then i else rest

-- The next start code behind the one at `s`, or the end of the payload.
unfoldable pub nal_end : Buf → ℕ → ℕ → ℕ
nal_end p len s =
    let e = find_start (len - (s + 4)) p len (s + 4) in if ltb len (e + 4) then len else e

or_false : (b c : Bool) → (b || c) ≡ false → c ≡ false
or_false true c h = cc
or_false false c h = h

-- A scan stops at the first start code, or where none fits.
pub find_start-first :
    (rounds : ℕ) (p : Buf) (len i : ℕ)
    → len ≤ i + rounds
    → (i ≤ find_start rounds p len i)
      × ((len < find_start rounds p len i + 4) ⊎ (is_start p (find_start rounds p len i) ≡ true))
      × ((j : ℕ) → i ≤ j → j < find_start rounds p len i → is_start p j ≡ false)
unfolding find_start
find_start-first zero p len i h = (omega arith, inl (omega arith), λ j a b. absurd (omega arith))
find_start-first (suc rounds) p len i h = elim (Bool-cases (ltb len (i + 4) || is_start p i)) [
  | inl stops ↦ rw stops (omega arith, ends stops, λ j a b. absurd (omega arith))
  | inr goes ↦
      let (lo, end, before) = find_start-first rounds p len (i + 1) (omega arith) in
      rw goes (omega arith, end, λ j a b. later goes before j a b)
]
  where
    ends : (ltb len (i + 4) || is_start p i) ≡ true → (len < i + 4) ⊎ (is_start p i ≡ true)
    ends t = elim (Bool-cases (ltb len (i + 4))) [
      | inl short ↦ inl (ltb→lt len (i + 4) short)
      | inr long ↦ inr (rw long at t)
    ]

    later :
        {last : ℕ}
        → (ltb len (i + 4) || is_start p i) ≡ false
        → ((j : ℕ) → i + 1 ≤ j → j < last → is_start p j ≡ false)
        → (j : ℕ) → i ≤ j
        → j < last
        → is_start p j ≡ false
    later f before j a b = elim (Bool-cases (i == j)) [
      | inl same ↦
          let e : i ≡ j = ground arith in
          let u : is_start p i ≡ false = or_false (ltb len (i + 4)) (is_start p i) f in rw e at u
      | inr other ↦ before j (ground arith) b
    ]
