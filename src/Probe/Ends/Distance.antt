-- ===== src/Probe/Ends/Distance.antt =====
-- The distance that src/ring-capture/endprobe.c reports, against the bytes that its reads pass.
use yi_outdoor_1080p_ptz.Prelude.{
  ℕ, ◌+◌, ◌-◌, ◌/◌, ◌^◌, ◌≤◌, ◌<◌, ◌≡◌, refl, ap, ◌*◌, ◌∙◌, inl, inr, Bool-cases, true, false,
  arith, ltb, leb, if◌then◌else◌,
}
use yi_outdoor_1080p_ptz.Memory.{sub32}
use yi_outdoor_1080p_ptz.Probe.Ends.{
  end_base, end_pos, pos, int_of, below_minus, exceeds, plus, ring_delta,
}

forward :
    (size a b n : ℕ) → size < 2 ^ 31 → n ≤ size / 2 → sub32 b a ≡ n → ring_delta size a b ≡ pos n
unfolding ring_delta int_of below_minus exceeds
forward size a b n big near q =
    let small : ltb n (2 ^ 31) ≡ true = ground arith in
    let low : ltb (size / 2) n ≡ false = ground arith in rw (q, small, low) refl

backward :
    (size a b d : ℕ)
    → size < 2 ^ 31
    → d < size
    → size / 2 < d + 1
    → size - 1 - d ≤ size / 2
    → sub32 b a ≡ 2 ^ 32 - 1 - d
    → ring_delta size a b ≡ pos (size - 1 - d)
unfolding ring_delta int_of below_minus exceeds plus
backward size a b d big inside far near q =
    let large : ltb (2 ^ 32 - 1 - d) (2 ^ 31) ≡ false = ground arith in
    let same : 2 ^ 32 - 1 - (2 ^ 32 - 1 - d) ≡ d = omega arith in
    let below : ltb (size / 2) (d + 1) ≡ true = ground arith in
    let lt : ltb d size ≡ true = ground arith in
    let low : ltb (size / 2) (size - 1 - d) ≡ false = ground arith in
    rw (q, large, same, below, lt, low) refl

-- The distance to the place that a read of `n` bytes comes to, in bytes passed, if that is less than
-- half the mapping: right short of the end of the mapping, and 256 more than were passed round the
-- end, since the reads leave out the first 256 bytes of the mapping and the distance counts them.
pub ring_delta-end_pos :
    (size a n : ℕ)
    → size < 2 ^ 31
    → a < size
    → 2 * (n + end_base) < size
    → ring_delta size a (end_pos size a n) ≡ pos (if ltb (a + n) size then n else n + end_base)
unfolding end_pos
ring_delta-end_pos size a n big ha near = elim (Bool-cases (ltb (a + n) size)) [
  | inl t ↦
      let short : leb size (a + n) ≡ false = ground arith in
      rw (t, short) (forward size a (a + n) n big (omega arith) (ground arith))
  | inr f ↦
      let over : leb size (a + n) ≡ true = ground arith in
      let far : size ≤ a + n = ground arith in
      rw (f, over)
        (backward size a (end_base + (a + n - size)) (size - (n + end_base) - 1) big (omega arith)
            (omega arith) (omega arith) (omega arith)
          ∙ ap pos (omega arith))
]
