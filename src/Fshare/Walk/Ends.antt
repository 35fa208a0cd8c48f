-- ===== src/Fshare/Walk/Ends.antt =====
-- The fuel of the walk of src/fshare2fifo/fshare2fifo.c.
use yi_outdoor_1080p_ptz.Prelude.{
  ℕ, zero, suc, ◌+◌, ◌*◌, ◌^◌, ◌≤◌, ◌<◌, ◌≡◌, ◌≢◌, false, inl, inr, arith, Bool-cases,
}
use yi_outdoor_1080p_ptz.Memory.{Buf, IsBytes, sub32}
use yi_outdoor_1080p_ptz.Fshare.Record.{RecHdr, rec_at, next_off, next_left}
use yi_outdoor_1080p_ptz.Fshare.Record.Bounds.{rec_at-seq_lt}
use yi_outdoor_1080p_ptz.Fshare.Walk.{Walk, exhausted, walk, far_ahead, walk_fuel}
use yi_outdoor_1080p_ptz.Fshare.Walk.Delivery.{ends_at, ends_at_zero, next_left-lt, walk_end}

-- The cursor that a jump leaves is not far behind the record.
far_ahead_behind : (h : RecHdr) → h.seq < 2 ^ 32 → far_ahead (sub32 h.seq 1) h ≡ false
unfolding far_ahead
far_ahead_behind h lt = ground arith

module _ (m : Buf) (newest off left : ℕ) (goes_on : ends_at m newest off left ≡ false) where
  abbrev here : RecHdr
  here = rec_at m off

  abbrev walk_behind : ℕ → ℕ → ℕ → Walk
  walk_behind fuel filter cursor =
      walk fuel m filter newest cursor (next_off off here) (next_left left here)

  unjumped-ne-exhausted :
      (fuel filter cursor : ℕ)
      → far_ahead cursor here ≡ false
      → walk_behind fuel filter cursor ≢ exhausted
      → walk (suc fuel) m filter newest cursor off left ≢ exhausted
  unfolding walk
  unjumped-ne-exhausted fuel filter cursor near ih = rw (goes_on, near) (ground (arith, ih))

  step-ne-exhausted :
      (fuel filter cursor : ℕ)
      → (walk fuel m filter newest (sub32 here.seq 1) off left ≢ exhausted)
      → walk_behind fuel filter cursor ≢ exhausted
      → walk (suc fuel) m filter newest cursor off left ≢ exhausted
  unfolding walk
  step-ne-exhausted fuel filter cursor jump next = rw goes_on (ground (arith, jump, next))

walk_fuel-ne-exhausted :
    (k fuel : ℕ) (m : Buf) (filter newest cursor off left : ℕ)
    → IsBytes m
    → left < 2 ^ 32
    → left ≤ k
    → 2 * k + 2 ≤ fuel
    → walk fuel m filter newest cursor off left ≢ exhausted
walk_fuel-ne-exhausted k zero m filter newest cursor off left b hl hk hf = absurd (omega arith)
walk_fuel-ne-exhausted k (suc zero) m filter newest cursor off left b hl hk hf =
    absurd (omega arith)
walk_fuel-ne-exhausted zero (suc (suc f)) m filter newest cursor off left b hl hk hf =
    rw
      (walk_end (suc f) m filter newest cursor off left
        (ends_at_zero m newest off left (omega arith)))
      (λ e. cc)
walk_fuel-ne-exhausted (suc k) (suc (suc f)) m filter newest cursor off left b hl hk hf =
    elim (Bool-cases (ends_at m newest off left)) [
      | inl e ↦ rw (walk_end (suc f) m filter newest cursor off left e) (λ p. cc)
      | inr e ↦
          let less : next_left left (rec_at m off) + 26 ≤ left =
            next_left-lt m newest off left b hl e in
          step-ne-exhausted m newest off left e (suc f) filter cursor
            (unjumped-ne-exhausted m newest off left e f filter (sub32 (rec_at m off).seq 1)
              (far_ahead_behind (rec_at m off) (rec_at-seq_lt m off b))
              (walk_fuel-ne-exhausted k f m filter newest (sub32 (rec_at m off).seq 1)
                (next_off off (rec_at m off)) (next_left left (rec_at m off)) b (omega arith)
                (omega arith) (omega arith)))
            (walk_fuel-ne-exhausted k (suc f) m filter newest cursor (next_off off (rec_at m off))
              (next_left left (rec_at m off)) b (omega arith) (omega arith) (omega arith))
    ]

-- The walk of a poll ends by itself, within its fuel, on every image of the memory.
pub walk-ne-exhausted :
    (m : Buf) (filter newest cursor off left : ℕ)
    → IsBytes m
    → left < 2 ^ 32
    → walk (walk_fuel left) m filter newest cursor off left ≢ exhausted
walk-ne-exhausted m filter newest cursor off left b hl =
    walk_fuel-ne-exhausted left _ m filter newest cursor off left b hl (omega arith) (omega arith)
