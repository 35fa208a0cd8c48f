-- ===== src/Capture/Overrun.antt =====
-- The head of src/ring-capture/ring-capture.c behind the end of the buffer.
use yi_outdoor_1080p_ptz.Prelude.{
  ℕ, zero, suc, ◌+◌, ◌*◌, ◌^◌, ◌≤◌, ◌<◌, ◌≡◌, ◌⊎◌, inl, inr, arith, false, List, [], ◌∷◌, none,
  some, ltb, leb, ◌==◌, Bool-cases, min,
}
use yi_outdoor_1080p_ptz.Memory.{Buf, u32, sub32}
use yi_outdoor_1080p_ptz.Capture.{diff_scan, append_loop, append_fuel, conclude_tick, tick}

-- One of the writes takes bytes from behind the end of the buffer.
abbrev pub Overruns : ℕ → List (ℕ × ℕ) → Type 0
Overruns size [] = ⊥
Overruns size ((p, n) ∷ rest) = (size < p + n) ⊎ Overruns size rest

append_loop-Overruns :
    (fuel p end size : ℕ)
    → end < p
    → p ≤ size
    → size + 65536 ≤ 2 ^ 32
    → size < p + 65536 * fuel
    → Overruns size (append_loop fuel p end).0
unfolding append_loop
append_loop-Overruns zero p end size b h r e = absurd (omega arith)
append_loop-Overruns (suc fuel) p end size b h r e =
    rw (apart, full)
      (elim (Bool-cases (ltb size (p + 65536))) [
        | inl past ↦ inl (ground arith)
        | inr inside ↦ inr (
            rw (goes_on (ground arith)) (
              append_loop-Overruns fuel (p + 65536) end size (omega arith) (ground arith) r
                (omega arith)))
      ])
  where
    apart : (p == end) ≡ false
    apart = ground arith

    full : min (sub32 end p) 65536 ≡ 65536
    full = omega arith

    goes_on : p + 65536 ≤ size → u32 (p + 65536) ≡ p + 65536
    goes_on u = omega arith

-- When the last change that a turn finds lies before the old head, as it does when the writer has
-- gone round the end of the ring, the loop does not go round with it: one of its writes takes bytes
-- from behind the end of the buffer. The buffer is smaller than 2 ^ 32 - 65536 bytes and the old
-- head is inside it.
pub tick-Overruns :
    (win size : ℕ) (m : Buf) (base : ℕ) (shadow : Buf) (last : ℕ)
    → (diff_scan win size m shadow base win 0 none).run ≡ some last
    → last + 1 < base
    → base ≤ size
    → size + 65536 ≤ 2 ^ 32
    → Overruns size (tick win size m base shadow).writes
unfolding tick conclude_tick
tick-Overruns win size m base shadow last found before inside small =
    rw (found, short)
      (append_loop-Overruns append_fuel base (last + 1) size before inside small (omega arith))
  where
    short : leb size (last + 1) ≡ false
    short = ground arith
