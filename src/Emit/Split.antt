-- ===== src/Emit/Split.antt =====
-- What `emit_record` of src/fshare2fifo/fshare2fifo.c takes for a NAL, by the bytes of the payload.
use mathlib.Core.Path.{subst}
use yi_outdoor_1080p_ptz.Prelude.{
  ℕ, zero, suc, ◌+◌, ◌-◌, ◌≤◌, ◌<◌, ◌≡◌, inl, inr, refl, true, false, List, [], ◌∷◌, arith, ltb,
  Bool-cases,
}
use yi_outdoor_1080p_ptz.Memory.{Buf}
use yi_outdoor_1080p_ptz.Emit.{Emitter, emit_record}
use yi_outdoor_1080p_ptz.Emit.Output.{done}
use yi_outdoor_1080p_ptz.Emit.Scan.{is_start, find_start, find_start-first, nal_end}
use yi_outdoor_1080p_ptz.Emit.Spans.{nal_end_inside}
use yi_outdoor_1080p_ptz.Emit.Nals.{nals, emit_nals, emit_record_nals, find_start_at, nals_restart}

-- The bytes 00 00 00 01.
abbrev pub IsCode : Buf → ℕ → Type 0
IsCode p k = (p k ≡ 0) × (p (k + 1) ≡ 0) × (p (k + 2) ≡ 0) × (p (k + 3) ≡ 1)

-- Where the first NAL of a list begins; the end of the payload if there is none.
abbrev pub begin_of : ℕ → List (ℕ × ℕ) → ℕ
begin_of len [] = len
begin_of len ((s, e) ∷ ns) = s

-- The NALs from `i` on: each begins with a start code, behind the start code of the one before it,
-- and ends where the next one begins, the last one at the end of the payload; and no start code that
-- fits is left out.
abbrev pub AreNals : Buf → ℕ → ℕ → List (ℕ × ℕ) → Type 0
AreNals p len i [] = (k : ℕ) → i ≤ k → k + 4 ≤ len → IsCode p k → ⊥
AreNals p len i ((s, e) ∷ ns) =
    (i ≤ s)
    × (s + 4 ≤ len)
    × IsCode p s
    × ((k : ℕ) → i ≤ k → k < s → IsCode p k → ⊥)
    × (e ≡ begin_of len ns)
    × AreNals p len (s + 4) ns

is_start-IsCode : (p : Buf) (k : ℕ) → is_start p k ≡ true → IsCode p k
is_start-IsCode p k h = (ground arith, ground arith, ground arith, ground arith)

is_start-ne : (p : Buf) (k : ℕ) → is_start p k ≡ false → IsCode p k → ⊥
is_start-ne p k h (a, b, c, d) = ground arith

nal_end-begin_of :
    (fuel : ℕ) (p : Buf) (len s : ℕ)
    → 1 ≤ fuel
    → nal_end p len s ≡ begin_of len (nals fuel p len (nal_end p len s))
unfolding nal_end nals
nal_end-begin_of zero p len s one = absurd (omega arith)
nal_end-begin_of (suc fuel) p len s one =
    let (from, ends, before) = find_start-first (len - (s + 4)) p len (s + 4) (omega arith) in
    elim (Bool-cases (ltb len (e + 4))) [
      | inl last ↦ let over : ltb len (len + 4) ≡ true = ground arith in rw (last, over) refl
      | inr more ↦ elim ends [
        | inl short ↦ absurd (ground arith)
        | inr here ↦
            let again =
              find_start_at p len e e (omega arith) (ground arith) here
                (λ i a b. absurd (omega arith)) in
            rw (more, again, more) refl
      ]
    ]
  where
    e : ℕ
    e = find_start (len - (s + 4)) p len (s + 4)

nals-AreNals :
    (fuel : ℕ) (p : Buf) (len i : ℕ) → len < fuel + i → AreNals p len i (nals fuel p len i)
unfolding nals
nals-AreNals zero p len i h = λ k a b c. absurd (omega arith)
nals-AreNals (suc fuel) p len i h =
    let (from, ends, before) = find_start-first (len - i) p len i (omega arith) in
    elim (Bool-cases (ltb len (i + 4))) [
      | inl short ↦ rw short (λ k a b c. absurd (ground arith))
      | inr long ↦ elim (Bool-cases (ltb len (s + 4))) [
        | inl none ↦ rw (long, none) (λ k a b c. is_start-ne p k (before k a (ground arith)) c)
        | inr found ↦ elim ends [
          | inl short ↦ absurd (ground arith)
          | inr here ↦
              let fits : s + 4 ≤ len = ground arith in
              let (lo, hi) = nal_end_inside p len s fits in
              let same = nals_restart fuel p len s (s + 4) fits (omega arith) lo in
              let later = nals-AreNals fuel p len (s + 4) (omega arith) in
              rw (long, found)
                (
                  from,
                  fits,
                  is_start-IsCode p s here,
                  (λ k a b c. is_start-ne p k (before k a b) c),
                  nal_end-begin_of fuel p len s (omega arith),
                  subst (AreNals p len (s + 4)) same later,
                )
        ]
      ]
    ]
  where
    s : ℕ
    s = find_start (len - i) p len i

-- Emitting a record is splitting its payload at every start code 00 00 00 01 and routing the NALs one
-- by one, up to one that gives the record up: each NAL begins with a start code and ends where the
-- next one begins, the last one at the end of the payload, and there is no start code behind one
-- NAL's own that does not begin another. A picture parameter set that is cut before its trailing
-- zeros makes no difference to the splitting.
pub emit_record-AreNals :
    (em : Emitter) (p : Buf) (len : ℕ)
    → AreNals p len 0 (nals (len + 1) p len 0)
      × (emit_record em p len ≡ emit_nals em p (nals (len + 1) p len 0) done)
emit_record-AreNals em p len =
    (nals-AreNals (len + 1) p len 0 (omega arith), emit_record_nals em p len)
