-- ===== src/Emit/Spans.antt =====
-- Where a NAL ends, and what the gate keeps of it.
use yi_outdoor_1080p_ptz.Prelude.{
  ℕ, zero, suc, ◌+◌, ◌-◌, ◌≤◌, not, ◌&&◌, ltb, ◌==◌, arith, if-both, ◌%◌,
}
use yi_outdoor_1080p_ptz.Memory.{Buf}
use yi_outdoor_1080p_ptz.Sps.Parse.{parse_sps_full}
use yi_outdoor_1080p_ptz.Emit.{Step, Emitter, send_nal, one_nal}
use yi_outdoor_1080p_ptz.Emit.Output.{Rc, Sink}
use yi_outdoor_1080p_ptz.Emit.Scan.{find_start-first, nal_end}
use yi_outdoor_1080p_ptz.Emit.Chain.{
  Gate, Verdict, skip, synth, emit, gate, gate_sps, gate_pps, gate_idr, gate_slice, gate_other,
  trim, pps_readable, can_synth,
}

-- A NAL has its start code at least, and ends in the payload.
pub nal_end_inside :
    (p : Buf) (len s : ℕ) → s + 4 ≤ len → (s + 4 ≤ nal_end p len s) × (nal_end p len s ≤ len)
unfolding nal_end
nal_end_inside p len s h =
    let (lo, _, _) = find_start-first (len - (s + 4)) p len (s + 4) (omega arith) in ground arith

pub trim-le : (q : Buf) (body : ℕ) → trim q body ≤ body
unfolding trim
trim-le q zero = omega arith
trim-le q (suc body) = ground (arith, trim-le q body)

-- What the gate lets through begins at the NAL's start code and ends no later than the NAL.
abbrev pub EndsWithin : ℕ → ℕ → Verdict → Type 0
EndsWithin s e skip = Unit
EndsWithin s e (synth si) = Unit
EndsWithin s e (emit chain end) = (s + 4 ≤ end) × (end ≤ e)

module _ (g : Gate) (p : Buf) (s e : ℕ) (h : s + 4 ≤ e) where
  abbrev Ends : Verdict × Gate → Type 0
  Ends v = EndsWithin s e v.0

  pps-Ends : Ends (gate_pps g p s e)
  unfolding gate_pps
  pps-Ends = if-both Ends (ltb g.stage 1) tt (
      if-both Ends (ltb body 2) tt (
        if-both Ends (not (pps_readable (λ j. p (s + 4 + j)) body)) tt
          (omega arith, omega (arith, trim-le (λ j. p (s + 4 + j)) (e - s - 4)))))
    where
      body : ℕ
      body = trim (λ j. p (s + 4 + j)) (e - s - 4)

  whole : (s + 4 ≤ e) × (e ≤ e)
  whole = omega arith

  sps-Ends : Ends (gate_sps g p s e)
  unfolding gate_sps
  sps-Ends = if-both Ends (can_synth (parse_sps_full (λ j. p (s + 4 + j)) (e - s - 4))) tt whole

  -- What the gate lets through of a NAL lies inside the NAL.
  pub gate-EndsWithin : EndsWithin s e (gate g p s e).0
  unfolding gate gate_idr gate_slice gate_other
  gate-EndsWithin = if-both Ends (p (s + 4) % 32 == 7) sps-Ends (
      if-both Ends (p (s + 4) % 32 == 8) pps-Ends (
        if-both Ends (p (s + 4) % 32 == 5) (if-both Ends (ltb g.stage 2) tt whole) (
          if-both Ends (p (s + 4) % 32 == 1) (if-both Ends (not g.chain_open) tt whole) (
            if-both Ends (p (s + 4) % 32 == 9) tt
              (if-both Ends (not g.chain_open && g.stage == 0) tt whole)))))

-- The offset that a step goes on from lies behind the start code, and no further than the NAL.
pub send_nal-next :
    (v : Verdict × Gate) (k : Sink) (p : Buf) (s e : ℕ) (r : Rc)
    → s + 4 ≤ e
    → EndsWithin s e v.0
    → (s + 4 ≤ (send_nal v k p s e r).next) × ((send_nal v k p s e r).next ≤ e)
unfolding send_nal
send_nal-next (skip, g) k p s e r h w = omega arith
send_nal-next (synth si, g) k p s e r h w = omega arith
send_nal-next (emit chain end, g) k p s e r h w = w

pub one_nal-next :
    (em : Emitter) (p : Buf) (s e : ℕ) (r : Rc)
    → s + 4 ≤ e
    → (s + 4 ≤ (one_nal em p s e r).next) × ((one_nal em p s e r).next ≤ e)
unfolding one_nal
one_nal-next em p s e r h =
    if-both (λ (st : Step). (s + 4 ≤ st.next) × (st.next ≤ e)) (ltb (e - s) 5) (omega arith)
      (send_nal-next (gate em.gate p s e) em.sink p s e r h (gate-EndsWithin em.gate p s e h))
