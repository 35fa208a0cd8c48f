-- ===== src/Emit/Opens.antt =====
-- What opens the chain gate.
use yi_outdoor_1080p_ptz.Prelude.{
  ℕ, zero, suc, ◌+◌, ◌-◌, ◌%◌, ◌≤◌, ◌<◌, ◌≡◌, ◌⊎◌, inl, inr, true, false, not, ◌&&◌, ltb, ◌==◌,
  arith, if-both, if-each,
}
use yi_outdoor_1080p_ptz.Memory.{Buf}
use yi_outdoor_1080p_ptz.Sps.Parse.{parse_sps_full}
use yi_outdoor_1080p_ptz.Emit.{Step, Emitter, count, one_nal, emit_loop, emit_record}
use yi_outdoor_1080p_ptz.Emit.Output.{Rc, done, dropped, hard, waiting, stuck}
use yi_outdoor_1080p_ptz.Emit.Scan.{is_start, find_start, find_start-first, nal_end}
use yi_outdoor_1080p_ptz.Emit.Keeps.{one_nal_keeps}
use yi_outdoor_1080p_ptz.Emit.Spans.{nal_end_inside, one_nal-next}
use yi_outdoor_1080p_ptz.Emit.Chain.{
  Gate, Verdict, gate, gate_sps, gate_pps, gate_idr, gate_slice, gate_other, trim, pps_readable,
  can_synth,
}

module _ (p : Buf) (len : ℕ) where
  -- A start code at `s`, and behind it, in the payload, a NAL of a type.
  pub record NalAt (s kind : ℕ) : Type 0 where
    pub starts : is_start p s ≡ true
    pub inside : s + 4 < len
    pub type_is : p (s + 4) % 32 ≡ kind

  -- The NALs before `i` that a stage stands for.
  abbrev pub Seen : ℕ → ℕ → Type 0
  Seen i zero = Unit
  Seen i (suc zero) = (a : ℕ) × NalAt a 7 × (a < i)
  Seen i (suc (suc st)) = (a : ℕ) × (b : ℕ) × NalAt a 7 × NalAt b 8 × (a < b) × (b < i)

  -- A sequence parameter set, a picture parameter set and an IDR slice, in this order.
  abbrev pub Chain : Type 0
  Chain = (a : ℕ) × (b : ℕ) × (c : ℕ) × NalAt a 7 × NalAt b 8 × NalAt c 5 × (a < b) × (b < c)

  -- The gate is closed, with the NALs of its stage seen, or the payload holds a chain.
  abbrev Inv : ℕ → Gate → Type 0
  Inv i g = ((g.chain_open ≡ false) × Seen i g.stage) ⊎ Chain

  Seen-later : (i j st : ℕ) → i ≤ j → Seen i st → Seen j st
  Seen-later i j zero h s = tt
  Seen-later i j (suc zero) h (a, n, lt) = (a, n, omega arith)
  Seen-later i j (suc (suc st)) h (a, b, n, m, lt, lt') = (a, b, n, m, lt, omega arith)

  Inv-later : (i j : ℕ) (g : Gate) → i ≤ j → Inv i g → Inv j g
  Inv-later i j g h (inl (c, s)) = inl (c, Seen-later i j g.stage h s)
  Inv-later i j g h (inr ch) = inr ch

  module _ (i s e : ℕ) (g : Gate) (h : i ≤ s) where
    abbrev After : Verdict × Gate → Type 0
    After v = Inv (s + 4) v.1

    kept : Inv i g → Inv (s + 4) g
    kept w = Inv-later i (s + 4) g (omega arith) w

    sps_seen : Inv i g → NalAt s 7 → After (gate_sps g p s e)
    unfolding gate_sps
    sps_seen (inr ch) n =
        if-both After (can_synth (parse_sps_full (λ j. p (s + 4 + j)) (e - s - 4))) (inr ch)
          (inr ch)
    sps_seen (inl (c, w)) n =
        if-both After (can_synth (parse_sps_full (λ j. p (s + 4 + j)) (e - s - 4)))
          (inl (c, (s, n, omega arith))) (inl (c, (s, n, omega arith)))

    pps_next : (st : ℕ) → 1 ≤ st → Seen i st → NalAt s 8 → Seen (s + 4) 2
    pps_next zero one w n = absurd (omega arith)
    pps_next (suc zero) one (a, m, lt) n = (a, s, m, n, omega arith, omega arith)
    pps_next (suc (suc st)) one (a, b, m, k, lt, lt') n = (a, s, m, n, omega arith, omega arith)

    pps_seen : Inv i g → NalAt s 8 → After (gate_pps g p s e)
    unfolding gate_pps
    pps_seen w n =
        if-each After (ltb g.stage 1) (λ t. kept w)
          λ staged.
            if-both After (ltb body 2) (kept w) (
              if-both After (not (pps_readable (λ j. p (s + 4 + j)) body)) (kept w) (next w staged))
      where
        body : ℕ
        body = trim (λ j. p (s + 4 + j)) (e - s - 4)

        next : Inv i g → ltb g.stage 1 ≡ false → Inv (s + 4) (record g { stage = 2 })
        next (inl (c, v)) staged = inl (c, pps_next g.stage (ground arith) v n)
        next (inr ch) staged = inr ch

    idr_chain : (st : ℕ) → 2 ≤ st → Seen i st → NalAt s 5 → Chain
    idr_chain zero two w n = absurd (omega arith)
    idr_chain (suc zero) two w n = absurd (omega arith)
    idr_chain (suc (suc st)) two (a, b, m, k, lt, lt') n = (a, b, s, m, k, n, lt, omega arith)

    idr_seen : Inv i g → NalAt s 5 → After (gate_idr g e)
    unfolding gate_idr
    idr_seen (inr ch) n = if-both After (ltb g.stage 2) (inr ch) (inr ch)
    idr_seen (inl (c, w)) n =
        if-each After (ltb g.stage 2) (λ t. kept (inl (c, w)))
          (λ staged. inr (idr_chain g.stage (ground arith) w n))

    gate-Inv : Inv i g → is_start p s ≡ true → s + 4 < len → After (gate g p s e)
    unfolding gate gate_slice gate_other
    gate-Inv w st lt =
        if-each After (p (s + 4) % 32 == 7) (λ t. sps_seen w (at 7 t))
          λ _.
            if-each After (p (s + 4) % 32 == 8) (λ t. pps_seen w (at 8 t))
              λ _.
                if-each After (p (s + 4) % 32 == 5) (λ t. idr_seen w (at 5 t))
                  λ _.
                    if-both After (p (s + 4) % 32 == 1)
                      (if-both After (not g.chain_open) (kept w) (kept w))
                      (if-both After (p (s + 4) % 32 == 9) (kept w)
                        (if-both After (not g.chain_open && g.stage == 0) (kept w) (kept w)))
      where
        at : (kind : ℕ) → (p (s + 4) % 32 == kind) ≡ true → NalAt s kind
        at kind t = record { starts = st; inside = lt; type_is = ground arith }

  -- The counters do not matter.
  count-Inv : (i : ℕ) (r : Rc) (n : ℕ) (g : Gate) → Inv i g → Inv i (count r n g)
  unfolding count
  count-Inv i done n g w = w
  count-Inv i dropped n g w = w
  count-Inv i hard n g w = w
  count-Inv i waiting n g w = w
  count-Inv i stuck n g w = w

  -- A round keeps the invariant.
  one_nal-Inv :
      (em : Emitter) (i s : ℕ) (r : Rc)
      → i ≤ s
      → s + 4 ≤ len
      → is_start p s ≡ true
      → Inv i em.gate
      → Inv
          (one_nal em p s (nal_end p len s) r).next
          (one_nal em p s (nal_end p len s) r).after.gate
  one_nal-Inv em i s r h fits st w =
      Inv-later (s + 4) step.next step.after.gate (one_nal-next em p s e r inside.0).0 (
        one_nal_keeps (Inv (s + 4)) (count-Inv (s + 4)) em p s e r
          (Inv-later i (s + 4) em.gate (omega arith) w)
          (λ full. gate-Inv i s e em.gate h w st (ground (arith, inside))))
    where
      e : ℕ
      e = nal_end p len s

      inside : (s + 4 ≤ e) × (e ≤ len)
      inside = nal_end_inside p len s fits

      step : Step
      step = one_nal em p s e r

  Opened : Emitter → Type 0
  Opened em = em.gate.chain_open ≡ true → Chain

  Inv-Opened : (i : ℕ) (em : Emitter) → Inv i em.gate → Opened em
  unfolding Opened
  Inv-Opened i em (inl (c, s)) o = cc
  Inv-Opened i em (inr ch) o = ch

  emit_loop-Opened :
      (fuel : ℕ) (em : Emitter) (i : ℕ) (r : Rc)
      → Inv i em.gate
      → Opened (emit_loop fuel em p len i r).1
  unfolding emit_loop
  emit_loop-Opened zero em i r w = Inv-Opened i em w
  emit_loop-Opened (suc fuel) em i r w = if-both Fine (ltb len (i + 4)) (Inv-Opened i em w) (
      if-each Fine (ltb len (s + 4)) (λ t. Inv-Opened i em w)
        λ found.
          if-both Fine st.give_up (Inv-Opened st.next st.after (next (ground arith)))
            (emit_loop-Opened fuel st.after st.next st.rc (next (ground arith))))
    where
      Fine : Rc × Emitter → Type 0
      Fine x = Opened x.1

      s : ℕ
      s = find_start (len - i) p len i

      st : Step
      st = one_nal em p s (nal_end p len s) r

      next : s + 4 ≤ len → Inv st.next st.after.gate
      next fits =
          let (from, ended, _) = find_start-first (len - i) p len i (omega arith) in
          elim ended [
            | inl short ↦ absurd (omega arith)
            | inr starts ↦ one_nal-Inv em i s r from fits starts w
          ]

  -- If the emission of a record begins with the gate closed and no parameter set accepted, and ends
  -- with the gate open, then the payload holds, in this order, a sequence parameter set, a picture
  -- parameter set and an IDR slice, each behind a start code.
  pub emit_record_opens :
      (em : Emitter)
      → em.gate.chain_open ≡ false
      → em.gate.stage ≡ 0
      → (emit_record em p len).1.gate.chain_open ≡ true
      → Chain
  unfolding emit_record Opened
  emit_record_opens em closed zero_stage o =
      emit_loop-Opened (len + 1) em 0 done (inl (closed, rw zero_stage tt)) o
