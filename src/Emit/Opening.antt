-- ===== src/Emit/Opening.antt =====
-- Over the NALs of a record, the chain gate of src/fshare2fifo/fshare2fifo.c opens.
use yi_outdoor_1080p_ptz.Prelude.{
  ℕ, ◌+◌, ◌-◌, ◌≡◌, ◌⊎◌, inl, inr, refl, Bool, true, false, List, [], ◌∷◌, arith, ltb, if-both,
  if-each,
}
use yi_outdoor_1080p_ptz.Memory.{Buf}
use yi_outdoor_1080p_ptz.Emit.{Step, Emitter, send_nal, one_nal, emit_record}
use yi_outdoor_1080p_ptz.Emit.Output.{Rc, done, dropped, hard, waiting, stuck, Sink}
use yi_outdoor_1080p_ptz.Emit.Nals.{nals, emit_nals, emit_record_nals}
use yi_outdoor_1080p_ptz.Emit.Chain.{Gate, Verdict, skip, synth, emit, gate}
use yi_outdoor_1080p_ptz.Emit.Heeds.{
  IsOpen, At, IdrComes, PpsComes, ChainComes, one_nal-At, sps_taken, pps_taken, idr_taken,
  open_kept,
}

-- Open, unless the record was given up.
abbrev pub OpenOrFailed : Rc × Emitter → Type 0
OpenOrFailed x = (x.1.gate.chain_open ≡ true) ⊎ (x.0 ≡ hard) ⊎ (x.0 ≡ waiting)

abbrev Failed : Rc → Type 0
Failed r = (r ≡ hard) ⊎ (r ≡ waiting)

synth_fails : (r : Rc) → elim r as (λ _. Bool) [ waiting ↦ true | _ ↦ false ] ≡ true → Failed r
synth_fails done q = cc
synth_fails dropped q = cc
synth_fails hard q = cc
synth_fails waiting q = inr refl
synth_fails stuck q = cc

emit_fails :
    (r : Rc) → elim r as (λ _. Bool) [ hard ↦ true | waiting ↦ true | _ ↦ false ] ≡ true → Failed r
emit_fails done q = cc
emit_fails dropped q = cc
emit_fails hard q = inl refl
emit_fails waiting q = inr refl
emit_fails stuck q = cc

send_nal_fails :
    (v : Verdict × Gate) (k : Sink) (p : Buf) (s e : ℕ) (r : Rc)
    → (send_nal v k p s e r).give_up ≡ true
    → Failed (send_nal v k p s e r).rc
unfolding send_nal
send_nal_fails (skip, g) k p s e r q = cc
send_nal_fails (synth si, g) k p s e r q = synth_fails _ q
send_nal_fails (emit chain end, g) k p s e r q = emit_fails _ q

one_nal_fails :
    (em : Emitter) (p : Buf) (s e : ℕ) (r : Rc)
    → (one_nal em p s e r).give_up ≡ true
    → Failed (one_nal em p s e r).rc
unfolding one_nal
one_nal_fails em p s e r =
    if-both (λ (x : Step). x.give_up ≡ true → Failed x.rc) (ltb (e - s) 5) (λ q. cc)
      (send_nal_fails (gate em.gate p s e) em.sink p s e r)

module _ (p : Buf) (s e : ℕ) (rest : List (ℕ × ℕ)) (em : Emitter) (r : Rc) where
  on_with :
      OpenOrFailed (emit_nals (one_nal em p s e r).after p rest (one_nal em p s e r).rc)
      → OpenOrFailed (emit_nals em p ((s, e) ∷ rest) r)
  unfolding emit_nals
  on_with later =
      if-each OpenOrFailed (one_nal em p s e r).give_up (λ q. inr (one_nal_fails em p s e r q))
        (λ _. later)

run_open :
    (ns : List (ℕ × ℕ)) (em : Emitter) (p : Buf) (r : Rc)
    → IsOpen em.gate
    → OpenOrFailed (emit_nals em p ns r)
unfolding emit_nals
run_open [] em p r o = inl o
run_open ((s, e) ∷ rest) em p r o =
    on_with p s e rest em r (run_open rest _ p _ (open_kept em p s e r o))

run_idr :
    (ns : List (ℕ × ℕ)) (em : Emitter) (p : Buf) (r : Rc)
    → IdrComes p ns
    → At 2 em.gate
    → OpenOrFailed (emit_nals em p ns r)
run_idr [] em p r c at = elim c [ ]
run_idr ((s, e) ∷ rest) em p r (inl i) at =
    on_with p s e rest em r (run_open rest _ p _ (idr_taken em p s e r i at))
run_idr ((s, e) ∷ rest) em p r (inr (other, c)) at =
    on_with p s e rest em r
      (run_idr rest _ p _ c (one_nal-At em p s e r 2 (omega arith) (λ _. other) at))

run_pps :
    (ns : List (ℕ × ℕ)) (em : Emitter) (p : Buf) (r : Rc)
    → PpsComes p ns
    → At 1 em.gate
    → OpenOrFailed (emit_nals em p ns r)
run_pps [] em p r c at = elim c [ ]
run_pps ((s, e) ∷ rest) em p r (inl (i, c)) at =
    on_with p s e rest em r (run_idr rest _ p _ c (pps_taken em p s e r i at))
run_pps ((s, e) ∷ rest) em p r (inr c) at =
    on_with p s e rest em r
      (run_pps rest _ p _ c (one_nal-At em p s e r 1 (omega arith) (λ q. absurd (omega arith)) at))

run_chain :
    (ns : List (ℕ × ℕ)) (em : Emitter) (p : Buf) (r : Rc)
    → ChainComes p ns
    → OpenOrFailed (emit_nals em p ns r)
run_chain [] em p r c = elim c [ ]
run_chain ((s, e) ∷ rest) em p r (inl (i, c)) =
    on_with p s e rest em r (run_pps rest _ p _ c (sps_taken em p s e r i))
run_chain ((s, e) ∷ rest) em p r (inr c) = on_with p s e rest em r (run_chain rest _ p _ c)

-- The gate does open: if a payload holds a sequence parameter set, behind it a picture parameter set
-- that can be read, and behind that an IDR slice with no sequence parameter set between the two
-- last, the gate is open when the record has been emitted, unless the record was given up on a hard
-- error or in a write that has not returned. What the gate was before does not matter, nor what
-- else the payload holds.
pub emit_record-OpenOrFailed :
    (em : Emitter) (p : Buf) (len : ℕ)
    → ChainComes p (nals (len + 1) p len 0)
    → OpenOrFailed (emit_record em p len)
emit_record-OpenOrFailed em p len c =
    rw (emit_record_nals em p len) (run_chain (nals (len + 1) p len 0) em p done c)
