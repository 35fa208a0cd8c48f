-- ===== src/Emit/History.antt =====
-- The chain gate of src/fshare2fifo/fshare2fifo.c over the records of a whole run: what has been
-- heard when it stands open.
use yi_outdoor_1080p_ptz.Prelude.{
  ℕ, zero, suc, ◌+◌, ◌-◌, ◌%◌, ◌≤◌, ◌≡◌, ◌⊎◌, inl, inr, refl, Bool, true, false, not, ◌&&◌, List,
  [], ◌∷◌, arith, ltb, ◌==◌, if◌then◌else◌, if-both, if-each, Bool-cases, not_both,
}
use yi_outdoor_1080p_ptz.Memory.{Buf}
use yi_outdoor_1080p_ptz.Sps.Parse.{parse_sps_full}
use yi_outdoor_1080p_ptz.Emit.{Step, Emitter, count, one_nal, emit_delivered}
use yi_outdoor_1080p_ptz.Emit.Output.{Rc, done, dropped, hard, waiting, stuck, put}
use yi_outdoor_1080p_ptz.Emit.Keeps.{one_nal_keeps}
use yi_outdoor_1080p_ptz.Emit.Nals.{nals, emit_nals, emit_record_nals}
use yi_outdoor_1080p_ptz.Emit.Chain.{
  Gate, Verdict, gate, gate_sps, gate_pps, gate_idr, gate_slice, gate_other, trim, pps_readable,
  can_synth,
}

-- The types of the NALs heard, the newest first: `h` before, then those of a payload. An empty NAL
-- has no type.
unfoldable pub hear : Buf → List (ℕ × ℕ) → List ℕ → List ℕ
hear p [] h = h
hear p ((s, e) ∷ rest) h = hear p rest (if ltb (e - s) 5 then h else (p (s + 4) % 32) ∷ h)

-- The types `ks` were heard in this order, the newest first, with others between them.
abbrev pub Heard : List ℕ → List ℕ → Type 0
Heard [] h = Unit
Heard (k ∷ ks) [] = ⊥
Heard (k ∷ ks) (x ∷ h) = ((k ≡ x) × Heard ks h) ⊎ Heard (k ∷ ks) h

-- What a stage stands for.
abbrev pub staged : ℕ → List ℕ
staged zero = []
staged (suc zero) = 7 ∷ []
staged (suc (suc st)) = 8 ∷ 7 ∷ []

-- A sequence parameter set, a picture parameter set behind it and an IDR slice behind that.
abbrev pub chain : List ℕ
chain = 5 ∷ 8 ∷ 7 ∷ []

-- The gate knows no more than what was heard.
pub record IsHonest (h : List ℕ) (g : Gate) : Type 0 where
  pub stage_heard : Heard (staged g.stage) h
  pub open_heard : g.chain_open ≡ true → Heard chain h

Heard-cons : (ks h : List ℕ) (x : ℕ) → Heard ks h → Heard ks (x ∷ h)
Heard-cons [] h x w = tt
Heard-cons (k ∷ ks) h x w = inr w

-- What was heard before the newest matters less.
Heard-tail : (k : ℕ) (ks h : List ℕ) → Heard (k ∷ ks) h → Heard ks h
Heard-tail k ks [] w = elim w [ ]
Heard-tail k ks (x ∷ h) (inl (e, w)) = Heard-cons ks h x w
Heard-tail k ks (x ∷ h) (inr w) = Heard-cons ks h x (Heard-tail k ks h w)

IsHonest-cons : (h : List ℕ) (g : Gate) (x : ℕ) → IsHonest h g → IsHonest (x ∷ h) g
IsHonest-cons h g x w = record {
  stage_heard = Heard-cons (staged g.stage) h x w.stage_heard;
  open_heard = λ o. Heard-cons chain h x (w.open_heard o);
}

IsHonest-hear :
    (p : Buf) (ns : List (ℕ × ℕ)) (h : List ℕ) (g : Gate) → IsHonest h g → IsHonest (hear p ns h) g
unfolding hear
IsHonest-hear p [] h g w = w
IsHonest-hear p ((s, e) ∷ rest) h g w =
    IsHonest-hear p rest _ g
      (if-both (λ (x : List ℕ). IsHonest x g) (ltb (e - s) 5) w (IsHonest-cons h g _ w))

-- From stage 1 on a sequence parameter set was heard, from stage 2 on a picture parameter set
-- behind it.
stage_one : (h : List ℕ) (st : ℕ) → 1 ≤ st → Heard (staged st) h → Heard (7 ∷ []) h
stage_one h zero one w = absurd (omega arith)
stage_one h (suc zero) one w = w
stage_one h (suc (suc st)) one w = Heard-tail 8 (7 ∷ []) h w

stage_two : (h : List ℕ) (st : ℕ) → 2 ≤ st → Heard (staged st) h → Heard (8 ∷ 7 ∷ []) h
stage_two h zero two w = absurd (omega arith)
stage_two h (suc zero) two w = absurd (omega arith)
stage_two h (suc (suc st)) two w = w

module _ (h : List ℕ) (g : Gate) (p : Buf) (s e : ℕ) (w : IsHonest h g) where
  -- The verdict on a NAL whose type is `k`.
  abbrev After : ℕ → Verdict × Gate → Type 0
  After k v = IsHonest (k ∷ h) v.1

  kept : (k : ℕ) → IsHonest (k ∷ h) g
  kept k = IsHonest-cons h g k w

  sps_heard : After 7 (gate_sps g p s e)
  unfolding gate_sps
  sps_heard =
      if-both (After 7) (can_synth (parse_sps_full (λ j. p (s + 4 + j)) (e - s - 4)))
        (record { stage_heard = inl (refl, tt); open_heard = (kept 7).open_heard })
        (record { stage_heard = inl (refl, tt); open_heard = (kept 7).open_heard })

  pps_heard : After 8 (gate_pps g p s e)
  unfolding gate_pps
  pps_heard =
      if-each (After 8) (ltb g.stage 1) (λ t. kept 8)
        λ staged. if-both (After 8) (ltb body 2) (kept 8) (
          if-both (After 8) (not (pps_readable (λ j. p (s + 4 + j)) body)) (kept 8) (record {
            stage_heard = inl (refl, stage_one h g.stage (ground arith) w.stage_heard);
            open_heard = (kept 8).open_heard;
          }))
    where
      body : ℕ
      body = trim (λ j. p (s + 4 + j)) (e - s - 4)

  idr_heard : After 5 (gate_idr g e)
  unfolding gate_idr
  idr_heard =
      if-each (After 5) (ltb g.stage 2) (λ t. kept 5)
        λ full. record {
          stage_heard = tt;
          open_heard = λ o. inl (refl, stage_two h g.stage (ground arith) w.stage_heard);
        }

  -- A NAL of any type leaves the gate honest.
  pub gate-IsHonest : IsHonest ((p (s + 4) % 32) ∷ h) (gate g p s e).1
  unfolding gate gate_slice gate_other
  gate-IsHonest =
      if-each (After k) (k == 7) (λ t. rw (is 7 t) sps_heard)
        λ _.
          if-each (After k) (k == 8) (λ t. rw (is 8 t) pps_heard)
            λ _.
              if-each (After k) (k == 5) (λ t. rw (is 5 t) idr_heard)
                λ _.
                  if-both (After k) (k == 1)
                    (if-both (After k) (not g.chain_open) (kept k) (kept k))
                    (if-both (After k) (k == 9) (kept k)
                      (if-both (After k) (not g.chain_open && g.stage == 0) (kept k) (kept k)))
    where
      k : ℕ
      k = p (s + 4) % 32

      is : (n : ℕ) → (k == n) ≡ true → k ≡ n
      is n t = ground arith

count-IsHonest : (h : List ℕ) (r : Rc) (n : ℕ) (g : Gate) → IsHonest h g → IsHonest h (count r n g)
unfolding count
count-IsHonest h done n g w = record { stage_heard = w.stage_heard; open_heard = w.open_heard }
count-IsHonest h dropped n g w = record { stage_heard = w.stage_heard; open_heard = w.open_heard }
count-IsHonest h hard n g w = w
count-IsHonest h waiting n g w = w
count-IsHonest h stuck n g w = w

-- One NAL, empty or not.
abbrev heard_with : Buf → ℕ → ℕ → List ℕ → List ℕ
heard_with p s e h = if ltb (e - s) 5 then h else (p (s + 4) % 32) ∷ h

one_nal-IsHonest :
    (h : List ℕ) (em : Emitter) (p : Buf) (s e : ℕ) (r : Rc)
    → IsHonest h em.gate
    → IsHonest (heard_with p s e h) (one_nal em p s e r).after.gate
one_nal-IsHonest h em p s e r w = elim (Bool-cases (ltb (e - s) 5)) [
  | inl empty ↦
      rw empty (
        one_nal_keeps (IsHonest h) (count-IsHonest h) em p s e r w (λ f. absurd (not_both empty f)))
  | inr full ↦ rw full (
      one_nal_keeps (IsHonest _) (count-IsHonest _) em p s e r (IsHonest-cons h em.gate _ w)
        (λ f. gate-IsHonest h em.gate p s e w))
]

emit_nals-IsHonest :
    (ns : List (ℕ × ℕ)) (h : List ℕ) (em : Emitter) (p : Buf) (r : Rc)
    → IsHonest h em.gate
    → IsHonest (hear p ns h) (emit_nals em p ns r).1.gate
unfolding emit_nals hear
emit_nals-IsHonest [] h em p r w = w
emit_nals-IsHonest ((s, e) ∷ rest) h em p r w =
    if-both (λ (x : Rc × Emitter). IsHonest (hear p rest (heard_with p s e h)) x.1.gate) st.give_up
      (IsHonest-hear p rest (heard_with p s e h) st.after.gate (one_nal-IsHonest h em p s e r w))
      (emit_nals-IsHonest rest (heard_with p s e h) st.after p st.rc
        (one_nal-IsHonest h em p s e r w))
  where
    st : Step
    st = one_nal em p s e r

-- What a delivered record adds to what was heard; audio has no NALs.
unfoldable pub hear_record : Bool → Buf → ℕ → List ℕ → List ℕ
hear_record audio p len h = if audio then h else hear p (nals (len + 1) p len 0) h

-- Whatever a record holds and however its writes go, behind it the gate knows no more than what was
-- heard: its stage stands for the parameter sets heard, in their order, and if it is open, a chain
-- of a sequence parameter set, a picture parameter set and an IDR slice was heard in some of the
-- records up to this one. The gate was as honest before the record.
pub emit_delivered-IsHonest :
    (audio : Bool) (h : List ℕ) (em : Emitter) (p : Buf) (len : ℕ)
    → IsHonest h em.gate
    → IsHonest (hear_record audio p len h) (emit_delivered audio em p len).1.gate
unfolding emit_delivered hear_record
emit_delivered-IsHonest true h em p len w = count-IsHonest h (put em.sink false _).0 len em.gate w
emit_delivered-IsHonest false h em p len w =
    rw (emit_record_nals em p len) (emit_nals-IsHonest (nals (len + 1) p len 0) h em p done w)
