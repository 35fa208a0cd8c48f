-- ===== src/Emit/Nals.antt =====
-- The NALs of a payload, split before any is routed, against the scan of `emit_record` in
-- src/fshare2fifo/fshare2fifo.c, which goes on from where a NAL was cut.
use yi_outdoor_1080p_ptz.Prelude.{
  ℕ, zero, suc, ◌+◌, ◌-◌, ◌≤◌, ◌<◌, ◌≡◌, ◌⊎◌, inl, inr, refl, true, false, List, [], ◌∷◌, arith,
  ltb, if◌then◌else◌, Bool-cases, ltb→lt, lt→ltb, not_both, sym, ap, ◌∙◌, not_both,
}
use yi_outdoor_1080p_ptz.Memory.{Buf}
use yi_outdoor_1080p_ptz.Emit.{Step, Emitter, one_nal, emit_loop, emit_record}
use yi_outdoor_1080p_ptz.Emit.Output.{Rc, done}
use yi_outdoor_1080p_ptz.Emit.Scan.{is_start, find_start, find_start-first, nal_end}
use yi_outdoor_1080p_ptz.Emit.Spans.{nal_end_inside, one_nal-next}

-- The start and the end of each NAL from `i` on.
unfoldable pub nals : ℕ → Buf → ℕ → ℕ → List (ℕ × ℕ)
nals zero p len i = []
nals (suc fuel) p len i =
    let s = find_start (len - i) p len i in
    let rest = nals fuel p len (nal_end p len s) in
    if ltb len (i + 4) then [] else if ltb len (s + 4) then [] else (s, nal_end p len s) ∷ rest

-- Each NAL is routed and written, up to one that gives the record up.
unfoldable pub emit_nals : Emitter → Buf → List (ℕ × ℕ) → Rc → Rc × Emitter
emit_nals em p [] r = (r, em)
emit_nals em p ((s, e) ∷ rest) r =
    let st = one_nal em p s e r in
    let later = emit_nals st.after p rest st.rc in if st.give_up then (st.rc, st.after) else later

-- A scan ends at a start code that has none before it.
pub find_start_at :
    (p : Buf) (len i t : ℕ)
    → i ≤ t
    → t + 4 ≤ len
    → is_start p t ≡ true
    → ((j : ℕ) → i ≤ j → j < t → is_start p j ≡ false)
    → find_start (len - i) p len i ≡ t
find_start_at p len i t lo fits here none =
    let (from, ends, before) = find_start-first (len - i) p len i (omega arith) in
    elim (Bool-cases (ltb (find_start (len - i) p len i) t)) [
      | inl early ↦ absurd (too_early (ltb→lt _ t early) ends)
      | inr late ↦ elim (Bool-cases (ltb t (find_start (len - i) p len i))) [
        | inl past ↦ absurd (not_both here (before t lo (ltb→lt t _ past)))
        | inr same ↦ ground arith
      ]
    ]
  where
    too_early :
        find_start (len - i) p len i < t
        → (len < find_start (len - i) p len i + 4)
          ⊎ (is_start p (find_start (len - i) p len i) ≡ true)
        → ⊥
    too_early lt (inl short) = absurd (omega arith)
    too_early lt (inr start) =
        let (from, _, _) = find_start-first (len - i) p len i (omega arith) in
        not_both start (none _ from lt)

-- A scan that meets no start code goes on until none fits.
find_start_none :
    (p : Buf) (len i : ℕ)
    → ((j : ℕ) → i ≤ j → j + 4 ≤ len → is_start p j ≡ false)
    → len < find_start (len - i) p len i + 4
find_start_none p len i none =
    let (from, ends, _) = find_start-first (len - i) p len i (omega arith) in
    elim ends [
      | inl short ↦ short
      | inr start ↦ elim (Bool-cases (ltb len (find_start (len - i) p len i + 4))) [
        | inl short ↦ ltb→lt len _ short
        | inr fits ↦ absurd (not_both start (none _ from (ground arith)))
      ]
    ]

-- From where no start code is left there are no NALs.
pub nals_none :
    (fuel : ℕ) (p : Buf) (len i : ℕ)
    → ((j : ℕ) → i ≤ j → j + 4 ≤ len → is_start p j ≡ false)
    → nals fuel p len i ≡ []
unfolding nals
nals_none zero p len i none = refl
nals_none (suc fuel) p len i none =
    let short : ltb len (find_start (len - i) p len i + 4) ≡ true =
      lt→ltb _ _ (find_start_none p len i none) in
    elim (Bool-cases (ltb len (i + 4))) [ inl t ↦ rw t | inr f ↦ rw (f, short) refl ]

-- Behind a start code that the scan comes to first, it finds what it finds there.
nals_skip :
    (fuel : ℕ) (p : Buf) (len j t : ℕ)
    → j ≤ t
    → t + 4 ≤ len
    → is_start p t ≡ true
    → ((i : ℕ) → j ≤ i → i < t → is_start p i ≡ false)
    → nals fuel p len j ≡ nals fuel p len t
unfolding nals
nals_skip zero p len j t lo fits here none = refl
nals_skip (suc fuel) p len j t lo fits here none =
    let short_j : ltb len (j + 4) ≡ false = ground arith in
    let short_t : ltb len (t + 4) ≡ false = ground arith in
    rw
      (
        find_start_at p len j t lo fits here none,
        find_start_at p len t t (omega arith) fits here (λ i a b. absurd (omega arith)),
        short_j,
        short_t,
      )
      refl

-- Wherever in a NAL the scan goes on, behind its start code, it finds the same NALs.
pub nals_restart :
    (fuel : ℕ) (p : Buf) (len s j : ℕ)
    → s + 4 ≤ len
    → s + 4 ≤ j
    → j ≤ nal_end p len s
    → nals fuel p len j ≡ nals fuel p len (nal_end p len s)
unfolding nal_end
nals_restart fuel p len s j fits lo hi =
    let (from, ends, before) = find_start-first (len - (s + 4)) p len (s + 4) (omega arith) in
    elim (Bool-cases (ltb len (e + 4))) [
      | inl last ↦ rw last (
          nals_none fuel p len j (λ i a b. before i (omega arith) (ground arith))
          ∙ sym (nals_none fuel p len len (λ i a b. absurd (omega arith))))
      | inr more ↦ elim ends [
        | inl short ↦ absurd (ground arith)
        | inr here ↦ rw more (
            nals_skip fuel p len j e (rw more at hi) (ground arith) here
              (λ i a b. before i (omega arith) b))
      ]
    ]
  where
    e : ℕ
    e = find_start (len - (s + 4)) p len (s + 4)

emit_loop_nals :
    (fuel : ℕ) (em : Emitter) (p : Buf) (len i : ℕ) (r : Rc)
    → 1 ≤ fuel
    → len < fuel + i
    → emit_loop fuel em p len i r ≡ emit_nals em p (nals fuel p len i) r
unfolding emit_loop nals emit_nals
emit_loop_nals zero em p len i r one h = absurd (omega arith)
emit_loop_nals (suc fuel) em p len i r one h = elim (Bool-cases (ltb len (i + 4))) [
  | inl short ↦ rw short refl
  | inr long ↦ elim (Bool-cases (ltb len (s + 4))) [
    | inl none ↦ rw (long, none) refl
    | inr found ↦
        rw (long, found)
          (ap (λ (x : Rc × Emitter). if st.give_up then (st.rc, st.after) else x)
            (rest (λ a b. emit_loop_nals fuel st.after p len st.next st.rc a b) (ground arith)))
  ]
]
  where
    s : ℕ
    s = find_start (len - i) p len i

    st : Step
    st = one_nal em p s (nal_end p len s) r

    rest :
        (1 ≤ fuel
          → len < fuel + st.next
          → emit_loop fuel st.after p len st.next st.rc
            ≡ emit_nals st.after p (nals fuel p len st.next) st.rc)
        → s + 4 ≤ len
        → emit_loop fuel st.after p len st.next st.rc
          ≡ emit_nals st.after p (nals fuel p len (nal_end p len s)) st.rc
    rest later fits =
        let (lo, hi) = nal_end_inside p len s fits in
        let (past, upto) = one_nal-next em p s (nal_end p len s) r lo in
        let (from, _, _) = find_start-first (len - i) p len i (omega arith) in
        later (omega (arith, from)) (omega (arith, from, past))
        ∙ ap (λ ns. emit_nals st.after p ns st.rc)
            (nals_restart fuel p len s st.next fits past upto)

-- Emitting a record is splitting its payload into NALs and routing them one by one: a picture
-- parameter set that is cut before its trailing zeros leaves no start code behind, and no other
-- NAL begins inside one.
pub emit_record_nals :
    (em : Emitter) (p : Buf) (len : ℕ)
    → emit_record em p len ≡ emit_nals em p (nals (len + 1) p len 0) done
unfolding emit_record
emit_record_nals em p len = emit_loop_nals (len + 1) em p len 0 done (omega arith) (omega arith)
