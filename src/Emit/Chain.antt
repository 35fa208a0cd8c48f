-- ===== src/Emit/Chain.antt =====
-- The chain gate of `emit_record` in src/fshare2fifo/fshare2fifo.c: what is done with a NAL, by its
-- type.
use yi_outdoor_1080p_ptz.Prelude.{
  ℕ, zero, suc, ◌+◌, ◌-◌, ◌*◌, ◌%◌, Bool, true, false, not, ◌&&◌, ◌||◌, ltb, ◌==◌, if◌then◌else◌,
}
use yi_outdoor_1080p_ptz.Memory.{Buf}
use yi_outdoor_1080p_ptz.Sps.Info.{SpsInfo}
use yi_outdoor_1080p_ptz.Sps.Reader.{read_ue}
use yi_outdoor_1080p_ptz.Sps.Parse.{parse_sps_full}

-- `stage`, `chain_open`, `target_w`, `target_h`, `g_nals`, `g_bytes` and `g_drops`.
pub record Gate : Type 0 where
  pub stage : ℕ
  pub chain_open : Bool
  pub target_w : ℕ
  pub target_h : ℕ
  pub nals : ℕ
  pub bytes : ℕ
  pub drops : ℕ

-- Nothing is written; a parameter set is written that is built from `si`; the NAL is written up to
-- an end, as a chain NAL or not.
pub data Verdict : Type 0 where
  skip : Verdict
  synth : SpsInfo → Verdict
  emit : Bool → ℕ → Verdict

-- `si.ok && si.poc_type == 0`
unfoldable pub can_synth : SpsInfo → Bool
can_synth si = not (si.valid == 0) && si.poc_type == 0

unfoldable pub gate_sps : Gate → Buf → ℕ → ℕ → Verdict × Gate
gate_sps g p s e =
    let si = parse_sps_full (λ j. p (s + 4 + j)) (e - s - 4) in
    let larger = ltb (g.target_w * g.target_h) (si.w * si.h) in
    if can_synth si
    then (
      synth si,
      record g {
        stage = 1;
        target_w = if larger then si.w else g.target_w;
        target_h = if larger then si.h else g.target_h;
      },
    )
    else (emit true e, record g { stage = 1 })

-- `while (body > 0 && p[s + 4 + body - 1] == 0) body--`, for `q = p + s + 4`.
unfoldable pub trim : Buf → ℕ → ℕ
trim q zero = 0
trim q (suc body) = let rest = trim q body in if q body == 0 then rest else suc body

-- Both identifiers at the head of a picture parameter set can be read.
unfoldable pub pps_readable : Buf → ℕ → Bool
pps_readable q body =
    let (a, bp) = read_ue q body 0 in
    let (b, bp') = read_ue q body bp in not (a == 0xFFFF || b == 0xFFFF || ltb (body * 8) bp')

unfoldable pub gate_pps : Gate → Buf → ℕ → ℕ → Verdict × Gate
gate_pps g p s e =
    let q : Buf = λ j. p (s + 4 + j) in
    let body = trim q (e - s - 4) in
    if ltb g.stage 1
    then (skip, g)
    else if ltb body 2
    then (skip, g)
    else if not (pps_readable q body)
    then (skip, g)
    else (emit true (s + 4 + body), record g { stage = 2 })

unfoldable pub gate_idr : Gate → ℕ → Verdict × Gate
gate_idr g e =
    if ltb g.stage 2 then (skip, g) else (emit true e, record g { chain_open = true; stage = 0 })

unfoldable pub gate_slice : Gate → ℕ → Verdict × Gate
gate_slice g e = if not g.chain_open then (skip, g) else (emit false e, g)

-- SEI and the rest.
unfoldable pub gate_other : Gate → ℕ → Verdict × Gate
gate_other g e = if not g.chain_open && g.stage == 0 then (skip, g) else (emit true e, g)

unfoldable pub gate : Gate → Buf → ℕ → ℕ → Verdict × Gate
gate g p s e =
    let nt = p (s + 4) % 32 in
    if nt == 7
    then gate_sps g p s e
    else if nt == 8
    then gate_pps g p s e
    else if nt == 5
    then gate_idr g e
    else if nt == 1
    then gate_slice g e
    else if nt == 9
    then (skip, g)
    else gate_other g e
