-- ===== src/Sps/Build/Bounds.antt =====
-- The number of bytes that `build_sps` of src/fshare2fifo/fshare2fifo.c writes.
use yi_outdoor_1080p_ptz.Prelude.{
  ℕ, zero, suc, ◌+◌, ◌-◌, ◌/◌, ◌%◌, ◌^◌, ◌≤◌, ◌<◌, ◌≡◌, ◌∙◌, arith, ◌==◌, if◌then◌else◌, Bool-cases,
  inl, inr,
}
use yi_outdoor_1080p_ptz.Memory.{u32}
use yi_outdoor_1080p_ptz.Sps.Info.{SpsInfo, nal_buf_max}
use yi_outdoor_1080p_ptz.Sps.Writer.{Out, set_bit, wbits, wue, width}
use yi_outdoor_1080p_ptz.Sps.Codes.{width-le}
use yi_outdoor_1080p_ptz.Sps.Build.{build_head, build_numbers, build_frame, pad, build_sps}

pub pos-wbits : (o : Out) (v n : ℕ) → (wbits o v n).pos ≡ o.pos + n
unfolding wbits
pos-wbits o v zero = omega arith
pos-wbits o v (suc n) =
    let o' : Out = record {
      bytes = if v / 2 ^ n % 2 == 1 then set_bit o.bytes o.pos else o.bytes;
      pos = o.pos + 1;
    } in
    pos-wbits o' v n ∙ omega arith

pos-wue : (o : Out) (v : ℕ) → (o.pos < (wue o v).pos) × ((wue o v).pos ≤ o.pos + 65)
unfolding wue
pos-wue o v = omega (
  arith,
  pos-wbits o 0 (width 32 (u32 (v + 1))),
  pos-wbits (wbits o 0 (width 32 (u32 (v + 1)))) (u32 (v + 1)) (width 32 (u32 (v + 1)) + 1),
  width-le 32 (u32 (v + 1)),
)

pos-build_head : (si : SpsInfo) → (build_head si).pos ≡ 32
unfolding build_head
pos-build_head si = omega (arith, pos-wbits)

pos-build_numbers :
    (si : SpsInfo) (o : Out)
    → (o.pos ≤ (build_numbers si o).pos) × ((build_numbers si o).pos ≤ o.pos + 456)
unfolding build_numbers
pos-build_numbers si o = elim (Bool-cases (si.poc_type == 0)) [
  | inl e ↦ rw e (omega (arith, pos-wbits, pos-wue))
  | inr e ↦ rw e (omega (arith, pos-wbits, pos-wue))
]

pos-build_frame :
    (si : SpsInfo) (o : Out)
    → (o.pos ≤ (build_frame si o).pos) × ((build_frame si o).pos ≤ o.pos + 264)
unfolding build_frame
pos-build_frame si o = elim (Bool-cases (si.fmbo == 0)) [
  | inl e ↦ rw e (cropped _ (omega (arith, pos-wbits)))
  | inr e ↦ rw e (cropped _ (omega (arith, pos-wbits)))
]
  where
    cropped :
        (o3 : Out)
        → (o.pos ≤ o3.pos) × (o3.pos ≤ o.pos + 4)
        → (o.pos
            ≤ (if si.crop_flag == 0
                then o3
                else wue (wue (wue (wue o3 si.crop0) si.crop1) si.crop2) si.crop3).pos)
          × ((if si.crop_flag == 0
                then o3
                else wue (wue (wue (wue o3 si.crop0) si.crop1) si.crop2) si.crop3).pos
              ≤ o.pos + 264)
    cropped o3 h = elim (Bool-cases (si.crop_flag == 0)) [
      | inl e ↦ rw e (omega arith)
      | inr e ↦ rw e (omega (arith, pos-wue))
    ]

pos-pad :
    (rounds : ℕ) (o : Out) → (o.pos ≤ (pad rounds o).pos) × ((pad rounds o).pos ≤ o.pos + rounds)
unfolding pad
pos-pad zero o = omega arith
pos-pad (suc rounds) o = ground (arith, pos-pad rounds (wbits o 0 1), pos-wbits o 0 1)

pad_aligned : (rounds : ℕ) (o : Out) → (8 - o.pos % 8) % 8 ≤ rounds → (pad rounds o).pos % 8 ≡ 0
unfolding pad
pad_aligned zero o h = omega arith
pad_aligned (suc rounds) o h = ground (arith, pad_aligned rounds (wbits o 0 1), pos-wbits o 0 1)

-- Whatever the fields hold, `build_sps` writes a whole number of bytes, at least four and at most
-- 95, so that it stays inside its buffer of 256.
pub build_sps_fits :
    (si : SpsInfo)
    → ((build_sps si).pos % 8 ≡ 0)
      × (4 ≤ (build_sps si).pos / 8)
      × ((build_sps si).pos / 8 ≤ 95)
      × (95 < nal_buf_max)
unfolding build_sps
build_sps_fits si =
    let o1 : Out = build_head si in
    let o2 : Out = build_numbers si o1 in
    let o3 : Out = build_frame si o2 in
    let o4 : Out = wbits (wbits o3 0 1) 1 1 in
    omega (
      arith,
      pos-build_head si,
      pos-build_numbers si o1,
      pos-build_frame si o2,
      pos-wbits o3 0 1,
      pos-wbits (wbits o3 0 1) 1 1,
      pos-pad 7 o4,
      pad_aligned 7 o4 (omega arith),
    )
