-- ===== src/Sps/Build.antt =====
-- `build_sps` of src/fshare2fifo/fshare2fifo.c.
pub mod Bounds
pub mod Layout
use yi_outdoor_1080p_ptz.Prelude.{ℕ, zero, suc, ◌+◌, ◌-◌, ◌*◌, ◌/◌, ◌%◌, ◌==◌, if◌then◌else◌}
use yi_outdoor_1080p_ptz.Memory.{Buf, poke, sub32}
use yi_outdoor_1080p_ptz.Sps.Info.{SpsInfo}
use yi_outdoor_1080p_ptz.Sps.Writer.{Out, wbits, wue}

-- `memset`, the NAL header 0x67 and the three bytes behind it.
unfoldable pub build_head : SpsInfo → Out
build_head si =
    let o0 : Out = record { bytes = poke (λ _. 0) 0 0x67; pos = 8 } in
    wbits (wbits (wbits o0 si.profile 8) si.constraint 8) si.level 8

unfoldable pub build_numbers : SpsInfo → Out → Out
build_numbers si o =
    let o1 = wue (wue (wue o si.sps_id) si.log2frm) si.poc_type in
    let o2 = if si.poc_type == 0 then wue o1 si.poc_lsb else o1 in
    let o3 = wbits (wue o2 si.max_ref) 0 1 in
    wue (wue o3 (sub32 (si.w / 16) 1)) (sub32 ((if si.fmbo == 0 then si.h / 2 else si.h) / 16) 1)

unfoldable pub build_frame : SpsInfo → Out → Out
build_frame si o =
    let o1 = wbits o si.fmbo 1 in
    let o2 = if si.fmbo == 0 then wbits o1 si.mb_adaptive 1 else o1 in
    let o3 = wbits (wbits o2 si.direct8x8 1) si.crop_flag 1 in
    if si.crop_flag == 0 then o3 else wue (wue (wue (wue o3 si.crop0) si.crop1) si.crop2) si.crop3

-- No VUI, the stop bit, and zeros up to a byte: at most seven rounds.
unfoldable pub pad : ℕ → Out → Out
pad zero o = o
pad (suc rounds) o = let rest = pad rounds (wbits o 0 1) in if o.pos % 8 == 0 then o else rest

unfoldable pub build_sps : SpsInfo → Out
build_sps si = pad 7 (wbits (wbits (build_frame si (build_numbers si (build_head si))) 0 1) 1 1)
