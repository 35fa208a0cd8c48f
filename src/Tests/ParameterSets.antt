-- ===== src/Tests/ParameterSets.antt =====
-- A parameter set of 640 by 368, built and parsed.
use yi_outdoor_1080p_ptz.Prelude.{
  ℕ, zero, suc, ◌+◌, ◌/◌, ◌%◌, ◌<◌, ◌≤◌, ◌≡◌, refl, Bool, true, false, not, ◌&&◌, arith, ◌==◌,
  Bool-cases, inl, inr,
}
use yi_outdoor_1080p_ptz.Memory.{Buf, poke}
use yi_outdoor_1080p_ptz.Sps.Info.{SpsInfo, nal_buf_max}
use yi_outdoor_1080p_ptz.Sps.Parse.{parse_sps_full, has_chroma}
use yi_outdoor_1080p_ptz.Sps.Parse.Strip.{NoEmulation}
use yi_outdoor_1080p_ptz.Sps.Writer.{wbits, wue, width}
use yi_outdoor_1080p_ptz.Sps.Build.{build_sps, build_head, build_numbers, build_frame, pad}
use yi_outdoor_1080p_ptz.Sps.Build.Bounds.{build_sps_fits}
use yi_outdoor_1080p_ptz.Sps.Build.Layout.{IsPlain}
use yi_outdoor_1080p_ptz.Sps.RoundTrip.{parse_sps_full-build_sps}

abbrev small_set : SpsInfo
small_set = record {
  profile = 77;
  constraint = 0;
  level = 30;
  sps_id = 0;
  log2frm = 4;
  poc_type = 0;
  poc_lsb = 5;
  max_ref = 1;
  w = 640;
  h = 368;
  fmbo = 1;
  mb_adaptive = 0;
  direct8x8 = 1;
  crop_flag = 1;
  crop0 = 0;
  crop1 = 0;
  crop2 = 0;
  crop3 = 4;
  valid = 1;
}

build_sps_fits_example :
    ((build_sps small_set).pos % 8 ≡ 0)
    × (4 ≤ (build_sps small_set).pos / 8)
    × ((build_sps small_set).pos / 8 ≤ 95)
    × (95 < nal_buf_max)
build_sps_fits_example = build_sps_fits small_set

small_set_pos : (build_sps small_set).pos ≡ 88
unfolding build_sps build_head build_numbers build_frame pad wbits wue width
small_set_pos = refl

-- No emulation pattern begins below `n`.
abbrev clean_below : ℕ → Buf → Bool
clean_below zero d = true
clean_below (suc n) d = not (d n == 0 && d (n + 1) == 0 && d (n + 2) == 3) && clean_below n d

clean_below-lt :
    (n : ℕ) (d : Buf) (i : ℕ)
    → clean_below n d ≡ true
    → i < n
    → (d i == 0 && d (i + 1) == 0 && d (i + 2) == 3) ≡ false
clean_below-lt zero d i h lt = absurd (omega arith)
clean_below-lt (suc n) d i h lt = elim (Bool-cases (i == n)) [
  | inl same ↦ let e : i ≡ n = ground arith in rw e (ground arith)
  | inr other ↦ clean_below-lt n d i (ground arith) (ground arith)
]

small_set_clean : clean_below 9 (build_sps small_set).bytes ≡ true
unfolding build_sps build_head build_numbers build_frame pad wbits wue width poke
small_set_clean = refl

small_set-NoEmulation : NoEmulation (build_sps small_set).bytes ((build_sps small_set).pos / 8)
small_set-NoEmulation i h =
    clean_below-lt 9 (build_sps small_set).bytes i small_set_clean (omega (arith, small_set_pos))

small_set-IsPlain : IsPlain small_set 39 22
small_set-IsPlain = record {
  profile_byte = omega arith;
  constraint_byte = omega arith;
  level_byte = omega arith;
  sps_id_fits = omega arith;
  log2frm_fits = omega arith;
  poc_zero = refl;
  poc_lsb_fits = omega arith;
  max_ref_fits = omega arith;
  w_is = refl;
  w_fits = omega arith;
  h_is = refl;
  h_fits = omega arith;
  fmbo_bit = omega arith;
  mb_bit = omega arith;
  mb_none = λ e. refl;
  d8_bit = omega arith;
  crop_bit = omega arith;
  crop0_fits = omega arith;
  crop1_fits = omega arith;
  crop2_fits = omega arith;
  crop3_fits = omega arith;
  crop_none = λ e. absurd (omega arith);
  is_valid = refl;
}

small_set_plain : has_chroma small_set.profile ≡ false
unfolding has_chroma
small_set_plain = refl

parse_sps_full-build_sps_example :
    parse_sps_full (build_sps small_set).bytes ((build_sps small_set).pos / 8) ≡ small_set
parse_sps_full-build_sps_example =
    parse_sps_full-build_sps small_set 39 22 small_set-IsPlain small_set_plain small_set-NoEmulation
