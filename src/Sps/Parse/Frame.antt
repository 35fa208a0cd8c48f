-- ===== src/Sps/Parse/Frame.antt =====
-- The frame fields of the parser over the bits that the synthesis writes.
use yi_outdoor_1080p_ptz.Prelude.{
  ℕ, ◌+◌, ◌*◌, ◌/◌, ◌%◌, ◌<◌, ◌≡◌, ap, List, ◌++◌, arith, length, length-append, ◌==◌, ◌||◌,
  if◌then◌else◌, Bool-cases, inl, inr, ◌⊎◌, true, false,
}
use yi_outdoor_1080p_ptz.Memory.{Buf}
use yi_outdoor_1080p_ptz.Sps.Info.{SpsInfo, blank}
use yi_outdoor_1080p_ptz.Sps.Reader.{Bits, pure, read_bit, read_ue}
use yi_outdoor_1080p_ptz.Sps.Reader.Reads.{
  Ahead, Reads, Reads-pure, Reads-bit, Reads-ue, HasBits-left, HasBits-right,
}
use yi_outdoor_1080p_ptz.Sps.Codes.{bits_of, ue_code}
use yi_outdoor_1080p_ptz.Sps.Build.Layout.{IsPlain, mb_bits, crop_bits, frame_bits}
use yi_outdoor_1080p_ptz.Sps.Parse.{read_crop, read_frame}

module _ (s : Buf) (slen : ℕ) where
  -- One reader over the front of the bits ahead.
  pub advance :
      {A : Type 0} (p : Bits A) (bs rest : List ℕ) (a : A) (pos : ℕ)
      → Reads s slen p bs a
      → Ahead s slen pos (bs ++ rest)
      → (p pos ≡ (a, pos + length bs)) × Ahead s slen (pos + length bs) rest
  advance p bs rest a pos r (h, fits) = (
    r.run pos (HasBits-left s pos bs rest h, omega (arith, length-append bs rest)),
    (HasBits-right s pos bs rest h, omega (arith, length-append bs rest)),
  )

  pub Reads-flag : (b : ℕ) → b < 2 → Reads s slen (read_bit s slen) (bits_of 1 b) b
  Reads-flag b h = let e : b / 1 % 2 ≡ b = omega arith in rw e (Reads-bit s slen b)

  module _ (si : SpsInfo) (wv hv : ℕ) (p : IsPlain si wv hv) where
    Reads-mb :
        Reads s slen (if si.fmbo == 0 then read_bit s slen else pure 0) (mb_bits si) si.mb_adaptive
    Reads-mb = elim (Bool-cases (si.fmbo == 0)) [
      | inl e ↦ rw e (Reads-flag si.mb_adaptive p.mb_bit)
      | inr e ↦
          let zero_mb : si.mb_adaptive ≡ 0 = p.mb_none (let b = p.fmbo_bit in ground arith) in
          rw (e, zero_mb) (Reads-pure s slen 0)
    ]

    -- The fields before the frame, as the parser has them when it reaches it.
    abbrev pub so_far : SpsInfo
    so_far = record blank {
      profile = si.profile;
      constraint = si.constraint;
      level = si.level;
      sps_id = si.sps_id;
      log2frm = si.log2frm;
      poc_type = 0;
      poc_lsb = si.poc_lsb;
      max_ref = si.max_ref;
    }

    abbrev framed : SpsInfo
    framed = record so_far {
      w = (wv + 1) * 16;
      h = if si.fmbo == 0 then (hv + 1) * 16 * 2 else (hv + 1) * 16;
      fmbo = si.fmbo;
      mb_adaptive = si.mb_adaptive;
      direct8x8 = si.direct8x8;
      crop_flag = si.crop_flag;
    }

    -- What the parser has read is the parameter set.
    framed-eq :
        record framed {
          crop0 = si.crop0;
          crop1 = si.crop1;
          crop2 = si.crop2;
          crop3 = si.crop3;
          valid = 1;
        }
        ≡ si
    framed-eq = ground (arith, p.poc_zero, p.w_is, p.h_is, p.is_valid)

    read_crop_lem :
        (pos : ℕ)
        → (si.crop_flag == 0) ≡ false
        → Ahead s slen pos (crop_bits si)
        → (q : ℕ) × (read_crop s slen framed pos ≡ (si, q))
    unfolding read_crop
    read_crop_lem pos e a =
        let p1 : ℕ = pos + length (ue_code si.crop0) in
        let p2 : ℕ = p1 + length (ue_code si.crop1) in
        let p3 : ℕ = p2 + length (ue_code si.crop2) in
        let p4 : ℕ = p3 + length (ue_code si.crop3) in
        let (e0, a0) =
          advance (read_ue s slen) (ue_code si.crop0)
            (ue_code si.crop1 ++ (ue_code si.crop2 ++ ue_code si.crop3)) si.crop0 pos
            (Reads-ue s slen si.crop0 (omega (arith, p.crop0_fits))) (rw e at a) in
        let (e1, a1) =
          advance (read_ue s slen) (ue_code si.crop1) (ue_code si.crop2 ++ ue_code si.crop3)
            si.crop1 p1 (Reads-ue s slen si.crop1 (omega (arith, p.crop1_fits))) a0 in
        let (e2, a2) =
          advance (read_ue s slen) (ue_code si.crop2) (ue_code si.crop3) si.crop2 p2
            (Reads-ue s slen si.crop2 (omega (arith, p.crop2_fits))) a1 in
        let e3 = (Reads-ue s slen si.crop3 (omega (arith, p.crop3_fits))).run p3 a2 in
        (p4, rw (e0, e1, e2, e3, good) (ap (λ r. (r, p4)) framed-eq))
      where
        good :
            (si.crop0 == 0xFFFF || si.crop1 == 0xFFFF || si.crop2 == 0xFFFF || si.crop3 == 0xFFFF)
            ≡ false
        good = ground (arith, p.crop0_fits, p.crop1_fits, p.crop2_fits, p.crop3_fits)

    uncropped-eq : (si.crop_flag == 0) ≡ true → record framed { valid = 1 } ≡ si
    uncropped-eq e =
        let none_is : (si.crop0 ≡ 0) × (si.crop1 ≡ 0) × (si.crop2 ≡ 0) × (si.crop3 ≡ 0) =
          p.crop_none (ground arith) in
        ground (arith, none_is, framed-eq)

    pub read_frame_lem :
        (pos : ℕ)
        → Ahead s slen pos (frame_bits si)
        → (q : ℕ) × (read_frame s slen so_far wv hv pos ≡ (si, q))
    unfolding read_frame
    read_frame_lem pos a =
        let p1 : ℕ = pos + 1 in
        let p2 : ℕ = p1 + length (mb_bits si) in
        let p3 : ℕ = p2 + 1 in
        let (e1, a1) =
          advance (read_bit s slen) (bits_of 1 si.fmbo)
            (mb_bits si ++ (bits_of 1 si.direct8x8 ++ (bits_of 1 si.crop_flag ++ crop_bits si)))
            si.fmbo pos (Reads-flag si.fmbo p.fmbo_bit) a in
        let (e2, a2) =
          advance (if si.fmbo == 0 then read_bit s slen else pure 0) (mb_bits si)
            (bits_of 1 si.direct8x8 ++ (bits_of 1 si.crop_flag ++ crop_bits si)) si.mb_adaptive p1
            Reads-mb a1 in
        let (e3, a3) =
          advance (read_bit s slen) (bits_of 1 si.direct8x8)
            (bits_of 1 si.crop_flag ++ crop_bits si) si.direct8x8 p2
            (Reads-flag si.direct8x8 p.d8_bit) a2 in
        let (e4, a4) =
          advance (read_bit s slen) (bits_of 1 si.crop_flag) (crop_bits si) si.crop_flag p3
            (Reads-flag si.crop_flag p.crop_bit) a3 in
        rw (e1, e2, e3, e4) (finish (p3 + 1) a4 (Bool-cases (si.crop_flag == 0)))
      where
        finish :
            (q : ℕ)
            → Ahead s slen q (crop_bits si)
            → ((si.crop_flag == 0) ≡ true) ⊎ ((si.crop_flag == 0) ≡ false)
            → (r : ℕ) × ((if si.crop_flag == 0
                    then pure (record framed { valid = 1 })
                    else read_crop s slen framed)
                  q
                ≡ (si, r))
        finish q a (inl e) = (q, rw e (ap (λ r. (r, q)) (uncropped-eq e)))
        finish q a (inr e) = let (r, done) = read_crop_lem q e a in (r, rw e done)
