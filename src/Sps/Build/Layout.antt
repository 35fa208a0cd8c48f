-- ===== src/Sps/Build/Layout.antt =====
-- The bits that `build_sps` writes, field by field.
use yi_outdoor_1080p_ptz.Prelude.{
  ℕ, ◌+◌, ◌-◌, ◌*◌, ◌/◌, ◌%◌, ◌^◌, ◌≤◌, ◌<◌, ◌≡◌, refl, List, [], ◌++◌, append_assoc, append-nil,
  arith, ◌==◌, if◌then◌else◌, Bool-cases, inl, inr, ◌⊎◌, true, false,
}
use mathlib.Core.Path.{subst}
use yi_outdoor_1080p_ptz.Memory.{poke, sub32}
use yi_outdoor_1080p_ptz.Memory.Laws.{poke-IsBytes}
use yi_outdoor_1080p_ptz.Sps.Info.{SpsInfo}
use yi_outdoor_1080p_ptz.Sps.Reader.{bit_at}
use yi_outdoor_1080p_ptz.Sps.Writer.{Out, wbits, wue}
use yi_outdoor_1080p_ptz.Sps.Writer.Written.{IsWritten, wbits-IsWritten, wue-IsWritten}
use yi_outdoor_1080p_ptz.Sps.Codes.{bits_of, ue_code, zero-div-mod}
use yi_outdoor_1080p_ptz.Sps.Build.{build_head, build_numbers, build_frame}

-- `f` appends the bits `bs` to whatever was written before.
pub record Writes (f : Out → Out) (bs : List ℕ) : Type 0 where
  pub run : (before : List ℕ) (o : Out) → IsWritten before o → IsWritten (before ++ bs) (f o)

Writes-then :
    (f g : Out → Out) (bs cs : List ℕ)
    → Writes f bs
    → Writes g cs
    → Writes (λ o. g (f o)) (bs ++ cs)
Writes-then f g bs cs u v = record {
  run = λ before o w.
      rw (append_assoc before bs cs) at (v.run (before ++ bs) (f o) (u.run before o w));
}

Writes-ext : {f g : Out → Out} {bs : List ℕ} → ((o : Out) → f o ≡ g o) → Writes f bs → Writes g bs
Writes-ext {bs} same u = record {
  run = λ before o w. subst (IsWritten (before ++ bs)) (same o) (u.run before o w);
}

Writes-none : Writes (λ o. o) []
Writes-none = record { run = λ before o w. rw append-nil w }

Writes-wbits : (v n : ℕ) → Writes (λ o. wbits o v n) (bits_of n v)
Writes-wbits v n = record { run = λ before o w. wbits-IsWritten n v before o w }

Writes-wue : (v : ℕ) → v + 1 < 2 ^ 32 → Writes (λ o. wue o v) (ue_code v)
Writes-wue v h = record { run = λ before o w. wue-IsWritten v before o h w }

-- A parameter set that the synthesis keeps whole: the numbers fit the reader's codes and the frame
-- is of at most 301 by 301 macroblocks (by twice as many rows where fields are coded).
pub record IsPlain (si : SpsInfo) (wv hv : ℕ) : Type 0 where
  pub profile_byte : si.profile < 256
  pub constraint_byte : si.constraint < 256
  pub level_byte : si.level < 256
  pub sps_id_fits : si.sps_id + 1 < 2 ^ 25
  pub log2frm_fits : si.log2frm + 1 < 2 ^ 25
  pub poc_zero : si.poc_type ≡ 0
  pub poc_lsb_fits : si.poc_lsb + 1 < 2 ^ 25
  pub max_ref_fits : si.max_ref + 1 < 2 ^ 25
  pub w_is : si.w ≡ (wv + 1) * 16
  pub w_fits : wv ≤ 300
  pub h_is : si.h ≡ (if si.fmbo == 0 then (hv + 1) * 16 * 2 else (hv + 1) * 16)
  pub h_fits : hv ≤ 300
  pub fmbo_bit : si.fmbo < 2
  pub mb_bit : si.mb_adaptive < 2
  pub mb_none : si.fmbo ≡ 1 → si.mb_adaptive ≡ 0
  pub d8_bit : si.direct8x8 < 2
  pub crop_bit : si.crop_flag < 2
  pub crop0_fits : si.crop0 < 0xFFFF
  pub crop1_fits : si.crop1 < 0xFFFF
  pub crop2_fits : si.crop2 < 0xFFFF
  pub crop3_fits : si.crop3 < 0xFFFF
  pub crop_none :
      si.crop_flag ≡ 0 → (si.crop0 ≡ 0) × (si.crop1 ≡ 0) × (si.crop2 ≡ 0) × (si.crop3 ≡ 0)
  pub is_valid : si.valid ≡ 1

abbrev pub head_bits : SpsInfo → List ℕ
head_bits si = bits_of 8 si.profile ++ (bits_of 8 si.constraint ++ bits_of 8 si.level)

abbrev pub number_bits : SpsInfo → ℕ → ℕ → List ℕ
number_bits si wv hv =
    ue_code si.sps_id
    ++ (ue_code si.log2frm
        ++ (ue_code si.poc_type
            ++ (ue_code si.poc_lsb
                ++ (ue_code si.max_ref ++ (bits_of 1 0 ++ (ue_code wv ++ ue_code hv))))))

abbrev pub mb_bits : SpsInfo → List ℕ
mb_bits si = if si.fmbo == 0 then bits_of 1 si.mb_adaptive else []

abbrev pub crop_bits : SpsInfo → List ℕ
crop_bits si =
    if si.crop_flag == 0
    then []
    else ue_code si.crop0 ++ (ue_code si.crop1 ++ (ue_code si.crop2 ++ ue_code si.crop3))

abbrev pub frame_bits : SpsInfo → List ℕ
frame_bits si =
    bits_of 1 si.fmbo
    ++ (mb_bits si ++ (bits_of 1 si.direct8x8 ++ (bits_of 1 si.crop_flag ++ crop_bits si)))

abbrev start : Out
start = record { bytes = poke (λ _. 0) 0 0x67; pos = 8 }

start-IsWritten : IsWritten [] start
unfolding poke
start-IsWritten = record {
  pos_is = refl;
  has = tt;
  clear = λ q h. clear_behind q h (Bool-cases (q / 8 == 0));
  is_bytes = poke-IsBytes (λ _. 0) 0 0x67 (λ a. omega arith) (omega arith);
  header = refl;
}
  where
    clear_behind :
        (q : ℕ) → 8 ≤ q → (q / 8 == 0 ≡ true) ⊎ (q / 8 == 0 ≡ false) → bit_at start.bytes q ≡ 0
    clear_behind q h (inl e) = absurd (ground arith)
    clear_behind q h (inr e) = rw e (zero-div-mod (2 ^ (7 - q % 8)))

pub build_head-IsWritten : (si : SpsInfo) → IsWritten (head_bits si) (build_head si)
unfolding build_head
build_head-IsWritten si =
    (Writes-then _ _ _ _ (Writes-wbits si.profile 8)
        (Writes-then _ _ _ _ (Writes-wbits si.constraint 8) (Writes-wbits si.level 8))).run
      [] start start-IsWritten

module _ (si : SpsInfo) (wv hv : ℕ) (p : IsPlain si wv hv) where
  pub Writes-numbers : Writes (build_numbers si) (number_bits si wv hv)
  Writes-numbers = Writes-ext same (
      Writes-then _ _ _ _ (Writes-wue si.sps_id (omega (arith, p.sps_id_fits))) (
        Writes-then _ _ _ _ (Writes-wue si.log2frm (omega (arith, p.log2frm_fits))) (
          Writes-then _ _ _ _ (Writes-wue si.poc_type (omega (arith, p.poc_zero))) (
            Writes-then _ _ _ _ (Writes-wue si.poc_lsb (omega (arith, p.poc_lsb_fits))) (
              Writes-then _ _ _ _ (Writes-wue si.max_ref (omega (arith, p.max_ref_fits))) (
                Writes-then _ _ _ _ (Writes-wbits 0 1) (
                  Writes-then _ _ _ _ (Writes-wue wv (omega (arith, p.w_fits)))
                    (Writes-wue hv (omega (arith, p.h_fits))))))))))
    where
      poc_is : (si.poc_type == 0) ≡ true
      poc_is = let z = p.poc_zero in ground arith

      width_is : sub32 (si.w / 16) 1 ≡ wv
      width_is = omega (arith, p.w_is, p.w_fits)

      height_is : sub32 ((if si.fmbo == 0 then si.h / 2 else si.h) / 16) 1 ≡ hv
      height_is = ground (arith, p.h_is, p.h_fits)

      same :
          (o : Out)
          → wue
              (wue
                (wbits
                  (wue
                    (wue (wue (wue (wue o si.sps_id) si.log2frm) si.poc_type) si.poc_lsb)
                    si.max_ref)
                  0
                  1)
                wv)
              hv
            ≡ build_numbers si o
      same o = unfold build_numbers in rw (poc_is, width_is, height_is)

  Writes-mb : Writes (λ o. if si.fmbo == 0 then wbits o si.mb_adaptive 1 else o) (mb_bits si)
  Writes-mb = elim (Bool-cases (si.fmbo == 0)) [
    | inl e ↦ rw e (Writes-wbits si.mb_adaptive 1)
    | inr e ↦ rw e Writes-none
  ]

  Writes-crop :
      Writes
        (λ o.
          if si.crop_flag == 0
          then o
          else wue (wue (wue (wue o si.crop0) si.crop1) si.crop2) si.crop3)
        (crop_bits si)
  Writes-crop = elim (Bool-cases (si.crop_flag == 0)) [
    | inl e ↦ rw e Writes-none
    | inr e ↦ rw e (
        Writes-then _ _ _ _ (Writes-wue si.crop0 (omega (arith, p.crop0_fits))) (
          Writes-then _ _ _ _ (Writes-wue si.crop1 (omega (arith, p.crop1_fits))) (
            Writes-then _ _ _ _ (Writes-wue si.crop2 (omega (arith, p.crop2_fits)))
              (Writes-wue si.crop3 (omega (arith, p.crop3_fits))))))
  ]

  pub Writes-frame : Writes (build_frame si) (frame_bits si)
  unfolding build_frame
  Writes-frame = Writes-then _ _ _ _ (Writes-wbits si.fmbo 1) (
      Writes-then _ _ _ _ Writes-mb (
        Writes-then _ _ _ _ (Writes-wbits si.direct8x8 1)
          (Writes-then _ _ _ _ (Writes-wbits si.crop_flag 1) Writes-crop)))
