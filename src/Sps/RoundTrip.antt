-- ===== src/Sps/RoundTrip.antt =====
-- `build_sps` and then `parse_sps_full` of src/fshare2fifo/fshare2fifo.c.
use yi_outdoor_1080p_ptz.Prelude.{
  ℕ, zero, suc, ◌+◌, ◌-◌, ◌*◌, ◌/◌, ◌%◌, ◌^◌, ◌≤◌, ◌<◌, ◌≡◌, ap, ◌∙◌, List, [], ◌++◌, append_assoc,
  append-nil, arith, length, length-append, ◌==◌, ltb, Bool-cases, inl, inr, false,
}
use mathlib.Core.Path.{subst}
use yi_outdoor_1080p_ptz.Memory.{Buf, IsBytes}
use yi_outdoor_1080p_ptz.Sps.Info.{SpsInfo, nal_buf_max}
use yi_outdoor_1080p_ptz.Sps.Reader.Reads.{HasBits-left, HasBits-right}
use yi_outdoor_1080p_ptz.Sps.Writer.{Out, wbits}
use yi_outdoor_1080p_ptz.Sps.Writer.Written.{HasBits, HasBits-ext, IsWritten, wbits-IsWritten}
use yi_outdoor_1080p_ptz.Sps.Codes.{bits_of}
use yi_outdoor_1080p_ptz.Sps.Build.{build_head, pad, build_sps}
use yi_outdoor_1080p_ptz.Sps.Build.Bounds.{build_sps_fits}
use yi_outdoor_1080p_ptz.Sps.Build.Layout.{
  IsPlain, head_bits, number_bits, frame_bits, build_head-IsWritten, Writes-numbers, Writes-frame,
}
use yi_outdoor_1080p_ptz.Sps.Parse.{has_chroma, strip, unstripped, read_fields, parse_sps_full}
use yi_outdoor_1080p_ptz.Sps.Parse.Strip.{NoEmulation, strip_whole}
use yi_outdoor_1080p_ptz.Sps.Parse.Fields.{read_fields_lem}

pad-IsWritten :
    (rounds : ℕ) (bs : List ℕ) (o : Out)
    → IsWritten bs o
    → (zs : List ℕ) × IsWritten (bs ++ zs) (pad rounds o)
unfolding pad
pad-IsWritten zero bs o w = ([], rw append-nil w)
pad-IsWritten (suc rounds) bs o w =
    let (zs, ih) =
      pad-IsWritten rounds (bs ++ bits_of 1 0) (wbits o 0 1) (wbits-IsWritten 1 0 bs o w) in
    elim (Bool-cases (o.pos % 8 == 0)) [
      | inl e ↦ ([], rw (append-nil, e) w)
      | inr e ↦ (bits_of 1 0 ++ zs, rw e (rw (append_assoc bs (bits_of 1 0) zs) at ih))
    ]

-- A byte by its bits.
byte_of_bits :
    (b v : ℕ)
    → b < 256
    → v < 256
    → b / 128 % 2 ≡ v / 128 % 2
    → b / 64 % 2 ≡ v / 64 % 2
    → b / 32 % 2 ≡ v / 32 % 2
    → b / 16 % 2 ≡ v / 16 % 2
    → b / 8 % 2 ≡ v / 8 % 2
    → b / 4 % 2 ≡ v / 4 % 2
    → b / 2 % 2 ≡ v / 2 % 2
    → b / 1 % 2 ≡ v / 1 % 2
    → b ≡ v
byte_of_bits b v hb hv a7 a6 a5 a4 a3 a2 a1 a0 = omega arith

byte_one :
    (m : Buf) (v : ℕ) (rest : List ℕ)
    → IsBytes m
    → v < 256
    → HasBits m 8 (bits_of 8 v ++ rest)
    → m 1 ≡ v
byte_one m v rest b hv (a7, (a6, (a5, (a4, (a3, (a2, (a1, (a0, _)))))))) =
    byte_of_bits (m 1) v (b 1) hv a7 a6 a5 a4 a3 a2 a1 a0

byte_two :
    (m : Buf) (v : ℕ) (rest : List ℕ)
    → IsBytes m
    → v < 256
    → HasBits m 16 (bits_of 8 v ++ rest)
    → m 2 ≡ v
byte_two m v rest b hv (a7, (a6, (a5, (a4, (a3, (a2, (a1, (a0, _)))))))) =
    byte_of_bits (m 2) v (b 2) hv a7 a6 a5 a4 a3 a2 a1 a0

byte_three :
    (m : Buf) (v : ℕ) (rest : List ℕ)
    → IsBytes m
    → v < 256
    → HasBits m 24 (bits_of 8 v ++ rest)
    → m 3 ≡ v
byte_three m v rest b hv (a7, (a6, (a5, (a4, (a3, (a2, (a1, (a0, _)))))))) =
    byte_of_bits (m 3) v (b 3) hv a7 a6 a5 a4 a3 a2 a1 a0

four_assoc : (a b c d : List ℕ) → ((a ++ b) ++ c) ++ d ≡ a ++ (b ++ (c ++ d))
four_assoc a b c d = simp append_assoc

module _ (si : SpsInfo) (wv hv : ℕ) (p : IsPlain si wv hv) where
  abbrev out : Out
  out = build_sps si

  abbrev slen : ℕ
  slen = out.pos / 8

  abbrev fields : List ℕ
  fields = number_bits si wv hv ++ frame_bits si

  layout : (zs : List ℕ) × IsWritten ((head_bits si ++ fields) ++ zs) out
  unfolding build_sps
  layout =
      let w1 = build_head-IsWritten si in
      let w2 = (Writes-numbers si wv hv p).run (head_bits si) (build_head si) w1 in
      let w3 = (Writes-frame si wv hv p).run (head_bits si ++ number_bits si wv hv) _ w2 in
      let w3' = rw (append_assoc (head_bits si) (number_bits si wv hv) (frame_bits si)) at w3 in
      let w4 = wbits-IsWritten 1 0 (head_bits si ++ fields) _ w3' in
      let w5 = wbits-IsWritten 1 1 ((head_bits si ++ fields) ++ bits_of 1 0) _ w4 in
      let (zs, w6) =
        pad-IsWritten 7 (((head_bits si ++ fields) ++ bits_of 1 0) ++ bits_of 1 1) _ w5 in
      (
        bits_of 1 0 ++ (bits_of 1 1 ++ zs),
        subst (λ bs. IsWritten bs out)
            (four_assoc (head_bits si ++ fields) (bits_of 1 0) (bits_of 1 1) zs) w6,
      )

  written : HasBits out.bytes 8 (head_bits si ++ fields)
  written = let (zs, w) = layout in HasBits-left out.bytes 8 (head_bits si ++ fields) zs w.has

  out_bytes : IsBytes out.bytes
  out_bytes = let (zs, w) = layout in w.is_bytes

  fields_fit : 32 + length fields ≤ slen * 8
  fields_fit =
      let (zs, w) = layout in
      omega (
        arith,
        w.pos_is,
        length-append (head_bits si ++ fields) zs,
        length-append (head_bits si) fields,
        build_sps_fits si,
      )

  -- The parser's fields read the synthesized bytes, and any copy of them.
  fields_read :
      (s : Buf)
      → has_chroma si.profile ≡ false
      → ((j : ℕ) → j < slen → s j ≡ out.bytes j)
      → (q : ℕ) × (read_fields s slen 32 ≡ (si, q))
  fields_read s plain same =
      read_fields_lem s slen si wv hv p 32
        (same 1 (omega (arith, fit))
          ∙ byte_one out.bytes si.profile
              (bits_of 8 si.constraint ++ (bits_of 8 si.level ++ fields)) out_bytes p.profile_byte
              written)
        (same 2 (omega (arith, fit))
          ∙ byte_two out.bytes si.constraint (bits_of 8 si.level ++ fields) out_bytes
              p.constraint_byte
              (HasBits-right out.bytes 8 (bits_of 8 si.profile)
                (bits_of 8 si.constraint ++ (bits_of 8 si.level ++ fields)) written))
        (same 3 (omega (arith, fit))
          ∙ byte_three out.bytes si.level fields out_bytes p.level_byte (
              HasBits-right out.bytes 8 (bits_of 8 si.profile ++ bits_of 8 si.constraint)
                (bits_of 8 si.level ++ fields) written))
        plain
        (
          HasBits-ext out.bytes s 32 fields
              (λ q lt. ap (λ b. b / 2 ^ (7 - q % 8) % 2) (same (q / 8) (omega (arith, fields_fit))))
              (HasBits-right out.bytes 8 (head_bits si) fields written),
          fields_fit,
        )
    where
      fit : 4 ≤ slen
      fit = (build_sps_fits si).1

  -- Parsing a synthesized parameter set gives back the fields that it was built from, for a plain
  -- parameter set of a profile without the chroma fields, if the synthesized bytes hold no 3 behind
  -- two zero bytes. Plain is: profile, constraint and level are bytes; the set is valid with a picture
  -- order count of type 0; the width and the height are whole numbers of macroblocks, at most 301 of
  -- them, doubled in height where the frame flag is 0; the identifier, the two lengths and the
  -- reference count are below 2 ^ 25 - 1; the flags are 0 or 1, and that of adaptive frames is 0 with
  -- the frame flag 1; the crop offsets are below 0xFFFF, and 0 without the crop flag.
  pub parse_sps_full-build_sps :
      has_chroma si.profile ≡ false
      → NoEmulation (build_sps si).bytes ((build_sps si).pos / 8)
      → parse_sps_full (build_sps si).bytes ((build_sps si).pos / 8) ≡ si
  unfolding parse_sps_full
  parse_sps_full-build_sps plain clean =
      let (_, lo, hi, _) = build_sps_fits si in
      let (len_is, same) = strip_whole out.bytes slen clean (omega arith) in
      let (q, done) = fields_read (strip slen out.bytes 0 unstripped).bytes plain same in
      let long : ltb slen 4 ≡ false = ground arith in
      let short : ltb nal_buf_max slen ≡ false = ground arith in
      rw (long, short, len_is, long, done)
