-- ===== src/Sps/Parse/Fields.antt =====
-- The parser's fields over the bits that the synthesis writes.
use yi_outdoor_1080p_ptz.Prelude.{
  ℕ, ◌+◌, ◌≡◌, ap, ◌∙◌, List, ◌++◌, append_assoc, arith, length, false,
}
use mathlib.Core.Path.{subst}
use yi_outdoor_1080p_ptz.Memory.{Buf}
use yi_outdoor_1080p_ptz.Sps.Info.{SpsInfo}
use yi_outdoor_1080p_ptz.Sps.Reader.{read_bit, read_ue}
use yi_outdoor_1080p_ptz.Sps.Reader.Reads.{Ahead, Reads-ue}
use yi_outdoor_1080p_ptz.Sps.Codes.{bits_of, ue_code}
use yi_outdoor_1080p_ptz.Sps.Build.Layout.{IsPlain, number_bits, frame_bits}
use yi_outdoor_1080p_ptz.Sps.Parse.{has_chroma, read_poc, read_frame, bad_dims, read_fields}
use yi_outdoor_1080p_ptz.Sps.Parse.Frame.{advance, Reads-flag, so_far, read_frame_lem}

-- Brackets of eight strings and a rest, moved to the right.
eight_assoc :
    (a b c d e f g h r : List ℕ)
    → (a ++ (b ++ (c ++ (d ++ (e ++ (f ++ (g ++ h))))))) ++ r
      ≡ a ++ (b ++ (c ++ (d ++ (e ++ (f ++ (g ++ (h ++ r)))))))
eight_assoc a b c d e f g h r = simp append_assoc

module _ (s : Buf) (slen : ℕ) where
  module _ (si : SpsInfo) (wv hv : ℕ) (p : IsPlain si wv hv) where
    read_poc_lem :
        (pos : ℕ) (rest : List ℕ)
        → Ahead s slen pos (ue_code si.poc_lsb ++ rest)
        → (read_poc s slen 0 pos ≡ ((0, si.poc_lsb), pos + length (ue_code si.poc_lsb)))
          × Ahead s slen (pos + length (ue_code si.poc_lsb)) rest
    unfolding read_poc
    read_poc_lem pos rest a =
        let (e, a') =
          advance s slen (read_ue s slen) (ue_code si.poc_lsb) rest si.poc_lsb pos
            (Reads-ue s slen si.poc_lsb (omega (arith, p.poc_lsb_fits))) a in
        (rw e, a')

    -- The parser's fields, one after the other.
    read_fields_run :
        (pos p1 p2 p3 p4 p5 p6 p7 p8 q : ℕ)
        → s 1 ≡ si.profile
        → s 2 ≡ si.constraint
        → s 3 ≡ si.level
        → has_chroma si.profile ≡ false
        → read_ue s slen pos ≡ (si.sps_id, p1)
        → read_ue s slen p1 ≡ (si.log2frm, p2)
        → read_ue s slen p2 ≡ (0, p3)
        → read_poc s slen 0 p3 ≡ ((0, si.poc_lsb), p4)
        → read_ue s slen p4 ≡ (si.max_ref, p5)
        → read_bit s slen p5 ≡ (0, p6)
        → read_ue s slen p6 ≡ (wv, p7)
        → read_ue s slen p7 ≡ (hv, p8)
        → read_frame s slen (so_far s slen si wv hv p) wv hv p8 ≡ (si, q)
        → read_fields s slen pos ≡ (si, q)
    unfolding read_fields
    read_fields_run pos p1 p2 p3 p4 p5 p6 p7 p8 q b1 b2 b3 plain e1 e2 e3 e4 e5 e6 e7 e8 done =
        rw (b1, b2, b3, plain, e1, e2, e3, e4, e5, e6, e7, e8, good) done
      where
        good : bad_dims s slen wv hv ≡ false
        good = ground (arith, p.w_fits, p.h_fits)

    -- The parser's fields, over the bits of a parameter set without the chroma fields.
    pub read_fields_lem :
        (pos : ℕ)
        → s 1 ≡ si.profile
        → s 2 ≡ si.constraint
        → s 3 ≡ si.level
        → has_chroma si.profile ≡ false
        → Ahead s slen pos (number_bits si wv hv ++ frame_bits si)
        → (q : ℕ) × (read_fields s slen pos ≡ (si, q))
    read_fields_lem pos b1 b2 b3 plain ahead =
        let p1 : ℕ = pos + length (ue_code si.sps_id) in
        let p2 : ℕ = p1 + length (ue_code si.log2frm) in
        let p3 : ℕ = p2 + length (ue_code si.poc_type) in
        let p4 : ℕ = p3 + length (ue_code si.poc_lsb) in
        let p5 : ℕ = p4 + length (ue_code si.max_ref) in
        let p6 : ℕ = p5 + 1 in
        let p7 : ℕ = p6 + length (ue_code wv) in
        let p8 : ℕ = p7 + length (ue_code hv) in
        let r7 : List ℕ = ue_code hv ++ frame_bits si in
        let r6 : List ℕ = ue_code wv ++ r7 in
        let r5 : List ℕ = bits_of 1 0 ++ r6 in
        let r4 : List ℕ = ue_code si.max_ref ++ r5 in
        let r3 : List ℕ = ue_code si.poc_lsb ++ r4 in
        let r2 : List ℕ = ue_code si.poc_type ++ r3 in
        let r1 : List ℕ = ue_code si.log2frm ++ r2 in
        let (e1, a1) =
          advance s slen (read_ue s slen) (ue_code si.sps_id) r1 si.sps_id pos
            (Reads-ue s slen si.sps_id (omega (arith, p.sps_id_fits)))
            (subst (Ahead s slen pos) regroup ahead) in
        let (e2, a2) =
          advance s slen (read_ue s slen) (ue_code si.log2frm) r2 si.log2frm p1
            (Reads-ue s slen si.log2frm (omega (arith, p.log2frm_fits))) a1 in
        let (e3, a3) =
          advance s slen (read_ue s slen) (ue_code si.poc_type) r3 si.poc_type p2
            (Reads-ue s slen si.poc_type (omega (arith, p.poc_zero))) a2 in
        let e3' : read_ue s slen p2 ≡ (0, p3) = e3 ∙ ap (λ t. (t, p3)) p.poc_zero in
        let (e4, a4) = read_poc_lem p3 r4 a3 in
        let (e5, a5) =
          advance s slen (read_ue s slen) (ue_code si.max_ref) r5 si.max_ref p4
            (Reads-ue s slen si.max_ref (omega (arith, p.max_ref_fits))) a4 in
        let (e6, a6) =
          advance s slen (read_bit s slen) (bits_of 1 0) r6 0 p5 (Reads-flag s slen 0 (omega arith))
            a5 in
        let (e7, a7) =
          advance s slen (read_ue s slen) (ue_code wv) r7 wv p6
            (Reads-ue s slen wv (omega (arith, p.w_fits))) a6 in
        let (e8, a8) =
          advance s slen (read_ue s slen) (ue_code hv) (frame_bits si) hv p7
            (Reads-ue s slen hv (omega (arith, p.h_fits))) a7 in
        let (q, done) = read_frame_lem s slen si wv hv p p8 a8 in
        (
          q,
          read_fields_run pos p1 p2 p3 p4 p5 p6 p7 p8 q b1 b2 b3 plain e1 e2 e3' e4 e5 e6 e7 e8
              done,
        )
      where
        regroup :
            number_bits si wv hv ++ frame_bits si
            ≡ ue_code si.sps_id
              ++ (ue_code si.log2frm
                  ++ (ue_code si.poc_type
                      ++ (ue_code si.poc_lsb
                          ++ (ue_code si.max_ref
                              ++ (bits_of 1 0 ++ (ue_code wv ++ (ue_code hv ++ frame_bits si)))))))
        regroup =
            eight_assoc (ue_code si.sps_id) (ue_code si.log2frm) (ue_code si.poc_type)
              (ue_code si.poc_lsb) (ue_code si.max_ref) (bits_of 1 0) (ue_code wv) (ue_code hv)
              (frame_bits si)
