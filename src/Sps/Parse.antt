-- ===== src/Sps/Parse.antt =====
-- `parse_sps_full` of src/fshare2fifo/fshare2fifo.c: the strip of emulation bytes, and the fields in
-- their order. Field `valid` is the source's `ok`. The trace output is left out.
pub mod Strip
pub mod Frame
pub mod Fields
use yi_outdoor_1080p_ptz.Prelude.{
  ℕ, zero, suc, ◌+◌, ◌-◌, ◌*◌, ◌/◌, ◌%◌, ◌^◌, Bool, true, false, not, ◌&&◌, ◌||◌, ltb, leb, ◌==◌,
  if◌then◌else◌, min,
}
use yi_outdoor_1080p_ptz.Memory.{Buf, poke}
use yi_outdoor_1080p_ptz.Sps.Reader.{Bits, ◌>>=◌, ◌>>◌, pure, read_bit, read_ue}
use yi_outdoor_1080p_ptz.Sps.Info.{SpsInfo, blank, nal_buf_max}

pub record Stripped : Type 0 where
  pub bytes : Buf
  pub slen : ℕ

-- The byte at `i` is a 3 behind two zero bytes of the output.
abbrev pub is_emulation : Buf → ℕ → Stripped → Bool
is_emulation d i t =
    leb 2 t.slen && t.bytes (t.slen - 1) == 0 && t.bytes (t.slen - 2) == 0 && d i == 3

unfoldable pub strip_step : Buf → ℕ → Stripped → Stripped
strip_step d i t =
    if is_emulation d i t
    then t
    else record { bytes = poke t.bytes t.slen (d i); slen = t.slen + 1 }

-- `for (i = 0; i < len && slen < sizeof(stripped); i++)`, with the rounds left.
unfoldable pub strip : ℕ → Buf → ℕ → Stripped → Stripped
strip zero d i t = t
strip (suc left) d i t =
    let rest = strip left d (i + 1) (strip_step d i t) in if ltb t.slen nal_buf_max then rest else t

-- The profiles that carry the chroma and scaling fields.
unfoldable pub has_chroma : ℕ → Bool
has_chroma p =
    p == 100
    || p == 110
    || p == 122
    || p == 244
    || p == 44
    || p == 83
    || p == 86
    || p == 118
    || p == 128
    || p == 138
    || p == 139
    || p == 134
    || p == 135

module _ (s : Buf) (slen : ℕ) where
  abbrev ue : Bits ℕ
  ue = read_ue s slen

  abbrev bit : Bits ℕ
  bit = read_bit s slen

  -- The entries of one scaling list.
  unfoldable pub skip_list : ℕ → ℕ → ℕ → Bits (Unit {0})
  skip_list zero last nxt pos = (tt, pos)
  skip_list (suc n) last nxt pos =
      let (v, p) = ue pos in
      let next = if nxt == 0 then 0 else (last + v) % 2 ^ 32 % 256 in
      let pos' = if nxt == 0 then pos else p in
      skip_list n (if next == 0 then last else next) next pos'

  -- `for (m = 0; m < count; m++)`, with the rounds left and `m`.
  unfoldable pub skip_lists : ℕ → ℕ → Bits (Unit {0})
  skip_lists zero m pos = (tt, pos)
  skip_lists (suc left) m pos =
      let (present, p) = bit pos in
      let (_, q) = skip_list (if ltb m 6 then 16 else 64) 8 8 p in
      skip_lists left (m + 1) (if present == 0 then p else q)

  unfoldable pub skip_chroma : Bits (Unit {0})
  skip_chroma = do
    chroma ← ue
    if chroma == 3 then bit else pure 0
    ue
    ue
    bit
    matrix ← bit
    if matrix == 0 then pure tt else skip_lists (if chroma == 3 then 12 else 8) 0

  -- A number of exp-Golomb codes.
  unfoldable pub skip_ues : ℕ → Bits (Unit {0})
  skip_ues zero = pure tt
  skip_ues (suc n) = do ue; skip_ues n

  -- `poc_type` and `poc_lsb`, from the type that was read.
  unfoldable pub read_poc : ℕ → Bits (ℕ × ℕ)
  read_poc t =
      if t == 0
      then (do lsb ← ue; pure (0, lsb))
      else if t == 1
      then (do bit; ue; ue; n ← ue; skip_ues (min n 255); pure (9, 0))
      else pure (t, 0)

  unfoldable pub read_crop : SpsInfo → Bits SpsInfo
  read_crop si = do
    c0 ← ue
    c1 ← ue
    c2 ← ue
    c3 ← ue
    pure (record si {
      crop0 = c0;
      crop1 = c1;
      crop2 = c2;
      crop3 = c3;
      valid = if c0 == 0xFFFF || c1 == 0xFFFF || c2 == 0xFFFF || c3 == 0xFFFF then 0 else 1;
    })

  -- From `frame_mbs_only` on, behind the two dimensions.
  unfoldable pub read_frame : SpsInfo → ℕ → ℕ → Bits SpsInfo
  read_frame si wv hv = do
    fmbo ← bit
    mb ← if fmbo == 0 then bit else pure 0
    d8 ← bit
    crop ← bit
    let si' : SpsInfo = record si {
      w = (wv + 1) * 16;
      h = if fmbo == 0 then (hv + 1) * 16 * 2 else (hv + 1) * 16;
      fmbo = fmbo;
      mb_adaptive = mb;
      direct8x8 = d8;
      crop_flag = crop;
    }
    if crop == 0 then pure (record si' { valid = 1 }) else read_crop si'

  -- A dimension that the parser gives up on.
  abbrev pub bad_dims : ℕ → ℕ → Bool
  bad_dims wv hv = wv == 0xFFFF || hv == 0xFFFF || ltb 300 wv || ltb 300 hv

  unfoldable pub read_fields : Bits SpsInfo
  read_fields = do
    sps_id ← ue
    if has_chroma (s 1) then skip_chroma else pure tt
    log2frm ← ue
    t ← ue
    poc ← read_poc t
    max_ref ← ue
    bit
    wv ← ue
    hv ← ue
    let si : SpsInfo = record blank {
      profile = s 1;
      constraint = s 2;
      level = s 3;
      sps_id = sps_id;
      log2frm = log2frm;
      poc_type = poc.0;
      poc_lsb = poc.1;
      max_ref = max_ref;
    }
    if bad_dims wv hv then pure si else read_frame si wv hv

abbrev pub unstripped : Stripped
unstripped = record { bytes = λ _. 0; slen = 0 }

unfoldable pub parse_sps_full : Buf → ℕ → SpsInfo
parse_sps_full d len =
    let t = strip len d 0 unstripped in
    if ltb len 4 || ltb nal_buf_max len
    then blank
    else if ltb t.slen 4
    then blank
    else (read_fields t.bytes t.slen 32).0
