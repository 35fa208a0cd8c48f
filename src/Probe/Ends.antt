-- ===== src/Probe/Ends.antt =====
-- src/ring-capture/endprobe.c: what lies at the ends that the writer publishes. The size of the
-- mapping is an argument.
pub mod Distance
use yi_outdoor_1080p_ptz.Prelude.{
  ℕ, zero, suc, ◌+◌, ◌-◌, ◌*◌, ◌/◌, ◌^◌, Bool, true, false, ◌&&◌, List, [], ◌∷◌, ◌++◌, Option, none,
  some, ltb, leb, ◌==◌, if◌then◌else◌, take, drop, get_or,
}
use yi_outdoor_1080p_ptz.Memory.{Buf, of_le, sub32}
use yi_outdoor_1080p_ptz.Fshare.Layout.{hdr_u32}

-- `DATA_BASE` and `NBYTES`
abbrev pub end_base : ℕ
end_base = 0x100

abbrev pub end_bytes : ℕ
end_bytes = 40

-- `p >= buf_size`: one step round the end of the mapping, to `DATA_BASE`.
unfoldable pub end_pos : ℕ → ℕ → ℕ → ℕ
end_pos size pos i = if leb size (pos + i) then end_base + (pos + i - size) else pos + i

-- `ring_read`, from byte `i` on.
unfoldable pub read_end : Buf → ℕ → ℕ → ℕ → ℕ → List ℕ
unfolding end_pos
read_end m size pos zero i = []
read_end m size pos (suc n) i = m (end_pos size pos i) ∷ read_end m size pos n (i + 1)

-- The integers: `pos n` is n and `negsuc n` is -(n + 1).
pub data ℤ : Type 0 where
  pos : ℕ → ℤ
  negsuc : ℕ → ℤ

-- `(int)` of a `uint32_t`
unfoldable pub int_of : ℕ → ℤ
int_of v = if ltb v (2 ^ 31) then pos v else negsuc (2 ^ 32 - 1 - v)

-- `d < -n`, `d > n`, `d + n` and `d - n`, for a natural number `n`.
unfoldable pub below_minus : ℤ → ℕ → Bool
below_minus (pos d) n = false
below_minus (negsuc d) n = ltb n (d + 1)

unfoldable pub exceeds : ℤ → ℕ → Bool
exceeds (pos d) n = ltb n d
exceeds (negsuc d) n = false

unfoldable pub plus : ℤ → ℕ → ℤ
plus (pos d) n = pos (d + n)
plus (negsuc d) n = if ltb d n then pos (n - 1 - d) else negsuc (d - n)

unfoldable pub minus : ℤ → ℕ → ℤ
minus (pos d) n = if ltb d n then negsuc (n - 1 - d) else pos (d - n)
minus (negsuc d) n = negsuc (d + n)

unfoldable pub ring_delta : ℕ → ℕ → ℕ → ℤ
unfolding int_of below_minus exceeds plus minus
ring_delta size a b =
    let d = int_of (sub32 b a) in
    let d' = if below_minus d (size / 2) then plus d size else d in
    if exceeds d' (size / 2) then minus d' size else d'

-- What `classify` prints of the bytes.
pub data Found : Type 0 where
  record_found : ℕ → ℕ → Found
  short_code : Found
  long_code : Found
  no_code : Found

unfoldable pub classify : List ℕ → Found
classify b =
    let magic = of_le (take 4 (drop 6 b)) in
    let at = λ (i : ℕ). get_or b i 0 in
    if magic / 2 ^ 16 == 0x6a8c
    then record_found magic (of_le (take 2 (drop 18 b)))
    else if at 0 == 0 && at 1 == 0 && at 2 == 1
    then short_code
    else if at 0 == 0 && at 1 == 0 && at 2 == 0 && at 3 == 1
    then long_code
    else no_code

-- What is printed for an end that has moved: the word of the header, its values, the distance, the
-- word at 0x04, and what lies there.
pub record End : Type 0 where
  pub word : ℕ
  pub was : ℕ
  pub now : ℕ
  pub delta : ℤ
  pub a04 : ℕ
  pub found : Found
  pub bytes : List ℕ

-- `if (have && ring_delta(prev, a) > 512)`
unfoldable pub end_moved : Buf → ℕ → ℕ → ℕ → ℕ → List End
unfolding ring_delta classify read_end
end_moved m size word was now =
    if exceeds (ring_delta size was now) 512
    then record {
      word = word;
      was = was;
      now = now;
      delta = ring_delta size was now;
      a04 = hdr_u32 m 4;
      found = classify (read_end m size now end_bytes 0);
      bytes = read_end m size now end_bytes 0;
    }
      ∷ []
    else []

-- The main loop, over the images that it finds; `none` is `!have`, else `prev0c` and `prev10`.
unfoldable pub watch_ends : ℕ → Option (ℕ × ℕ) → List Buf → List End
unfolding end_moved
watch_ends size prev [] = []
watch_ends size none (m ∷ later) = watch_ends size (some (hdr_u32 m 12, hdr_u32 m 16)) later
watch_ends size (some (was0c, was10)) (m ∷ later) =
    end_moved m size 12 was0c (hdr_u32 m 12)
    ++ (end_moved m size 16 was10 (hdr_u32 m 16)
        ++ watch_ends size (some (hdr_u32 m 12, hdr_u32 m 16)) later)
