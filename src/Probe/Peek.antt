-- ===== src/Probe/Peek.antt =====
-- src/ring-capture/peek0401.c: the first chain records of the ring in full, and every NAL of the
-- high-resolution payloads. Its `ring_read` is that of typescan.c. An `int` is its 32 bits.
pub mod Records
use yi_outdoor_1080p_ptz.Prelude.{
  ℕ, zero, suc, ◌+◌, ◌-◌, ◌*◌, ◌%◌, ◌^◌, Bool, not, ◌&&◌, ◌||◌, List, [], ◌∷◌, ◌++◌, Option, none,
  some, ltb, leb, ◌==◌, if◌then◌else◌, take, drop, get_or, min,
}
use yi_outdoor_1080p_ptz.Memory.{Buf, of_le, u32, sub32}
use yi_outdoor_1080p_ptz.Fshare.Layout.{data_sz, hdr_u32}
use yi_outdoor_1080p_ptz.Emit.Scan.{is_start}
use yi_outdoor_1080p_ptz.TypeScan.{ring_read, bump}

-- A chain record that is printed.
pub record Shown : Type 0 where
  pub kind : ℕ
  pub len : ℕ
  pub bytes : List ℕ

-- `n0400`, `ntl_hist`, and what has been printed, of which `chain_shown` is the number.
pub record Peek : Type 0 where
  pub n0400 : ℕ
  pub ntl_hist : ℕ → ℕ
  pub chain_shown : ℕ
  pub shown : List Shown

-- `for (i = 0; i + 4 < len; i++)`, with the rounds to go.
unfoldable pub count_codes : ℕ → Buf → ℕ → (ℕ → ℕ) → ℕ → ℕ
count_codes zero pl i hist = hist
count_codes (suc rounds) pl i hist =
    count_codes rounds pl (i + 1) (if is_start pl i then bump hist (pl (i + 4) % 32) else hist)

abbrev pub is_chain_kind : ℕ → Bool
is_chain_kind kind = kind == 0x0401 || kind == 0x0404 || kind == 0x0422

-- What is done with the record at `off`.
unfoldable pub peek_record : Buf → ℕ → ℕ → ℕ → Peek → Peek
unfolding count_codes
peek_record m off len kind p =
    if is_chain_kind kind
    then (if ltb p.chain_shown 3
        then record p {
          chain_shown = p.chain_shown + 1;
          shown =
              p.shown
              ++ (record {
                kind = kind;
                len = len;
                bytes = take 160 (ring_read m (u32 (off + 26)) (min len 1024));
              }
                  ∷ []);
        }
        else p)
    else if kind == 0x0400 && leb len (48 * 1024)
    then record p {
      n0400 = p.n0400 + 1;
      ntl_hist =
          count_codes (len - 4) (λ a. get_or (ring_read m (u32 (off + 26)) len) a 0) 0 p.ntl_hist;
    }
    else p

-- The fields of the header at `off` that the probe reads.
abbrev pub peek_len : Buf → ℕ → ℕ
peek_len m off = of_le (take 4 (ring_read m off 26))

abbrev pub peek_kind : Buf → ℕ → ℕ
peek_kind m off = of_le (take 2 (drop 20 (ring_read m off 26)))

-- `while (left > 26)`, for a signed `left`; `none` is that the loop has not ended.
unfoldable pub peek_walk : ℕ → Buf → ℕ → ℕ → Peek → Option Peek
unfolding peek_record
peek_walk zero m off left p = none
peek_walk (suc fuel) m off left p =
    let len = peek_len m off in
    let rest =
      peek_walk fuel m (u32 (off + 26 + len) % data_sz) (sub32 left (u32 (26 + len)))
        (peek_record m off len (peek_kind m off) p) in
    if ltb left (2 ^ 31) && ltb 26 left then rest else some p

abbrev pub peek_nothing : Peek
peek_nothing = record { n0400 = 0; ntl_hist = λ a. 0; chain_shown = 0; shown = [] }

unfoldable pub peek_ring : ℕ → Buf → Option Peek
unfolding peek_walk
peek_ring fuel m = peek_walk fuel m (hdr_u32 m 0x10) (hdr_u32 m 0x04) peek_nothing
