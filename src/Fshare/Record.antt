-- ===== src/Fshare/Record.antt =====
-- The record header and the filter test of src/fshare2fifo/fshare2fifo.c (`rec_hdr`, `magic_ok`,
-- `entry_wanted`), and the guards that both scans of the ring share.
pub mod Bounds
pub mod Freshness
use Prim.Native.Nat.{bit_and}
use yi_outdoor_1080p_ptz.Prelude.{
  ℕ, ◌+◌, ◌/◌, ◌%◌, ◌^◌, List, Bool, true, false, not, ◌&&◌, ◌||◌, ltb, leb, ◌==◌, if◌then◌else◌,
  take, drop,
}
use yi_outdoor_1080p_ptz.Memory.{Buf, of_le, u32, sub32}
use yi_outdoor_1080p_ptz.Fshare.Layout.{data_sz, max_pay, ring_copy}

pub record RecHdr : Type 0 where
  pub len : ℕ
  pub seq : ℕ
  pub magic : ℕ
  pub cookie : ℕ
  pub ts : ℕ
  pub kind : ℕ
  pub chain : ℕ
  pub extra : ℕ

-- `sizeof(rec_hdr)`: 26 bytes of fields, and two of padding that the copy fills too.
abbrev pub rec_hdr_size : ℕ
rec_hdr_size = 28

unfoldable pub decode : List ℕ → RecHdr
decode bs = record {
  len = of_le (take 4 bs);
  seq = of_le (take 4 (drop 4 bs));
  magic = of_le (take 4 (drop 8 bs));
  cookie = of_le (take 4 (drop 12 bs));
  ts = of_le (take 4 (drop 16 bs));
  kind = of_le (take 2 (drop 20 bs));
  chain = of_le (take 2 (drop 22 bs));
  extra = of_le (take 2 (drop 24 bs));
}

-- `ring_copy(off, &h, sizeof(h))`
unfoldable pub rec_at : Buf → ℕ → RecHdr
unfolding decode ring_copy
rec_at m off = decode (ring_copy m off rec_hdr_size)

unfoldable pub magic_ok : ℕ → Bool
magic_ok m = leb 0x6a00 (m / 2 ^ 16) && leb (m / 2 ^ 16) 0x6aff

-- The subtype and class tests. `x & 0x0F` is `x % 16`.
unfoldable pub class_wanted : ℕ → RecHdr → Bool
class_wanted filter h =
    if not (filter % 16 == 0) && not (filter % 16 == h.kind % 16)
    then false
    else not (bit_and h.kind (bit_and filter 0xFF00) == 0)

-- The number after the cursor; 0 is never asked for.
unfoldable pub want_after : ℕ → ℕ
want_after cursor = if cursor == 0xFFFFFFFF then 1 else cursor + 1

unfoldable pub entry_wanted : ℕ → ℕ → RecHdr → Bool
unfolding want_after
entry_wanted cursor filter h =
    if not (class_wanted filter h)
    then false
    else if cursor == 0
    then true
    else leb (sub32 h.seq (want_after cursor)) 0x7FFFFFFE

-- The guards of a scan at `off` with `left` bytes to go, before the sequence number is looked at.
unfoldable pub readable : Buf → ℕ → ℕ → Bool
unfolding magic_ok
readable m off left =
    let h = rec_at m off in
    if not (ltb 26 left)
    then false
    else if not (magic_ok h.magic)
    then false
    else not (ltb left (u32 (26 + h.len)) || ltb max_pay h.len)

-- The step to the record behind `h`.
abbrev pub next_off : ℕ → RecHdr → ℕ
next_off off h = u32 (off + 26 + h.len) % data_sz

abbrev pub next_left : ℕ → RecHdr → ℕ
next_left left h = sub32 left (u32 (26 + h.len))
