-- ===== src/Probe/Peek/Records.antt =====
-- What src/ring-capture/peek0401.c makes of a ring of whole records, and of a bad length.
use yi_outdoor_1080p_ptz.Prelude.{
  ℕ, zero, suc, ◌+◌, ◌-◌, ◌*◌, ◌%◌, ◌^◌, ◌≤◌, ◌<◌, ◌≡◌, refl, Bool, take, ◌++◌, true, ◌&&◌, List,
  [], ◌∷◌, Option, none, some, arith, ltb, leb, ◌==◌, if◌then◌else◌, min,
}
use yi_outdoor_1080p_ptz.Memory.{Buf, u32, sub32}
use yi_outdoor_1080p_ptz.Fshare.Layout.{data_sz, hdr_u32}
use yi_outdoor_1080p_ptz.TypeScan.{ring_read}
use yi_outdoor_1080p_ptz.Probe.Peek.{
  Shown, Peek, is_chain_kind, peek_record, peek_len, peek_kind, peek_walk, peek_nothing, peek_ring,
}

-- The records, as lengths and types, fill the valid bytes from `off` on, but for 26 at most.
abbrev pub Fill : Buf → ℕ → ℕ → List (ℕ × ℕ) → Type 0
Fill m off left [] = left ≤ 26
Fill m off left ((len, kind) ∷ rs) =
    (peek_len m off ≡ len)
    × (peek_kind m off ≡ kind)
    × (26 < left)
    × (26 + len ≤ left)
    × Fill m (u32 (off + 26 + len) % data_sz) (left - (26 + len)) rs

-- How many records pass a test.
unfoldable pub count_of : (ℕ → ℕ → Bool) → List (ℕ × ℕ) → ℕ
count_of f [] = 0
count_of f ((len, kind) ∷ rs) = (if f len kind then 1 else 0) + count_of f rs

abbrev pub is_high : ℕ → ℕ → Bool
is_high len kind = kind == 0x0400 && leb len (48 * 1024)

abbrev pub is_chain : ℕ → ℕ → Bool
is_chain len kind = is_chain_kind kind

-- What is printed of a chain record at `off`: the first 160 bytes of its payload at most.
abbrev pub printed_of : Buf → ℕ → ℕ → ℕ → Shown
printed_of m off len kind = record {
  kind = kind;
  len = len;
  bytes = take 160 (ring_read m (u32 (off + 26)) (min len 1024));
}

-- The chain records among the records from `off` on, in the order of the ring.
unfoldable pub chain_prints : Buf → ℕ → List (ℕ × ℕ) → List Shown
chain_prints m off [] = []
chain_prints m off ((len, kind) ∷ rs) =
    let rest = chain_prints m (u32 (off + 26 + len) % data_sz) rs in
    if is_chain_kind kind then printed_of m off len kind ∷ rest else rest

-- `q` is `p` with what the records from `off` on add: to the count of payloads, and, as long as fewer
-- than three have been printed, to the chain records that are printed.
abbrev pub Adds : Buf → ℕ → Peek → List (ℕ × ℕ) → Peek → Type 0
Adds m off p rs q =
    (q.n0400 ≡ p.n0400 + count_of is_high rs)
    × (q.chain_shown ≡ min 3 (p.chain_shown + count_of is_chain rs))
    × (q.shown ≡ p.shown ++ take (3 - p.chain_shown) (chain_prints m off rs))

-- The walk has ended.
abbrev pub Tells : Buf → ℕ → Peek → List (ℕ × ℕ) → Option Peek → Type 0
Tells m off p rs none = ⊥
Tells m off p rs (some q) = Adds m off p rs q

stays :
    (fuel : ℕ) (m : Buf) (off left len : ℕ) (p : Peek)
    → off < data_sz
    → 26 < left
    → left < 2 ^ 31
    → 26 + len ≡ 2 ^ 32
    → peek_len m off ≡ len
    → peek_walk fuel m off left p ≡ none
unfolding peek_walk
stays zero m off left len p ho more small wraps l = refl
stays (suc fuel) m off left len p ho more small wraps l =
    let on : ltb 26 left ≡ true = ground arith in
    let within : ltb left (2 ^ 31) ≡ true = ground arith in
    let same_left : sub32 left (u32 (26 + len)) ≡ left = omega arith in
    let same_off : u32 (off + 26 + len) % data_sz ≡ off = omega arith in
    rw (within, on, l, same_left, same_off)
      (stays fuel m off left len (peek_record m off len (peek_kind m off) p) ho more small wraps l)

-- A length of 2 ^ 32 - 26 at the tail keeps the probe there for ever: the offset and the bytes left
-- come out as they were. The tail lies in the ring and there is something to walk over.
pub peek_ring-none :
    (m : Buf) (fuel : ℕ)
    → hdr_u32 m 0x10 < data_sz
    → 26 < hdr_u32 m 0x04
    → hdr_u32 m 0x04 < 2 ^ 31
    → peek_len m (hdr_u32 m 0x10) + 26 ≡ 2 ^ 32
    → peek_ring fuel m ≡ none
unfolding peek_ring
peek_ring-none m fuel ho more small wraps =
    stays fuel m (hdr_u32 m 0x10) (hdr_u32 m 0x04) (peek_len m (hdr_u32 m 0x10)) peek_nothing ho
      more small (omega (arith, wraps)) refl
