-- ===== src/Fshare/Layout/RingCopy.antt =====
-- `ring_copy` of src/fshare2fifo/fshare2fifo.c against the ring as a circle.
use yi_outdoor_1080p_ptz.Prelude.{
  ℕ, ◌++◌, ap, ◌∙◌, ltb→lt, ◌+◌, ◌-◌, ◌%◌, ◌≤◌, ◌<◌, ◌≡◌, ◌⊎◌, inl, inr, false, List, [], arith,
  ltb, if◌then◌else◌, length, length-append, get_or, get_or-append_left, get_or-append_right,
  Bool-cases,
}
use yi_outdoor_1080p_ptz.Memory.{Buf, read}
use yi_outdoor_1080p_ptz.Memory.Laws.{length-read, get_or-read}
use yi_outdoor_1080p_ptz.Fshare.Layout.{data_off, data_sz, ring_copy}

-- The two pieces of a copy: up to the end of the ring, and from its start.
abbrev pieces : Buf → ℕ → ℕ → ℕ → List ℕ
pieces m off first n =
    read m (data_off + off) first ++ (if ltb first n then read m data_off (n - first) else [])

length-pieces : (m : Buf) (off first n : ℕ) → first ≤ n → length (pieces m off first n) ≡ n
length-pieces m off first n h = ground (
  arith,
  length-append (read m (data_off + off) first) (read m data_off (n - first)),
  length-append (read m (data_off + off) first) [],
  length-read m (data_off + off) first,
  length-read m data_off (n - first),
)

get_or-pieces :
    (m : Buf) (off first n i : ℕ)
    → off + first ≤ data_sz
    → off < data_sz
    → (n ≤ first) ⊎ (first ≡ data_sz - off)
    → n ≤ data_sz
    → i < n
    → get_or (pieces m off first n) i 0 ≡ m (data_off + (off + i) % data_sz)
get_or-pieces m off first n i fits inside cut h lt = elim (Bool-cases (ltb i first)) [
  | inl low ↦
      get_or-append_left (read m (data_off + off) first) _ i 0 (rw length-read (ltb→lt i first low))
      ∙ get_or-read m (data_off + off) first i 0 (ltb→lt i first low)
      ∙ ap m (ground arith)
  | inr high ↦ ground (
    arith,
    get_or-append_right (read m (data_off + off) first) (read m data_off (n - first)) i (i - first)
        0,
    length-read m (data_off + off) first,
    get_or-read m data_off (n - first) (i - first) 0,
    ap m (around high),
  )
]
  where
    around : ltb i first ≡ false → data_off + (i - first) ≡ data_off + (off + i) % data_sz
    around high = ground arith

-- A copy of at most a whole ring has the length asked for.
pub length-ring_copy : (m : Buf) (off n : ℕ) → n ≤ data_sz → length (ring_copy m off n) ≡ n
unfolding ring_copy
length-ring_copy m off n h = ground (
  arith,
  length-pieces m off n n,
  length-pieces m off (data_sz - off) n,
  length-pieces m (off % data_sz) n n,
  length-pieces m (off % data_sz) (data_sz - off % data_sz) n,
)

-- Byte `i` of a copy is the ring's byte `off + i`, counted round the ring.
pub get_or-ring_copy :
    (m : Buf) (off n i : ℕ)
    → n ≤ data_sz
    → i < n
    → get_or (ring_copy m off n) i 0 ≡ m (data_off + (off + i) % data_sz)
unfolding ring_copy
get_or-ring_copy m off n i h lt = ground (
  arith,
  get_or-pieces m off n n i,
  get_or-pieces m off (data_sz - off) n i,
  get_or-pieces m (off % data_sz) n n i,
  get_or-pieces m (off % data_sz) (data_sz - off % data_sz) n i,
)
