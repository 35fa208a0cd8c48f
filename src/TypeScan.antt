-- ===== src/TypeScan.antt =====
-- src/ring-capture/typescan.c, which walks the records of the ring once and counts them by their
-- type, and the NALs of the high-resolution ones by theirs. The counters are taken as unbounded: a
-- ring has no room for 2 ^ 31 records.
pub mod Counts
pub mod Reads
use yi_outdoor_1080p_ptz.Prelude.{
  ℕ, zero, suc, ◌+◌, ◌-◌, ◌*◌, ◌/◌, ◌%◌, ◌^◌, Bool, true, false, not, ◌&&◌, ◌||◌, List, [], ◌∷◌,
  ◌++◌, ltb, leb, ◌==◌, if◌then◌else◌, take, drop, get_or, min,
}
use yi_outdoor_1080p_ptz.Memory.{Buf, read, of_le, poke}
use yi_outdoor_1080p_ptz.Fshare.Layout.{data_off, data_sz, hdr_u32}
use yi_outdoor_1080p_ptz.Emit.Scan.{find_start}

-- Unlike `ring_copy`, it takes an offset behind the end of the ring as it is: `DATA_SZ - off` is
-- then a large number, and the copy goes on behind the ring.
unfoldable pub ring_read : Buf → ℕ → ℕ → List ℕ
ring_read m off n =
    let first = if ltb data_sz off then n else min (data_sz - off) n in
    read m (data_off + off) first ++ (if ltb first n then read m data_off (n - first) else [])

-- `types`, `nt_hist`, `chain_pos`, `idr_since_chain` and the counters.
pub record Tally : Type 0 where
  pub types : ℕ → ℕ
  pub nt_hist : ℕ → ℕ
  pub chain_pos : ℕ → ℕ
  pub idr_since_chain : ℕ → ℕ
  pub nchain : ℕ
  pub nidr : ℕ
  pub last_chain_seq : ℕ
  pub recs_since_chain : ℕ

abbrev pub empty : Tally
empty = record {
  types = λ a. 0;
  nt_hist = λ a. 0;
  chain_pos = λ a. 0;
  idr_since_chain = λ a. 0;
  nchain = 0;
  nidr = 0;
  last_chain_seq = 0;
  recs_since_chain = 0;
}

-- `f[k]++`
abbrev pub bump : (ℕ → ℕ) → ℕ → ℕ → ℕ
bump f k a = if a == k then f a + 1 else f a

-- `if (type == 0x0422)`
unfoldable pub note_chain : ℕ → ℕ → Tally → Tally
note_chain off seq t = record t {
  chain_pos = poke t.chain_pos (t.nchain % 16) off;
  idr_since_chain = poke t.idr_since_chain (if ltb t.nchain 16 then t.nchain else 15) 0;
  last_chain_seq = seq;
  recs_since_chain = 0;
  nchain = t.nchain + 1;
}

-- `nidr++` and the counter of the chain.
unfoldable pub note_idr : Tally → Tally
note_idr t = record t {
  nidr = t.nidr + 1;
  idr_since_chain =
      if ltb 0 t.nchain
      then bump t.idr_since_chain (if leb t.nchain 16 then t.nchain - 1 else 15)
      else t.idr_since_chain;
}

-- The first NAL of a payload, if it has a start code.
unfoldable pub note_nal : Buf → ℕ → Tally → Tally
note_nal pl len t =
    let k = find_start len pl len 0 in
    let nt = pl (k + 4) % 32 in
    if ltb len (k + 4)
    then record t { nt_hist = bump t.nt_hist 31 }
    else if nt == 5
    then note_idr (record t { nt_hist = bump t.nt_hist nt })
    else record t { nt_hist = bump t.nt_hist nt }

-- A record of type `kind`; `stale` is what the stack holds behind the payload.
unfoldable pub note_record : ℕ → Buf → ℕ → ℕ → ℕ → ℕ → Tally → Tally
note_record stale m off len seq kind t =
    let pl : Buf = λ a. get_or (ring_read m (off + 26) len) a stale in
    let t1 : Tally = record t { types = bump t.types kind } in
    let t2 = if kind == 0x0422 then note_chain off seq t1 else t1 in
    let t3 =
      if kind == 0x0400 && leb 5 len && leb len (48 * 1024) then note_nal pl len t2 else t2 in
    if kind / 0x0400 % 2 == 1 then record t3 { recs_since_chain = t3.recs_since_chain + 1 } else t3

-- How the walk ends: too little is left, a bad record, or the fuel.
pub data Halt : Type 0 where
  walked_all : Halt
  bad_record : Halt
  unfinished : Halt

pub record Walked : Type 0 where
  pub halt : Halt
  pub left : ℕ
  pub tally : Tally

-- `while (left > 26)`
unfoldable pub type_walk : ℕ → ℕ → Buf → ℕ → ℕ → Tally → Walked
type_walk zero stale m off left t = record { halt = unfinished; left = left; tally = t }
type_walk (suc fuel) stale m off left t =
    let h = ring_read m off 26 in
    let len = of_le (take 4 h) in
    let seq = of_le (take 4 (drop 4 h)) in
    let kind = of_le (take 2 (drop 20 h)) in
    let rest =
      type_walk fuel stale m ((off + 26 + len) % data_sz) (left - (26 + len))
        (note_record stale m off len seq kind t) in
    if not (ltb 26 left)
    then record { halt = walked_all; left = left; tally = t }
    else if ltb data_sz len || ltb left (len + 26)
    then record { halt = bad_record; left = left; tally = t }
    else rest

-- From the tail, over the valid bytes; `left` is an `int`, and a negative one ends the walk at once.
unfoldable pub type_scan : ℕ → Buf → Walked
type_scan stale m =
    let valid = hdr_u32 m 0x04 in
    let left = if ltb valid (2 ^ 31) then valid else 0 in
    type_walk (left + 1) stale m (hdr_u32 m 0x10) left empty
