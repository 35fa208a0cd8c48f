-- ===== src/Fshare/Claim.antt =====
-- `claim_slot` and `release_slot` of src/fshare2fifo/fshare2fifo.c: the choice of a reader slot, the
-- join scan that seeds its cursor, and the way out.
pub mod Choice
pub mod Release
pub mod Log
pub mod Seed
use yi_outdoor_1080p_ptz.Prelude.{
  ℕ, zero, suc, ◌+◌, ◌-◌, ◌%◌, ◌^◌, Bool, not, ◌&&◌, ◌||◌, Option, none, some, ltb, ◌==◌,
  if◌then◌else◌,
}
use yi_outdoor_1080p_ptz.Memory.{Buf, sub32}
use yi_outdoor_1080p_ptz.Fshare.Layout.{
  slot_off, hdr_tail, hdr_valid, hdr_seq, filter_hires, filter_audio, hdr_u32, hdr_wr_u32,
  hdr_wr_u16,
}
use yi_outdoor_1080p_ptz.Fshare.Record.{RecHdr, rec_at, readable, next_off, next_left}

-- `g_filter`, as `main` sets it from `audio_mode`.
abbrev pub filter_of : Bool → ℕ
filter_of audio = if audio then filter_audio else filter_hires

-- A chain start with records enough behind it. `newest - 4` is a uint32_t.
unfoldable pub chain_start : ℕ → RecHdr → Bool
chain_start newest h = h.kind == 0x0422 && ltb h.seq (sub32 newest 4)

-- The scan for the newest chain start; 0 stands for none.
unfoldable pub join_scan : ℕ → Buf → ℕ → ℕ → ℕ → ℕ → ℕ
join_scan zero m newest best off left = best
join_scan (suc fuel) m newest best off left =
    let h = rec_at m off in
    let best' = if chain_start newest h then h.seq else best in
    let rest = join_scan fuel m newest best' (next_off off h) (next_left left h) in
    if not (readable m off left) || h.seq == newest then best else rest

-- The scan from the tail, less one; audio does not scan.
unfoldable pub join_cursor : Bool → Buf → ℕ
join_cursor audio m =
    let left = hdr_u32 m hdr_valid in
    let best = join_scan left m (hdr_u32 m hdr_seq) 0 (hdr_u32 m hdr_tail) left in
    if audio then 0 else if best == 0 then 0 else best - 1

abbrev pub seed : Bool → ℕ → Buf → ℕ
seed audio best m = if not (best == 0) then best else if audio then 0 else hdr_u32 m hdr_seq

-- What a claim leaves: the memory, `slot_k` and `slot_cursor`.
pub record Claimed : Type 0 where
  pub mem : Buf
  pub slot : ℕ
  pub cursor : ℕ

-- The newest number is read twice, before and after the first two stores.
unfoldable pub take_slot : Bool → Buf → ℕ → Claimed
take_slot audio m k =
    let best = join_cursor audio m in
    let m1 = hdr_wr_u32 m (slot_off k + 8) (seed audio best m) in
    let m2 = hdr_wr_u32 m1 (slot_off k) 1 in
    record {
      mem = hdr_wr_u16 m2 (slot_off k + 12) (filter_of audio);
      slot = k;
      cursor = seed audio best m2;
    }

-- The slot holds a filter that is not ours.
unfoldable pub occupied : Bool → Buf → ℕ → Bool
occupied audio m k =
    let filt = hdr_u32 m (slot_off k + 12) % 2 ^ 16 in
    not (filt == 0) && not (filt == filter_of audio)

-- `for (k = first; k <= last; k++)`, with the number of slots left to try; `none` is "no free slot".
unfoldable pub claim_from : ℕ → Bool → Buf → ℕ → Option Claimed
claim_from zero audio m k = none
claim_from (suc left) audio m k =
    let later = claim_from left audio m (k + 1) in
    if occupied audio m k then later else some (take_slot audio m k)

-- A negative `want_slot` is `none`: slots 10 to 14.
unfoldable pub claim_slot : Bool → Buf → Option ℕ → Option Claimed
claim_slot audio m none = claim_from 5 audio m 10
claim_slot audio m (some k) = claim_from 1 audio m k

-- What a release leaves: the memory and `slot_k`, which is `none` below 0.
pub record Released : Type 0 where
  pub mem : Buf
  pub slot : Option ℕ

unfoldable pub release_slot : Buf → Option ℕ → Released
release_slot m none = record { mem = m; slot = none }
release_slot m (some k) =
    let m1 = hdr_wr_u16 m (slot_off k + 12) 0 in
    let m2 = hdr_wr_u32 m1 (slot_off k) 0 in
    let m3 = hdr_wr_u32 m2 (slot_off k + 4) 0 in
    record { mem = hdr_wr_u32 m3 (slot_off k + 8) 0; slot = none }
