-- ===== src/Fshare/Claim/Choice.antt =====
-- Which slot a claim takes, and what it writes.
use yi_outdoor_1080p_ptz.Prelude.{
  ℕ, zero, suc, ◌+◌, ◌%◌, ◌^◌, ◌≤◌, ◌<◌, ◌≡◌, ◌⊎◌, inl, inr, refl, Bool, true, false, Option, none,
  some, arith, ◌==◌, Bool-cases, sym, ◌∙◌,
}
use yi_outdoor_1080p_ptz.Memory.{Buf, IsBytes}
use yi_outdoor_1080p_ptz.Fshare.Layout.{slot_off, hdr_seq, hdr_tail, hdr_valid, hdr_u32, hdr_wr_u32}
use yi_outdoor_1080p_ptz.Fshare.Layout.Slots.{
  hdr_u32-hdr_wr_u32_self, hdr_u32-hdr_wr_u32_ne, hdr_u32-hdr_wr_u16_ne, hdr_wr_u32_outside,
  hdr_wr_u16_outside, hdr_u16-hdr_wr_u16_self,
}
use yi_outdoor_1080p_ptz.Fshare.Record.Bounds.{hdr_u32-lt, rec_at-seq_lt}
use yi_outdoor_1080p_ptz.Fshare.Record.{rec_at, next_off, next_left}
use yi_outdoor_1080p_ptz.Fshare.Claim.{
  Claimed, filter_of, join_scan, join_cursor, seed, take_slot, occupied, claim_from, claim_slot,
}

-- Outside the 16 bytes of slot `k`.
abbrev pub OtherSlot : ℕ → ℕ → Type 0
OtherSlot k a = (a < slot_off k) ⊎ (slot_off k + 16 ≤ a)

-- Slot `k` is claimed: pending, with our filter, and its cursor word is the reader's cursor. No
-- byte outside the slot has changed.
pub record IsClaimed (audio : Bool) (m : Buf) (k : ℕ) (c : Claimed) : Type 0 where
  pub slot_is : c.slot ≡ k
  pub pending : hdr_u32 c.mem (slot_off k) ≡ 1
  pub filter_is : hdr_u32 c.mem (slot_off k + 12) % 2 ^ 16 ≡ filter_of audio
  pub mirrored : hdr_u32 c.mem (slot_off k + 8) ≡ c.cursor
  pub elsewhere : (a : ℕ) → OtherSlot k a → c.mem a ≡ m a

-- The slots from `first` on, up to `k` and without it, are occupied.
abbrev pub AllOccupied : Bool → Buf → ℕ → ℕ → Type 0
AllOccupied audio m first k = (j : ℕ) → first ≤ j → j < k → occupied audio m j ≡ true

join_scan-lt :
    (fuel : ℕ) (m : Buf) (newest best off left : ℕ)
    → IsBytes m
    → best < 2 ^ 32
    → join_scan fuel m newest best off left < 2 ^ 32
unfolding join_scan
join_scan-lt zero m newest best off left b h = h
join_scan-lt (suc fuel) m newest best off left b h = ground (
  arith,
  rec_at-seq_lt m off b,
  join_scan-lt fuel m newest (rec_at m off).seq (next_off off (rec_at m off))
      (next_left left (rec_at m off)) b,
  join_scan-lt fuel m newest best (next_off off (rec_at m off)) (next_left left (rec_at m off)) b h,
)

join_cursor-lt : (audio : Bool) (m : Buf) → IsBytes m → join_cursor audio m < 2 ^ 32
unfolding join_cursor
join_cursor-lt audio m b = ground (
  arith,
  join_scan-lt (hdr_u32 m hdr_valid) m (hdr_u32 m hdr_seq) 0 (hdr_u32 m hdr_tail)
      (hdr_u32 m hdr_valid) b,
)

seed-lt : (audio : Bool) (m : Buf) → IsBytes m → seed audio (join_cursor audio m) m < 2 ^ 32
seed-lt audio m b = ground (arith, join_cursor-lt audio m b, hdr_u32-lt m hdr_seq b)

-- A claim stores into its own slot.
pub take_slot-OtherSlot :
    (audio : Bool) (m : Buf) (k a : ℕ) → OtherSlot k a → (take_slot audio m k).mem a ≡ m a
unfolding take_slot
take_slot-OtherSlot audio m k a o =
    hdr_wr_u16_outside _ (slot_off k + 12) _ a (omega arith)
    ∙ hdr_wr_u32_outside _ (slot_off k) 1 a (omega arith)
    ∙ hdr_wr_u32_outside m (slot_off k + 8) _ a (omega arith)

module _ (audio : Bool) (m : Buf) (k : ℕ) (b : IsBytes m) where
  abbrev seeded : ℕ
  seeded = seed audio (join_cursor audio m) m

  abbrev m1 : Buf
  m1 = hdr_wr_u32 m (slot_off k + 8) seeded

  abbrev m2 : Buf
  m2 = hdr_wr_u32 m1 (slot_off k) 1

  -- The stores into the slot leave the newest number.
  seed_again : seed audio (join_cursor audio m) m2 ≡ seeded
  seed_again = ground (
    arith,
    hdr_u32-hdr_wr_u32_ne m1 (slot_off k) 1 hdr_seq (inl (omega arith)),
    hdr_u32-hdr_wr_u32_ne m (slot_off k + 8) seeded hdr_seq (inl (omega arith)),
  )

  pub take_slot-IsClaimed : IsClaimed audio m k (take_slot audio m k)
  unfolding take_slot
  take_slot-IsClaimed = record {
    slot_is = refl;
    pending =
        hdr_u32-hdr_wr_u16_ne m2 (slot_off k + 12) _ (slot_off k) (inl (omega arith))
        ∙ hdr_u32-hdr_wr_u32_self m1 (slot_off k) 1 (omega arith);
    filter_is = hdr_u16-hdr_wr_u16_self m2 (slot_off k + 12) (filter_of audio) (ground arith);
    mirrored =
        hdr_u32-hdr_wr_u16_ne m2 (slot_off k + 12) _ (slot_off k + 8) (inl (omega arith))
        ∙ hdr_u32-hdr_wr_u32_ne m1 (slot_off k) 1 (slot_off k + 8) (inr (omega arith))
        ∙ hdr_u32-hdr_wr_u32_self m (slot_off k + 8) seeded (seed-lt audio m b)
        ∙ sym seed_again;
    elsewhere = take_slot-OtherSlot audio m k;
  }

-- The result of trying `n` slots from `first` on.
abbrev pub ClaimSpec : Bool → Buf → ℕ → ℕ → Option Claimed → Type 0
ClaimSpec audio m first n none = AllOccupied audio m first (first + n)
ClaimSpec audio m first n (some c) =
    (first ≤ c.slot)
    × (c.slot < first + n)
    × AllOccupied audio m first c.slot
    × (occupied audio m c.slot ≡ false)
    × IsClaimed audio m c.slot c

AllOccupied-cons :
    (audio : Bool) (m : Buf) (first k : ℕ)
    → occupied audio m first ≡ true
    → AllOccupied audio m (first + 1) k
    → AllOccupied audio m first k
AllOccupied-cons audio m first k o rest j p q = elim (Bool-cases (first == j)) [
  | inl same ↦ let e : first ≡ j = ground arith in rw e at o
  | inr other ↦ rest j (ground arith) q
]

ClaimSpec-cons :
    (audio : Bool) (m : Buf) (first n : ℕ) (o : Option Claimed)
    → occupied audio m first ≡ true
    → ClaimSpec audio m (first + 1) n o
    → ClaimSpec audio m first (suc n) o
ClaimSpec-cons audio m first n none o rest =
    λ j p q. AllOccupied-cons audio m first (first + 1 + n) o rest j p (omega arith)
ClaimSpec-cons audio m first n (some c) o (lo, hi, before, free, done) =
    (omega arith, omega arith, AllOccupied-cons audio m first c.slot o before, free, done)

pub claim_from-ClaimSpec :
    (n : ℕ) (audio : Bool) (m : Buf) (first : ℕ)
    → IsBytes m
    → ClaimSpec audio m first n (claim_from n audio m first)
unfolding claim_from
claim_from-ClaimSpec zero audio m first b = λ j p q. absurd (omega arith)
claim_from-ClaimSpec (suc n) audio m first b = elim (Bool-cases (occupied audio m first)) [
  | inl o ↦ rw o (ClaimSpec-cons audio m first n _ o (claim_from-ClaimSpec n audio m (first + 1) b))
  | inr free ↦ rw free (taken free (take_slot-IsClaimed audio m first b))
]
  where
    taken :
        occupied audio m first ≡ false
        → IsClaimed audio m first (take_slot audio m first)
        → ClaimSpec audio m first (suc n) (some (take_slot audio m first))
    taken free c =
        unfold take_slot in (omega arith, omega arith, λ j p q. absurd (omega arith), free, c)

-- Without a wanted slot a claim takes the first of the slots 10 to 14 that holds no filter or a
-- filter of our own mode: the slot is then pending, holds our filter, and its cursor word is the
-- reader's cursor; no byte outside the slot has changed. There is no claim exactly if each of the
-- five slots holds another filter. With a wanted slot the same holds of that slot alone.
pub claim_slot-ClaimSpec :
    (audio : Bool) (m : Buf)
    → IsBytes m
    → ClaimSpec audio m 10 5 (claim_slot audio m none)
      × ((k : ℕ) → ClaimSpec audio m k 1 (claim_slot audio m (some k)))
unfolding claim_slot
claim_slot-ClaimSpec audio m b =
    (claim_from-ClaimSpec 5 audio m 10 b, λ k. claim_from-ClaimSpec 1 audio m k b)
