-- ===== src/Fshare/Claim/Release.antt =====
-- What `release_slot` of src/fshare2fifo/fshare2fifo.c leaves of its slot.
use yi_outdoor_1080p_ptz.Prelude.{
  ℕ, ◌+◌, ◌%◌, ◌^◌, ◌≡◌, inl, inr, refl, Bool, false, none, some, arith, ◌∙◌,
}
use yi_outdoor_1080p_ptz.Memory.{Buf}
use yi_outdoor_1080p_ptz.Fshare.Layout.{slot_off, hdr_u32, hdr_wr_u32, hdr_wr_u16}
use yi_outdoor_1080p_ptz.Fshare.Layout.Slots.{
  hdr_u32-hdr_wr_u32_self, hdr_u32-hdr_wr_u32_ne, hdr_wr_u32_outside, hdr_wr_u16_outside,
  hdr_u16-hdr_wr_u16_self,
}
use yi_outdoor_1080p_ptz.Fshare.Claim.{occupied, release_slot}
use yi_outdoor_1080p_ptz.Fshare.Claim.Choice.{OtherSlot}

module _ (m : Buf) (k : ℕ) where
  abbrev r1 : Buf
  r1 = hdr_wr_u16 m (slot_off k + 12) 0

  abbrev r2 : Buf
  r2 = hdr_wr_u32 r1 (slot_off k) 0

  abbrev r3 : Buf
  r3 = hdr_wr_u32 r2 (slot_off k + 4) 0

  release_filter : hdr_u32 (release_slot m (some k)).mem (slot_off k + 12) % 2 ^ 16 ≡ 0
  unfolding release_slot
  release_filter =
      rw
        (
          hdr_u32-hdr_wr_u32_ne r3 (slot_off k + 8) 0 (slot_off k + 12) (inr (omega arith)),
          hdr_u32-hdr_wr_u32_ne r2 (slot_off k + 4) 0 (slot_off k + 12) (inr (omega arith)),
          hdr_u32-hdr_wr_u32_ne r1 (slot_off k) 0 (slot_off k + 12) (inr (omega arith)),
        )
        (hdr_u16-hdr_wr_u16_self m (slot_off k + 12) 0 (omega arith))

  -- A release leaves its slot free for either mode, not pending and with the cursor word 0,
  -- changes no byte outside the slot, and leaves the reader without a slot.
  pub release_slot_frees :
      ((audio : Bool) → occupied audio (release_slot m (some k)).mem k ≡ false)
      × (hdr_u32 (release_slot m (some k)).mem (slot_off k) ≡ 0)
      × (hdr_u32 (release_slot m (some k)).mem (slot_off k + 8) ≡ 0)
      × ((a : ℕ) → OtherSlot k a → (release_slot m (some k)).mem a ≡ m a)
      × ((release_slot m (some k)).slot ≡ none)
  unfolding release_slot
  release_slot_frees = (
    λ audio. unfold occupied in rw release_filter,
    hdr_u32-hdr_wr_u32_ne r3 (slot_off k + 8) 0 (slot_off k) (inl (omega arith))
        ∙ hdr_u32-hdr_wr_u32_ne r2 (slot_off k + 4) 0 (slot_off k) (inl (omega arith))
        ∙ hdr_u32-hdr_wr_u32_self r1 (slot_off k) 0 (omega arith),
    hdr_u32-hdr_wr_u32_self r3 (slot_off k + 8) 0 (omega arith),
    λ a o.
        hdr_wr_u32_outside r3 (slot_off k + 8) 0 a (omega arith)
        ∙ hdr_wr_u32_outside r2 (slot_off k + 4) 0 a (omega arith)
        ∙ hdr_wr_u32_outside r1 (slot_off k) 0 a (omega arith)
        ∙ hdr_wr_u16_outside m (slot_off k + 12) 0 a (omega arith),
    refl,
  )
