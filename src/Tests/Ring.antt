-- ===== src/Tests/Ring.antt =====
-- The ring, the poll and the claim on the image.
use yi_outdoor_1080p_ptz.Prelude.{
  List, [], ◌∷◌, ℕ, ◌+◌, ◌≤◌, ◌≡◌, ◌≢◌, ◌↔◌, refl, inr, true, false, none, some, arith,
}
use yi_outdoor_1080p_ptz.Memory.{Buf, to_le, poke, read, write, sub32}
use yi_outdoor_1080p_ptz.Fshare.Layout.{
  slot_off, hdr_tail, hdr_seq, hdr_valid, filter_hires, hdr_u32, ring_copy,
}
use yi_outdoor_1080p_ptz.Fshare.Record.{
  decode, rec_at, magic_ok, class_wanted, entry_wanted, readable,
}
use yi_outdoor_1080p_ptz.Fshare.Record.Freshness.{entry_wanted_iff}
use yi_outdoor_1080p_ptz.Fshare.Walk.{exhausted, walk, walk_fuel}
use yi_outdoor_1080p_ptz.Fshare.Walk.Log.{complete_records, find_first, find_last}
use yi_outdoor_1080p_ptz.Fshare.Walk.Delivery.{outcome, walk_delivers_first}
use yi_outdoor_1080p_ptz.Fshare.Walk.Ends.{walk-ne-exhausted}
use yi_outdoor_1080p_ptz.Fshare.Poll.{poll}
use yi_outdoor_1080p_ptz.Fshare.Poll.Frame.{poll-Elsewhere}
use yi_outdoor_1080p_ptz.Fshare.Poll.Result.{visible, IsServed, PollSpec, poll-PollSpec}
use yi_outdoor_1080p_ptz.Fshare.Claim.{chain_start, take_slot, claim_slot}
use yi_outdoor_1080p_ptz.Fshare.Claim.Choice.{ClaimSpec, claim_slot-ClaimSpec}
use yi_outdoor_1080p_ptz.Fshare.Claim.Seed.{claim_joins}
use yi_outdoor_1080p_ptz.Fshare.Stall.{Watch, reanchor, stall_watch, note_got, idle_rounds}
use yi_outdoor_1080p_ptz.Fshare.Stall.Patience.{idle_rounds_lem}
use yi_outdoor_1080p_ptz.Tests.Image.{image, image-IsBytes, header_of, first_entry, entries}

image_records : complete_records 60 image 12 0 60 ≡ entries
unfolding complete_records readable magic_ok rec_at decode ring_copy read write poke
image_records = refl

image_valid : hdr_u32 image hdr_valid ≡ 60
unfolding hdr_u32 read write poke
image_valid = refl

image_newest : hdr_u32 image hdr_seq ≡ 12
unfolding hdr_u32 read write poke
image_newest = refl

pub image_tail : hdr_u32 image hdr_tail ≡ 0
unfolding hdr_u32 read write poke
image_tail = refl

pub image_pending : hdr_u32 image (slot_off 10) ≡ 1
unfolding hdr_u32 read write poke
image_pending = refl

pub image-visible : visible image ≡ entries
image-visible = rw (image_valid, image_newest, image_tail) image_records

entry_wanted_iff_example :
    (entry_wanted 0xFFFFFFF0 filter_hires (header_of 5 0x0402) ≡ true)
    ↔ (class_wanted filter_hires (header_of 5 0x0402) ≡ true)
      × (1 ≤ sub32 5 0xFFFFFFF0)
      × (sub32 5 0xFFFFFFF0 ≤ 0x7FFFFFFF)
entry_wanted_iff_example =
    entry_wanted_iff 0xFFFFFFF0 filter_hires (header_of 5 0x0402) (λ e. absurd (omega arith))
      (omega arith) (omega arith)

walk_delivers_first_example :
    walk (walk_fuel 60) image filter_hires 12 7 0 60
    ≡ outcome 7 (find_first (entry_wanted 7 filter_hires) (complete_records 60 image 12 0 60))
walk_delivers_first_example =
    walk_delivers_first image filter_hires 12 7 0 60 image-IsBytes (omega arith)
      (rw image_records ((λ e. absurd (omega arith)), ((λ e. absurd (omega arith)), tt)))

walk-ne-exhausted_example : walk (walk_fuel 60) image filter_hires 12 7 0 60 ≢ exhausted
walk-ne-exhausted_example =
    walk-ne-exhausted image filter_hires 12 7 0 60 image-IsBytes (omega arith)

poll-Elsewhere_example : (poll 10 filter_hires image 7).mem 300 ≡ image 300
poll-Elsewhere_example = poll-Elsewhere 10 filter_hires image 7 300 (inr (omega arith))

poll-PollSpec_example :
    PollSpec 10 image
      (hdr_u32 image hdr_seq)
      7
      (poll 10 filter_hires image 7)
      (find_first (entry_wanted 7 filter_hires) (visible image))
poll-PollSpec_example =
    poll-PollSpec 10 filter_hires image 7 image-IsBytes
      (rw image_pending (λ e. absurd (omega arith))) (rw image_tail (omega arith))
      (rw image-visible ((λ e. absurd (omega arith)), ((λ e. absurd (omega arith)), tt)))

claim_slot-ClaimSpec_example :
    ClaimSpec false image 10 5 (claim_slot false image none)
    × ((k : ℕ) → ClaimSpec false image k 1 (claim_slot false image (some k)))
claim_slot-ClaimSpec_example = claim_slot-ClaimSpec false image image-IsBytes

image_chosen :
    find_last (chain_start (hdr_u32 image hdr_seq)) none (visible image) ≡ some first_entry
unfolding find_last chain_start
image_chosen = rw (image-visible, image_newest) refl

claim_joins_example :
    ((take_slot false image 10).cursor ≡ 6)
    × IsServed 10
        (take_slot false image 10).mem
        (hdr_u32 (take_slot false image 10).mem hdr_seq)
        first_entry
        (poll 10 filter_hires (take_slot false image 10).mem (take_slot false image 10).cursor)
claim_joins_example =
    claim_joins image 10 7 first_entry image-IsBytes (omega arith) (rw image_tail (omega arith))
      (rw image-visible (refl, (refl, tt))) (omega arith) (rw image-visible (omega arith))
      image_chosen (omega arith)

-- The writer flows and nothing is consumed: the reader gives up in the fourth look that comes 15
-- seconds after the one before.
abbrev flowing : ℕ → Buf
flowing v = write (λ _. 0) hdr_valid (to_le 4 v)

abbrev idle_looks : List (ℕ × Buf)
idle_looks =
    (110, flowing 1)
    ∷ (115, flowing 2)
    ∷ (130, flowing 3)
    ∷ (145, flowing 4)
    ∷ (150, flowing 4)
    ∷ (160, flowing 5)
    ∷ []

abbrev fresh_watch : Watch
fresh_watch = record { last_emit = 0; last_valid = 0; anchors = 0; cursor = 7 }

gives_up : idle_rounds 10 idle_looks (note_got 100 fresh_watch) ≡ some 160
unfolding idle_rounds stall_watch reanchor note_got hdr_u32 read write poke
gives_up = refl

idle_rounds_lem_example : 100 + 60 ≤ 160
idle_rounds_lem_example = idle_rounds_lem 100 10 idle_looks fresh_watch 160 gives_up
