-- ===== src/Tests/Drain.antt =====
-- The backlog of the image, and two readers on it.
use yi_outdoor_1080p_ptz.Prelude.{ℕ, Bool, true, length, false, List, [], ◌∷◌, ◌≡◌, refl, arith}
use yi_outdoor_1080p_ptz.Memory.{Buf, read, write, poke, to_le}
use yi_outdoor_1080p_ptz.Fshare.Layout.{filter_hires, slot_off, hdr_valid, hdr_u32}
use yi_outdoor_1080p_ptz.Fshare.Record.{entry_wanted, class_wanted}
use yi_outdoor_1080p_ptz.Fshare.Poll.{poll}
use yi_outdoor_1080p_ptz.Fshare.Poll.Result.{visible}
use yi_outdoor_1080p_ptz.Fshare.Poll.Backlog.{sift, backlog}
use yi_outdoor_1080p_ptz.Fshare.Poll.Drain.{contents}
use yi_outdoor_1080p_ptz.Loop.{Reader}
use yi_outdoor_1080p_ptz.Fshare.Layout.{hdr_wr_u32, hdr_wr_u16, ring_copy}
use yi_outdoor_1080p_ptz.Fshare.Record.{decode, rec_at, magic_ok, readable}
use yi_outdoor_1080p_ptz.Fshare.Walk.{walk}
use yi_outdoor_1080p_ptz.Fshare.Claim.{take_slot, join_cursor, join_scan, chain_start}
use yi_outdoor_1080p_ptz.Fshare.Poll.{settle, deliver, conclude}
use yi_outdoor_1080p_ptz.Fshare.Stall.{stall_watch, reanchor, note_got}
use yi_outdoor_1080p_ptz.Emit.{emit_record, emit_loop, one_nal, emit_delivered}
use yi_outdoor_1080p_ptz.Emit.Scan.{find_start, nal_end}
use yi_outdoor_1080p_ptz.Loop.{conclude_round, emit_round, look, round}
use yi_outdoor_1080p_ptz.Loop.Reach.{begin_with, begin}
use yi_outdoor_1080p_ptz.Loop.Drain.{Drains, run_rounds, run_rounds-Drains}
use yi_outdoor_1080p_ptz.Loop.Order.{RoundTurn}
use yi_outdoor_1080p_ptz.Fshare.Poll.Others.{
  Turn, claims, polls, releases, turns, seen, answer, answer-turns,
}
use yi_outdoor_1080p_ptz.Fshare.Poll.View.{poll_comm}
use yi_outdoor_1080p_ptz.Tests.Image.{image, entries}
use yi_outdoor_1080p_ptz.Tests.Ring.{image-visible, image_pending}
use yi_outdoor_1080p_ptz.Tests.Loop.{image-IsRing, video, joined}

-- Both records are new to a reader that has seen number 6.
image-backlog : backlog 6 filter_hires (visible image) ≡ entries
unfolding sift entry_wanted class_wanted
image-backlog = rw image-visible refl

-- A reader that has seen number 6, and the 60 valid bytes.
abbrev behind : Reader
behind = record joined {
  mem = image;
  watch = record { last_emit = 99; last_valid = 60; anchors = 0; cursor = 6 };
}

image_valid : hdr_u32 image hdr_valid ≡ 60
unfolding hdr_u32 read write poke
image_valid = refl

abbrev three_rounds : List (Bool × ℕ)
three_rounds = (true, 100) ∷ (true, 101) ∷ (true, 130) ∷ []

-- Both are served, and the loop goes on.
both_served : length (run_rounds video three_rounds behind).got ≡ 2
unfolding run_rounds round look emit_round conclude_round poll settle deliver conclude walk begin
    begin_with take_slot join_cursor join_scan chain_start readable magic_ok rec_at decode ring_copy
    read write poke hdr_u32 hdr_wr_u32 hdr_wr_u16 stall_watch reanchor note_got class_wanted
    entry_wanted emit_delivered emit_record emit_loop one_nal find_start nal_end
both_served = refl

run_rounds-Drains_example :
    Drains 10
      (contents image (backlog 6 filter_hires (visible image)))
      (run_rounds video three_rounds behind).outcome
      (run_rounds video three_rounds behind).got
run_rounds-Drains_example =
    run_rounds-Drains video three_rounds 7 behind (omega arith) image_valid image-IsRing
      (rw image_pending (λ e. absurd (omega arith))) (rw image-visible (refl, (refl, tt)))
      (omega arith) (rw image-visible (omega arith)) (omega arith) (rw image-backlog (omega arith))

-- Slot 11 is pending too.
abbrev two_readers : Buf
two_readers = write image (slot_off 11) (to_le 4 1)

poll_comm_example :
    ((poll 11 filter_hires (poll 10 filter_hires two_readers 6).mem 7).got
      ≡ (poll 11 filter_hires two_readers 7).got)
    × ((poll 11 filter_hires (poll 10 filter_hires two_readers 6).mem 7).cursor
        ≡ (poll 11 filter_hires two_readers 7).cursor)
    × ((a : ℕ)
        → (poll 11 filter_hires (poll 10 filter_hires two_readers 6).mem 7).mem a
          ≡ (poll 10 filter_hires (poll 11 filter_hires two_readers 7).mem 6).mem a)
poll_comm_example =
    poll_comm 10 11 filter_hires filter_hires two_readers 6 7 (omega arith) (omega arith)
      (λ e. absurd (omega arith))

-- Another reader claims slot 11 and polls, and the owner of slot 12 leaves.
abbrev other_turns : List (ℕ × Turn)
other_turns = (11, claims false) ∷ (11, polls filter_hires 6) ∷ (12, releases) ∷ []

answer-turns_example :
    answer 10 filter_hires 6 (seen 10 (turns other_turns image))
    ≡ ((poll 10 filter_hires image 6).got, (poll 10 filter_hires image 6).cursor)
answer-turns_example = answer-turns 10 filter_hires 6 other_turns image (
  omega arith,
  (λ e. absurd (omega arith)),
  (omega arith, (λ e. absurd (omega arith)), (omega arith, (λ e. absurd (omega arith)), tt)),
)

-- Two rounds, of which the first serves number 7 and the second number 8.
abbrev two_turns : List RoundTurn
two_turns =
    record { mem = image; reopens = true; now = 100 }
    ∷ record { mem = image; reopens = true; now = 130 }
    ∷ []
