-- ===== src/Tests/Loop.antt =====
-- Runs of the reader loop on the image.
use mathlib.Core.Bool.{false≢true}
use yi_outdoor_1080p_ptz.Prelude.{none, ◌∷◌, ◌||◌, some, ◌≡◌, refl, true, false, [], arith}
use yi_outdoor_1080p_ptz.Memory.{read, write, poke}
use yi_outdoor_1080p_ptz.Fshare.Layout.{hdr_u32, hdr_wr_u32, hdr_wr_u16, ring_copy}
use yi_outdoor_1080p_ptz.Fshare.Record.{
  decode, rec_at, magic_ok, readable, class_wanted, entry_wanted,
}
use yi_outdoor_1080p_ptz.Fshare.Walk.{walk}
use yi_outdoor_1080p_ptz.Fshare.Claim.{
  claim_slot, claim_from, occupied, take_slot, join_cursor, join_scan, chain_start,
}
use yi_outdoor_1080p_ptz.Fshare.Poll.{poll, settle, deliver, conclude}
use yi_outdoor_1080p_ptz.Fshare.Poll.Mirror.{IsRing}
use yi_outdoor_1080p_ptz.Fshare.Stall.{stall_watch, reanchor, note_got}
use yi_outdoor_1080p_ptz.Emit.{emit_record, emit_loop, one_nal, emit_delivered}
use yi_outdoor_1080p_ptz.Emit.Output.{done}
use yi_outdoor_1080p_ptz.Emit.Scan.{find_start, nal_end}
use yi_outdoor_1080p_ptz.Emit.Nals.{nals, emit_nals}
use yi_outdoor_1080p_ptz.Emit.Split.{AreNals, emit_record-AreNals}
use yi_outdoor_1080p_ptz.Emit.History.{IsHonest, hear_record, emit_delivered-IsHonest}
use yi_outdoor_1080p_ptz.Loop.{Config, Reader, running, conclude_round, emit_round, look, round}
use yi_outdoor_1080p_ptz.Loop.Reach.{begin_with, start, looked, begin, hear_round}
use yi_outdoor_1080p_ptz.Loop.Sound.{IsSound, Reach-IsSound}
use yi_outdoor_1080p_ptz.Loop.Errors.{Survives, round-Survives}
use yi_outdoor_1080p_ptz.Loop.Late.{left_by}
use yi_outdoor_1080p_ptz.Main.{
  opt_a, opt_n, program, take_opts, for_mode, World, initial, base_name, start_up, with_mapping,
  open_output, with_claim, finish,
}
use yi_outdoor_1080p_ptz.Main.Start.{Starts, has_a, program-Starts}
use yi_outdoor_1080p_ptz.Main.Session.{Leaves, finish_frees}
use yi_outdoor_1080p_ptz.Text.{same, codes, after_last}
use yi_outdoor_1080p_ptz.Tests.Image.{image, image-IsBytes}
use yi_outdoor_1080p_ptz.Tests.Ring.{image-visible, image_tail}
use yi_outdoor_1080p_ptz.Tests.Emission.{full_then_free, payload, fifo, start_emitter}

abbrev pub video : Config
video = record { slot = 10; audio = false; one_shot = false }

abbrev pub joined : Reader
joined = begin video image fifo

pub image-IsRing : IsRing image
image-IsRing = record {
  bytes = image-IsBytes;
  tail_in = rw image_tail (omega arith);
  numbered = rw image-visible ((λ e. absurd (omega arith)), ((λ e. absurd (omega arith)), tt));
}

-- The first round serves the chain start, whose payload has no NAL.
first_round : round video true 100 joined ≡ running (left_by (round video true 100 joined))
unfolding round look emit_round conclude_round poll settle deliver conclude walk begin begin_with
    take_slot join_cursor join_scan chain_start readable magic_ok rec_at decode ring_copy read write
    poke hdr_u32 hdr_wr_u32 hdr_wr_u16 stall_watch reanchor note_got class_wanted entry_wanted
    emit_delivered emit_record emit_loop one_nal find_start nal_end
first_round = refl

Reach-IsSound_example :
    IsSound video (hear_round video joined []) (left_by (round video true 100 joined))
Reach-IsSound_example =
    Reach-IsSound video image fifo _ _ (omega arith) image-IsRing
      (looked true 100 start first_round)

emit_record-AreNals_example :
    AreNals payload 20 0 (nals 21 payload 20 0)
    × (emit_record start_emitter payload 20
        ≡ emit_nals start_emitter payload (nals 21 payload 20 0) done)
emit_record-AreNals_example = emit_record-AreNals start_emitter payload 20

emit_delivered-IsHonest_example :
    IsHonest
      (hear_record false payload 20 [])
      (emit_delivered false start_emitter payload 20).1.gate
emit_delivered-IsHonest_example =
    emit_delivered-IsHonest false [] start_emitter payload 20
      (record { stage_heard = tt; open_heard = λ o. absurd (false≢true o) })

round-Survives_example : Survives (round video true 100 joined)
unfolding begin begin_with
round-Survives_example = round-Survives video 100 joined refl refl

-- The program without options, on a mapping with the image.
abbrev camera_world : World
camera_world = record {
  mapping = some (image, 2000000);
  out_opens = true;
  fifo_opens = true;
  script = full_then_free;
}

audio_by_name : (initial (codes "/usr/bin/f2f_audio")).audio ≡ true
unfolding base_name after_last
audio_by_name = refl

abbrev once : Config
once = record { slot = 10; audio = false; one_shot = true }

starts_video :
    program (λ t. none) (codes "/usr/bin/fshare2fifo") (opt_n ∷ []) camera_world
    ≡ some (once, joined)
unfolding program take_opts for_mode start_up with_mapping open_output with_claim claim_slot
    claim_from occupied base_name after_last begin begin_with hdr_u32 read write poke take_slot
starts_video = refl

program-Starts_example :
    Starts image 15
      (same (base_name (codes "/usr/bin/fshare2fifo")) (codes "f2f_audio")
        || has_a (opt_n ∷ opt_a ∷ []))
      (program (λ t. none) (codes "/usr/bin/fshare2fifo") (opt_n ∷ opt_a ∷ []) camera_world)
program-Starts_example =
    program-Starts (λ t. none) (codes "/usr/bin/fshare2fifo") (opt_n ∷ opt_a ∷ []) camera_world
      image 2000000 tt refl

finish_frees_example : Leaves 10 (finish video (round video true 100 joined))
finish_frees_example = finish_frees video true 100 joined
