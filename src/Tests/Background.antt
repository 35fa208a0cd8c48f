-- ===== src/Tests/Background.antt =====
-- A pass of the purger over a small fifo, and turns of the ring capture.
use yi_outdoor_1080p_ptz.Prelude.{
  ◌≡◌, refl, true, false, List, [], ◌∷◌, none, some, arith, leb, ◌==◌, ◌&&◌, if◌then◌else◌,
}
use yi_outdoor_1080p_ptz.Memory.{Buf, read}
use yi_outdoor_1080p_ptz.Memory.{write, poke}
use yi_outdoor_1080p_ptz.Fshare.Layout.{hdr_u32}
use yi_outdoor_1080p_ptz.TypeScan.{
  ring_read, note_chain, note_nal, note_record, type_walk, type_scan,
}
use yi_outdoor_1080p_ptz.Tests.Image.{image}
use yi_outdoor_1080p_ptz.Purge.{Turn, taken, trim_loop, purge_pass}
use yi_outdoor_1080p_ptz.Purge.Tail.{Keeps, purge_pass-Keeps}
use yi_outdoor_1080p_ptz.Capture.{
  data_base, last_change, copy_in, diff_scan, bytes_of, append_loop, conclude_tick, tick,
}
use yi_outdoor_1080p_ptz.Capture.Tick.{tick_captures}
use yi_outdoor_1080p_ptz.Capture.Overrun.{Overruns, tick-Overruns}

abbrev busy_turn : List Turn
busy_turn = record { elsewhere = 0; written = 9 ∷ []; fails = false } ∷ []

-- The three newest bytes stay.
three_stay : (purge_pass 3 true busy_turn (1 ∷ 2 ∷ 3 ∷ 4 ∷ 5 ∷ [])).pipe ≡ 3 ∷ 4 ∷ 5 ∷ 9 ∷ []
unfolding purge_pass trim_loop taken
three_stay = refl

purge_pass-Keeps_example :
    Keeps 2 busy_turn
      (1 ∷ 2 ∷ 3 ∷ 4 ∷ 5 ∷ [])
      (purge_pass 3 true busy_turn (1 ∷ 2 ∷ 3 ∷ 4 ∷ 5 ∷ []))
purge_pass-Keeps_example =
    purge_pass-Keeps 3 busy_turn (1 ∷ 2 ∷ 3 ∷ 4 ∷ 5 ∷ []) ((refl, refl), tt) (omega arith)

abbrev zeros : Buf
zeros a = 0

-- The writer has put a byte behind the head, and one more.
abbrev written : Buf
written a = if leb a 301 && leb 300 a then 7 else 0

tick_captures_example :
    (bytes_of written (tick 4 1000 written 300 zeros).writes ≡ read written 300 2)
    × ((tick 4 1000 written 300 zeros).base ≡ (if leb 1000 302 then data_base else 302))
tick_captures_example =
    tick_captures 4 1000 written 300 zeros 1 (omega arith) (omega arith) (omega arith) (omega arith)
      (λ e. absurd (omega (arith, e))) (λ j a b. ground arith)

-- The shadow that a turn leaves is that of the old window: in the next turn the same ring looks
-- changed, and a byte that was not written since goes to the file.
shadow_left_behind :
    let first = tick 2 1000 written 300 zeros in
    bytes_of written (tick 2 1000 written first.base first.shadow).writes ≡ 0 ∷ 0 ∷ []
unfolding tick conclude_tick diff_scan last_change copy_in append_loop bytes_of read
shadow_left_behind = refl

-- The writer has gone round and put a byte at the start of the data.
abbrev gone_round : Buf
gone_round a = if a == 256 then 7 else 0

round_found : (diff_scan 264 272 gone_round zeros 268 264 0 none).run ≡ some 256
unfolding diff_scan last_change copy_in
round_found = refl

tick-Overruns_example : Overruns 272 (tick 264 272 gone_round 268 zeros).writes
tick-Overruns_example =
    tick-Overruns 264 272 gone_round 268 zeros 256 round_found (omega arith) (omega arith)
      (omega arith)

-- The image has one chain start, and its other record is of another type.
one_chain : (type_scan 0 image).tally.nchain ≡ 1
unfolding type_scan type_walk note_record note_chain note_nal ring_read hdr_u32 read write poke
one_chain = refl
