-- ===== src/Tests/Probes.antt =====
-- The probes on small inputs.
use yi_outdoor_1080p_ptz.Prelude.{
  ℕ, ◌+◌, ◌≡◌, ◌⊎◌, inr, refl, true, false, List, [], ◌∷◌, some, arith, ltb, leb, ◌==◌,
  if◌then◌else◌,
}
use yi_outdoor_1080p_ptz.Memory.{Buf, write, to_le}
use yi_outdoor_1080p_ptz.Fshare.Layout.{data_off, hdr_valid}
use yi_outdoor_1080p_ptz.Probe.Slots.{
  Sample, no_samples, set_slot, print_around, keep, report, part_e,
}
use yi_outdoor_1080p_ptz.Probe.Slots.History.{backward_moves, part_e-backward_moves}
use yi_outdoor_1080p_ptz.Probe.Scan.{runs, write_head}
use yi_outdoor_1080p_ptz.Probe.Scan.Head.{write_head-runs}
use yi_outdoor_1080p_ptz.Probe.Ends.{ring_delta, end_pos, end_base, pos}
use yi_outdoor_1080p_ptz.Probe.Ends.Distance.{ring_delta-end_pos}
use yi_outdoor_1080p_ptz.Probe.Timeline.{snapshot, is_clean}
use yi_outdoor_1080p_ptz.Probe.Timeline.Tear.{IsClean, IsFailed, snapshot-Checked}
use yi_outdoor_1080p_ptz.Tests.Image.{record_bytes}

abbrev sample : ℕ → ℕ → Sample
sample t v = record { t = t; a04 = v; a0c = 0; a10 = 0; a14 = 0; a18 = 0; n0 = 0; n1 = 0; n2 = 0 }

-- The word falls back at the sixth sample.
abbrev samples : List Sample
samples =
    sample 0 4000
    ∷ sample 10 5000
    ∷ sample 20 6000
    ∷ sample 30 7000
    ∷ sample 40 6500
    ∷ sample 50 300
    ∷ []

falls_back :
    part_e (no_samples (λ i. sample 99 99)) samples
    ≡ record {
      at = 50;
      was = 6500;
      now = 300;
      around = sample 20 6000 ∷ sample 30 7000 ∷ sample 40 6500 ∷ sample 50 300 ∷ [];
    }
      ∷ []
unfolding part_e report keep set_slot print_around
falls_back = refl

part_e-backward_moves_example :
    part_e (no_samples (λ i. sample 99 99)) samples ≡ backward_moves (sample 0 0) [] samples
part_e-backward_moves_example = part_e-backward_moves (sample 0 0) (λ i. sample 99 99) samples

-- The writer has gone from 500 on round the end at 600 and up to 300.
abbrev gone_round : Buf
gone_round a = if ltb a 300 then 1 else if leb 500 a then 1 else 0

write_head-runs_example : write_head 600 (runs gone_round (λ a. 0) 600) ≡ some 300
write_head-runs_example =
    write_head-runs gone_round (λ a. 0) 600 500 300 (omega arith) (omega arith)
      (inr (
        omega arith,
        omega arith,
        λ x lo hi e. ground arith,
        λ x lo hi. ground arith,
        λ x lo hi e. ground arith,
      ))

ring_delta-end_pos_example :
    ring_delta 2000 1990 (end_pos 2000 1990 20)
    ≡ pos (if ltb (1990 + 20) 2000 then 20 else 20 + end_base)
ring_delta-end_pos_example =
    ring_delta-end_pos 2000 1990 20 (omega arith) (omega arith) (omega arith)

-- A chain start and a payload of the type 0x0400.
abbrev two_records : Buf
two_records =
    write (write (write (λ _. 0) hdr_valid (to_le 4 60)) data_off (record_bytes 7 0x0422))
      (data_off + 30) (record_bytes 8 0x0400)

-- The ring is torn in the first try.
abbrev torn_once : ℕ → List ℕ × List ℕ
torn_once i = if i == 0 then (1 ∷ [], 2 ∷ []) else (3 ∷ [], 3 ∷ [])

snapshot-Checked_example :
    ((is_clean (snapshot torn_once) ≡ true) × IsClean torn_once (snapshot torn_once))
    ⊎ ((is_clean (snapshot torn_once) ≡ false) × IsFailed torn_once (snapshot torn_once))
snapshot-Checked_example = snapshot-Checked torn_once
