-- ===== src/Main.antt =====
-- `main` of src/fshare2fifo/fshare2fifo.c: the options, the way to the reader loop and the way out.
pub mod Start
pub mod Session
use yi_outdoor_1080p_ptz.Prelude.{
  ℕ, ◌+◌, Bool, true, false, not, ◌&&◌, List, [], ◌∷◌, Option, none, some, ltb, if◌then◌else◌,
}
use yi_outdoor_1080p_ptz.Memory.{Buf}
use yi_outdoor_1080p_ptz.Text.{codes, same, after_last}
use yi_outdoor_1080p_ptz.Fshare.Layout.{data_off, data_sz}
use yi_outdoor_1080p_ptz.Fshare.Claim.{Claimed, claim_slot, release_slot}
use yi_outdoor_1080p_ptz.Emit.Output.{Answer, Sink}
use yi_outdoor_1080p_ptz.Loop.{
  Config, Reader, Why, stalled, file_error, budget_over, Outcome, running, returned, hanging, lost,
}
use yi_outdoor_1080p_ptz.Loop.Reach.{begin_with}

-- What `getopt` gives, with `optarg`.
pub data Opt : Type 0 where
  opt_a : Opt
  opt_f : List ℕ → Opt
  opt_o : List ℕ → Opt
  opt_n : Opt
  opt_s : List ℕ → Opt
  opt_other : Opt

-- `audio_mode`, `fifo_name` with `g_fifo_name`, `fifo_set`, `out_file`, `one_shot`, and `want_slot`,
-- which is `none` below 0.
pub record Setup : Type 0 where
  pub audio : Bool
  pub fifo_name : List ℕ
  pub fifo_set : Bool
  pub out_file : Option (List ℕ)
  pub one_shot : Bool
  pub want_slot : Option ℕ

abbrev pub default_fifo : List ℕ
default_fifo = codes "/tmp/h264_high_fifo"

abbrev pub default_audio_fifo : List ℕ
default_audio_fifo = codes "/tmp/aac_audio_fifo"

-- The program's name without its directory.
unfoldable pub base_name : List ℕ → List ℕ
base_name argv0 = elim (after_last 0x2F argv0) [ none ↦ argv0 | some t ↦ t ]

abbrev pub initial : List ℕ → Setup
initial argv0 = record {
  audio = same (base_name argv0) (codes "f2f_audio");
  fifo_name = default_fifo;
  fifo_set = false;
  out_file = none;
  one_shot = false;
  want_slot = none;
}

-- The options in their order; an unknown one ends the program.
unfoldable pub take_opts : (List ℕ → Option ℕ) → List Opt → Setup → Option Setup
take_opts atoi [] s = some s
take_opts atoi (opt_a ∷ os) s = take_opts atoi os (record s { audio = true })
take_opts atoi (opt_f name ∷ os) s =
    take_opts atoi os (record s { fifo_name = name; fifo_set = true })
take_opts atoi (opt_o name ∷ os) s = take_opts atoi os (record s { out_file = some name })
take_opts atoi (opt_n ∷ os) s = take_opts atoi os (record s { one_shot = true })
take_opts atoi (opt_s text ∷ os) s = take_opts atoi os (record s { want_slot = atoi text })
take_opts atoi (opt_other ∷ os) s = none

-- `if (audio_mode)`; the filter and the threshold are those of the mode.
unfoldable pub for_mode : Setup → Setup
for_mode s = if s.audio && not s.fifo_set then record s { fifo_name = default_audio_fifo } else s

-- The mapping with its size, if it can be opened, whether the output file or the fifo can, and the
-- answers to the writes.
pub record World : Type 0 where
  pub mapping : Option (Buf × ℕ)
  pub out_opens : Bool
  pub fifo_opens : Bool
  pub script : List Answer

unfoldable pub open_output : World → Setup → Option Sink
open_output w s = elim s.out_file [
  | some name ↦
      if w.out_opens then some (record { fifo = false; script = w.script; sent = [] }) else none
  | none ↦
      if w.fifo_opens then some (record { fifo = true; script = w.script; sent = [] }) else none
]

unfoldable pub with_claim : Setup → Sink → Option Claimed → Option (Config × Reader)
with_claim s k none = none
with_claim s k (some t) =
    some (record { slot = t.slot; audio = s.audio; one_shot = s.one_shot }, begin_with t k)

unfoldable pub with_mapping : Setup → Buf → ℕ → Option Sink → Option (Config × Reader)
unfolding with_claim
with_mapping s m size none = none
with_mapping s m size (some k) =
    if ltb size (data_off + data_sz)
    then none
    else with_claim s k (claim_slot s.audio m s.want_slot)

-- The state in which `reader_loop` is called; `none` is an exit with code 1.
unfoldable pub start_up : World → Setup → Option (Config × Reader)
unfolding with_mapping
start_up w s = elim w.mapping [
  | none ↦ none
  | some (m, size) ↦ with_mapping s m size (open_output w s)
]

-- The program up to the loop.
unfoldable pub program : (List ℕ → Option ℕ) → List ℕ → List Opt → World → Option (Config × Reader)
program atoi argv0 os w = elim (take_opts atoi os (initial argv0)) [
  | none ↦ none
  | some s ↦ start_up w (for_mode s)
]

-- The memory behind the `release_slot` of `main`: the watchdog has already given the slot up, and
-- the stop flag ends a loop that goes on. A program that hangs has no way out, nor has one whose
-- next write is undefined.
unfoldable pub finish : Config → Outcome → Option Buf
finish c (running r) = some (release_slot r.mem (some c.slot)).mem
finish c (returned stalled r) = some (release_slot r.mem none).mem
finish c (returned file_error r) = some (release_slot r.mem (some c.slot)).mem
finish c (returned budget_over r) = some (release_slot r.mem (some c.slot)).mem
finish c (hanging r) = none
finish c (lost r) = none
