-- ===== src/Loop.antt =====
-- `reader_loop` of src/fshare2fifo/fshare2fifo.c as a whole: a round polls the slot, looks at the
-- stall watchdog, and emits what was delivered.
pub mod Reach
pub mod Kept
pub mod Sound
pub mod Errors
pub mod Late
pub mod Drain
pub mod Order
use yi_outdoor_1080p_ptz.Prelude.{
  ℕ, ◌-◌, Bool, true, false, not, ◌&&◌, List, Option, none, some, ◌==◌, if◌then◌else◌, get_or,
}
use yi_outdoor_1080p_ptz.Memory.{Buf}
use yi_outdoor_1080p_ptz.Fshare.Claim.{filter_of}
use yi_outdoor_1080p_ptz.Fshare.Poll.{Polled, Delivered, poll}
use yi_outdoor_1080p_ptz.Fshare.Stall.{Watch, Watched, stall_watch, note_got}
use yi_outdoor_1080p_ptz.Emit.{Emitter, emit_delivered}
use yi_outdoor_1080p_ptz.Emit.Output.{Rc, done, dropped, hard, waiting, stuck}

-- `slot_k`, `audio_mode` and `one_shot`
pub record Config : Type 0 where
  pub slot : ℕ
  pub audio : Bool
  pub one_shot : Bool

-- The shared memory, the watchdog's state with `slot_cursor`, the output, and `budget`.
pub record Reader : Type 0 where
  pub mem : Buf
  pub watch : Watch
  pub emitter : Emitter
  pub budget : ℕ

-- Why the loop is left: the watchdog, an error of the output file, the budget of `-n`.
pub data Why : Type 0 where
  stalled : Why
  file_error : Why
  budget_over : Why

-- The loop goes on or is left; or a write of this round does not return; or the loop goes on with no
-- output, since the fifo could not be opened again, and the model does not follow it.
pub data Outcome : Type 0 where
  running : Reader → Outcome
  returned : Why → Reader → Outcome
  hanging : Reader → Outcome
  lost : Reader → Outcome

-- `one_shot && budget && --budget == 0`
abbrev pub counts : Config → Reader → Bool
counts c r = c.one_shot && not (r.budget == 0)

abbrev pub is_last : Config → Reader → Bool
is_last c r = counts c r && r.budget - 1 == 0

abbrev pub spent : Config → Reader → ℕ
spent c r = if counts c r then r.budget - 1 else r.budget

-- Behind the emission: a broken fifo is opened again, which `reopens` says to work or not.
unfoldable pub conclude_round : Bool → Bool → Rc → Reader → Outcome
conclude_round reopens last done r = if last then returned budget_over r else running r
conclude_round reopens last dropped r = if last then returned budget_over r else running r
conclude_round reopens last hard r =
    if not r.emitter.sink.fifo
    then returned file_error r
    else if last
    then returned budget_over r
    else if reopens
    then running r
    else lost r
conclude_round reopens last waiting r = hanging r
conclude_round reopens last stuck r = hanging r

-- `payload`, as the emission reads it.
abbrev pub payload_of : Delivered → Buf
payload_of d i = get_or d.payload i 0

-- A round in which a record was consumed.
unfoldable pub emit_round : Config → Bool → Delivered → Reader → Outcome
unfolding conclude_round
emit_round c reopens d r =
    let (rc, em) = emit_delivered c.audio r.emitter (payload_of d) d.len in
    conclude_round reopens (is_last c r) rc (record r { emitter = em; budget = spent c r })

-- The watchdog, on what the poll leaves.
abbrev pub watched : ℕ → Config → Reader → Polled → Watched
watched now c r q = stall_watch now c.slot q.mem (record r.watch { cursor = q.cursor })

unfoldable pub look : Config → Bool → ℕ → Option Delivered → Watched → Reader → Outcome
unfolding emit_round
look c reopens now got w r =
    let r' = record r { mem = w.mem; watch = w.watch } in
    if w.exits then returned stalled r' else elim got [
      | none ↦ running r'
      | some d ↦ emit_round c reopens d (record r' { watch = note_got now w.watch })
    ]

-- One turn of `while (!stop_flag)` at the time `now`.
unfoldable pub round : Config → Bool → ℕ → Reader → Outcome
round c reopens now r =
    let q = poll c.slot (filter_of c.audio) r.mem r.watch.cursor in
    look c reopens now q.got (watched now c r q) r
