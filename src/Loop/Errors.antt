-- ===== src/Loop/Errors.antt =====
-- What the errors of a write do to `reader_loop` of src/fshare2fifo/fshare2fifo.c.
use yi_outdoor_1080p_ptz.Prelude.{ℕ, ◌≡◌, refl, ◌∙◌, true, false, Option, none, some, if-both}
use yi_outdoor_1080p_ptz.Fshare.Poll.{Delivered}
use yi_outdoor_1080p_ptz.Fshare.Stall.{Watched}
use yi_outdoor_1080p_ptz.Emit.{emit_delivered}
use yi_outdoor_1080p_ptz.Emit.Output.{Rc, done, dropped, hard, waiting, stuck}
use yi_outdoor_1080p_ptz.Emit.Mode.{emit_delivered_mode}
use yi_outdoor_1080p_ptz.Loop.{
  Config, Reader, stalled, file_error, budget_over, Outcome, running, returned, hanging, lost,
  conclude_round, payload_of, emit_round, look, round,
}

-- The loop goes on with its fifo, or the watchdog has ended it, or a write does not return.
abbrev pub Survives : Outcome → Type 0
Survives (running r) = r.emitter.sink.fifo ≡ true
Survives (returned stalled r) = Unit
Survives (returned file_error r) = ⊥
Survives (returned budget_over r) = ⊥
Survives (hanging r) = Unit
Survives (lost r) = ⊥

conclude_round-Survives :
    (rc : Rc) (r : Reader) → r.emitter.sink.fifo ≡ true → Survives (conclude_round true false rc r)
unfolding conclude_round
conclude_round-Survives done r w = w
conclude_round-Survives dropped r w = w
conclude_round-Survives hard r w = rw w refl
conclude_round-Survives waiting r w = tt
conclude_round-Survives stuck r w = tt

emit_round-Survives :
    (c : Config) (d : Delivered) (r : Reader)
    → c.one_shot ≡ false
    → r.emitter.sink.fifo ≡ true
    → Survives (emit_round c true d r)
unfolding emit_round
emit_round-Survives c d r keeps w =
    let (rc, em) = emit_delivered c.audio r.emitter (payload_of d) d.len in
    rw keeps (
      conclude_round-Survives rc (record r { emitter = em; budget = r.budget })
        (emit_delivered_mode c.audio r.emitter (payload_of d) d.len ∙ w))

look-Survives :
    (c : Config) (now : ℕ) (got : Option Delivered) (q : Watched) (r : Reader)
    → c.one_shot ≡ false
    → r.emitter.sink.fifo ≡ true
    → Survives (look c true now got q r)
unfolding look
look-Survives c now none q r keeps w = if-both Survives q.exits tt w
look-Survives c now (some d) q r keeps w =
    if-both Survives q.exits tt (emit_round-Survives c d _ keeps w)

-- No answer of the system to a write on the fifo ends the loop, as long as the fifo can be opened
-- again: without `-n`, each round goes on with the fifo as its output, unless the watchdog ends the
-- loop or a write does not return.
pub round-Survives :
    (c : Config) (now : ℕ) (r : Reader)
    → c.one_shot ≡ false
    → r.emitter.sink.fifo ≡ true
    → Survives (round c true now r)
unfolding round
round-Survives c now r keeps w = look-Survives c now _ _ r keeps w
