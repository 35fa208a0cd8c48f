-- ===== src/Loop/Late.antt =====
-- The order of the watchdog and the emission in `reader_loop` of src/fshare2fifo/fshare2fifo.c.
use yi_outdoor_1080p_ptz.Prelude.{
  ℕ, ◌+◌, ◌-◌, ◌≡◌, ◌≢◌, ◌≤◌, refl, ap, ◌∙◌, Bool, true, false, not, Option, none, some, arith, leb,
  ◌==◌, if-both,
}
use yi_outdoor_1080p_ptz.Memory.{Buf}
use yi_outdoor_1080p_ptz.Fshare.Layout.{hdr_seq, hdr_valid, hdr_u32}
use yi_outdoor_1080p_ptz.Fshare.Claim.{filter_of}
use yi_outdoor_1080p_ptz.Fshare.Poll.{Polled, Delivered, poll}
use yi_outdoor_1080p_ptz.Fshare.Stall.{
  Watch, Watched, stall_secs, max_stall_reanchor, stall_watch, reanchor, note_got,
}
use yi_outdoor_1080p_ptz.Emit.{emit_delivered}
use yi_outdoor_1080p_ptz.Emit.Output.{Rc, done, dropped, hard, waiting, stuck}
use yi_outdoor_1080p_ptz.Loop.{
  Config, Reader, Outcome, running, returned, hanging, lost, is_last, spent, conclude_round,
  payload_of, emit_round, watched, look, round,
}

abbrev pub left_by : Outcome → Reader
left_by (running r) = r
left_by (returned y r) = r
left_by (hanging r) = r
left_by (lost r) = r

abbrev pub polled : Config → Reader → Polled
polled c r = poll c.slot (filter_of c.audio) r.mem r.watch.cursor

-- The ring has flowed for the whole patience since the last record.
pub record IsLate (c : Config) (now : ℕ) (r : Reader) : Type 0 where
  pub has_emitted : r.watch.last_emit ≢ 0
  pub flows : hdr_u32 (polled c r).mem hdr_valid ≢ r.watch.last_valid
  pub patience_over : stall_secs ≤ now - r.watch.last_emit

fires :
    (c : Config) (now : ℕ) (r : Reader)
    → IsLate c now r
    → watched now c r (polled c r)
      ≡ reanchor now c.slot (polled c r).mem (record r.watch { cursor = (polled c r).cursor })
unfolding stall_watch
fires c now r l = rw (emitted, moved, over) refl
  where
    emitted : (r.watch.last_emit == 0) ≡ false
    emitted = let h = l.has_emitted in ground arith

    moved : (hdr_u32 (polled c r).mem hdr_valid == r.watch.last_valid) ≡ false
    moved = let h = l.flows in ground arith

    over : leb stall_secs (now - r.watch.last_emit) ≡ true
    over = let h = l.patience_over in ground arith

conclude_round_watch :
    (reopens last : Bool) (rc : Rc) (r : Reader)
    → (left_by (conclude_round reopens last rc r)).watch ≡ r.watch
unfolding conclude_round
conclude_round_watch reopens last done r = if-both (λ o. (left_by o).watch ≡ r.watch) last refl refl
conclude_round_watch reopens last dropped r =
    if-both (λ o. (left_by o).watch ≡ r.watch) last refl refl
conclude_round_watch reopens last hard r =
    if-both (λ o. (left_by o).watch ≡ r.watch) (not r.emitter.sink.fifo) refl
      (if-both (λ o. (left_by o).watch ≡ r.watch) last refl
        (if-both (λ o. (left_by o).watch ≡ r.watch) reopens refl refl))
conclude_round_watch reopens last waiting r = refl
conclude_round_watch reopens last stuck r = refl

pub look_cursor :
    (c : Config) (reopens : Bool) (now : ℕ) (got : Option Delivered) (q : Watched) (r : Reader)
    → (left_by (look c reopens now got q r)).watch.cursor ≡ q.watch.cursor
unfolding look emit_round note_got
look_cursor c reopens now none q r =
    if-both (λ o. (left_by o).watch.cursor ≡ q.watch.cursor) q.exits refl refl
look_cursor c reopens now (some d) q r =
    let (rc, em) = emit_delivered c.audio r.emitter (payload_of d) d.len in
    if-both (λ o. (left_by o).watch.cursor ≡ q.watch.cursor) q.exits refl
      (ap (λ (w : Watch). w.cursor)
        (conclude_round_watch reopens (is_last c r) rc (record r {
          mem = q.mem;
          watch = note_got now q.watch;
          emitter = em;
          budget = spent c r;
        })))

pub reanchor_cursor :
    (now k : ℕ) (m : Buf) (w : Watch) → (reanchor now k m w).watch.cursor ≡ hdr_u32 m hdr_seq
unfolding reanchor
reanchor_cursor now k m w =
    if-both (λ (q : Watched). q.watch.cursor ≡ hdr_u32 m hdr_seq)
      (leb max_stall_reanchor (w.anchors + 1)) refl refl

-- A record that ends a silence of the whole patience costs the records behind it: when the ring has
-- flowed and nothing was consumed for 15 seconds, the round leaves the cursor at the newest number,
-- also where its own poll has just served an older record.
pub late_record_skips :
    (c : Config) (reopens : Bool) (now : ℕ) (r : Reader)
    → IsLate c now r
    → (left_by (round c reopens now r)).watch.cursor ≡ hdr_u32 (polled c r).mem hdr_seq
unfolding round
late_record_skips c reopens now r l =
    look_cursor c reopens now (polled c r).got (watched now c r (polled c r)) r
    ∙ rw (fires c now r l) (reanchor_cursor now c.slot _ _)
