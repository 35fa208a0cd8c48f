-- ===== src/Emit/Keeps.antt =====
-- What the writes of a NAL leave of the gate in src/fshare2fifo/fshare2fifo.c: the counters move.
use yi_outdoor_1080p_ptz.Prelude.{◌≡◌, ℕ, ◌-◌, ltb, if-each, false}
use yi_outdoor_1080p_ptz.Memory.{Buf}
use yi_outdoor_1080p_ptz.Emit.{Step, Emitter, count, put_synth, send_nal, one_nal}
use yi_outdoor_1080p_ptz.Emit.Output.{Rc, done, dropped, hard, waiting, stuck, Sink, put}
use yi_outdoor_1080p_ptz.Emit.Chain.{Gate, Verdict, skip, synth, emit, gate}

module _ (P : Gate → Type 0) (counted : (r : Rc) (n : ℕ) (g : Gate) → P g → P (count r n g)) where
  synth_keeps :
      (n : ℕ) (r : Rc) (g : Gate)
      → P g
      → P (elim r as (λ _. Gate) [ done ↦ count done n g | _ ↦ g ])
  synth_keeps n done g w = counted done n g w
  synth_keeps n dropped g w = w
  synth_keeps n hard g w = w
  synth_keeps n waiting g w = w
  synth_keeps n stuck g w = w

  -- A property of the gate that the counters do not matter to holds behind a NAL if the gate's
  -- decision gave it.
  pub send_nal_keeps :
      (v : Verdict × Gate) (k : Sink) (p : Buf) (s e : ℕ) (r : Rc)
      → P v.1
      → P (send_nal v k p s e r).after.gate
  unfolding send_nal
  send_nal_keeps (skip, g) k p s e r w = w
  send_nal_keeps (synth si, g) k p s e r w = synth_keeps _ (put_synth k _ _).0 g w
  send_nal_keeps (emit chain end, g) k p s e r w = counted (put k chain _).0 _ g w

  -- The same of an empty NAL, which is skipped.
  pub one_nal_keeps :
      (em : Emitter) (p : Buf) (s e : ℕ) (r : Rc)
      → P em.gate
      → (ltb (e - s) 5 ≡ false → P (gate em.gate p s e).1)
      → P (one_nal em p s e r).after.gate
  unfolding one_nal
  one_nal_keeps em p s e r w v =
      if-each (λ (x : Step). P x.after.gate) (ltb (e - s) 5) (λ empty. w)
        (λ full. send_nal_keeps (gate em.gate p s e) em.sink p s e r (v full))
