-- ===== src/Emit/Ends.antt =====
-- The fuel of the NAL walk of `emit_record` in src/fshare2fifo/fshare2fifo.c.
use yi_outdoor_1080p_ptz.Prelude.{
  List, ℕ, zero, suc, ◌+◌, ◌-◌, ◌≤◌, ◌<◌, ◌≢◌, true, ltb, arith, if-both, if-each,
}
use yi_outdoor_1080p_ptz.Memory.{Buf, read}
use yi_outdoor_1080p_ptz.Emit.{
  Step, Emitter, put_next, put_synth, send_nal, one_nal, emit_loop, emit_record,
}
use yi_outdoor_1080p_ptz.Emit.Output.{Rc, done, dropped, hard, waiting, stuck, Sink, put}
use yi_outdoor_1080p_ptz.Emit.Sent.{put-ne-stuck}
use yi_outdoor_1080p_ptz.Emit.Scan.{find_start, find_start-first, nal_end}
use yi_outdoor_1080p_ptz.Emit.Spans.{nal_end_inside, one_nal-next}
use yi_outdoor_1080p_ptz.Emit.Chain.{Gate, Verdict, skip, synth, emit, gate}

put_next-ne-stuck : (r : Rc × Sink) (set : List ℕ) → r.0 ≢ stuck → (put_next r set).0 ≢ stuck
unfolding put_next
put_next-ne-stuck (done, k) set h = put-ne-stuck k true set
put_next-ne-stuck (dropped, k) set h = h
put_next-ne-stuck (hard, k) set h = h
put_next-ne-stuck (waiting, k) set h = h
put_next-ne-stuck (stuck, k) set h = h

send_nal-ne-stuck :
    (v : Verdict × Gate) (k : Sink) (p : Buf) (s e : ℕ) (r : Rc)
    → r ≢ stuck
    → (send_nal v k p s e r).rc ≢ stuck
unfolding send_nal put_synth
send_nal-ne-stuck (skip, g) k p s e r h = h
send_nal-ne-stuck (synth si, g) k p s e r h =
    put_next-ne-stuck (put k true (read p s 4)) _ (put-ne-stuck k true (read p s 4))
send_nal-ne-stuck (emit chain end, g) k p s e r h = put-ne-stuck k chain (read p s (end - s))

one_nal-ne-stuck :
    (em : Emitter) (p : Buf) (s e : ℕ) (r : Rc) → r ≢ stuck → (one_nal em p s e r).rc ≢ stuck
unfolding one_nal
one_nal-ne-stuck em p s e r h =
    if-both (λ (st : Step). st.rc ≢ stuck) (ltb (e - s) 5) h
      (send_nal-ne-stuck (gate em.gate p s e) em.sink p s e r h)

emit_loop-ne-stuck :
    (fuel : ℕ) (em : Emitter) (p : Buf) (len i : ℕ) (r : Rc)
    → 1 ≤ fuel
    → len < fuel + i
    → r ≢ stuck
    → (emit_loop fuel em p len i r).0 ≢ stuck
unfolding emit_loop
emit_loop-ne-stuck zero em p len i r one h nr = absurd (omega arith)
emit_loop-ne-stuck (suc fuel) em p len i r one h nr =
    if-each Fine (ltb len (i + 4)) (λ t. nr)
      λ more.
        if-each Fine (ltb len (s + 4)) (λ t. nr)
          λ found.
            let fits : s + 4 ≤ len = ground arith in
            let (lo, hi) = nal_end_inside p len s fits in
            let (past, _) = one_nal-next em p s (nal_end p len s) r lo in
            if-both Fine st.give_up after (
              emit_loop-ne-stuck fuel st.after p len st.next st.rc (omega (arith, from))
                (omega (arith, from, past)) after)
  where
    Fine : Rc × Emitter → Type 0
    Fine x = x.0 ≢ stuck

    s : ℕ
    s = find_start (len - i) p len i

    st : Step
    st = one_nal em p s (nal_end p len s) r

    from : i ≤ s
    from = (find_start-first (len - i) p len i (omega arith)).0

    after : st.rc ≢ stuck
    after = one_nal-ne-stuck em p s (nal_end p len s) r nr

-- The walk over the NALs of a record ends by itself, within its fuel, on every payload: with the
-- code of the last write or a hard error, or because the run of answers to the writes is over.
pub emit_record-ne-stuck : (em : Emitter) (p : Buf) (len : ℕ) → (emit_record em p len).0 ≢ stuck
unfolding emit_record
emit_record-ne-stuck em p len =
    emit_loop-ne-stuck (len + 1) em p len 0 done (omega arith) (omega arith) (λ e. cc)
