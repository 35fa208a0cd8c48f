-- ===== src/Emit.antt =====
-- The output side of src/fshare2fifo/fshare2fifo.c: `emit_record`, which walks the NALs of a record
-- and sends each through the chain gate, and `emit_delivered`.
pub mod Output
pub mod Scan
pub mod Chain
pub mod Sent
pub mod Spans
pub mod Ends
pub mod Keeps
pub mod Opens
pub mod Nals
pub mod Split
pub mod Heeds
pub mod Opening
pub mod History
pub mod Mode
use yi_outdoor_1080p_ptz.Prelude.{
  ℕ, zero, suc, ◌+◌, ◌-◌, ◌/◌, Bool, true, false, List, ◌++◌, ltb, if◌then◌else◌,
}
use yi_outdoor_1080p_ptz.Memory.{Buf, read, u32}
use yi_outdoor_1080p_ptz.Sps.Writer.{Out}
use yi_outdoor_1080p_ptz.Sps.Build.{build_sps}
use yi_outdoor_1080p_ptz.Emit.Output.{Rc, done, dropped, hard, waiting, stuck, Sink, put}
use yi_outdoor_1080p_ptz.Emit.Scan.{find_start, nal_end}
use yi_outdoor_1080p_ptz.Emit.Chain.{Gate, Verdict, skip, synth, emit, gate}

-- The gate with its counters, and the output.
pub record Emitter : Type 0 where
  pub gate : Gate
  pub sink : Sink

-- `g_nals++; g_bytes += n` on success, `g_drops++` on a drop.
unfoldable pub count : Rc → ℕ → Gate → Gate
count done n g = record g { nals = u32 (g.nals + 1); bytes = u32 (g.bytes + n) }
count dropped n g = record g { drops = u32 (g.drops + 1) }
count hard n g = g
count waiting n g = g
count stuck n g = g

-- The start code, then the synthesized set if the start code went out.
unfoldable pub put_next : Rc × Sink → List ℕ → Rc × Sink
put_next (done, k) set = put k true set
put_next (dropped, k) set = (dropped, k)
put_next (hard, k) set = (hard, k)
put_next (waiting, k) set = (waiting, k)
put_next (stuck, k) set = (stuck, k)

unfoldable pub put_synth : Sink → List ℕ → List ℕ → Rc × Sink
unfolding put_next
put_synth k start set = put_next (put k true start) set

-- What one NAL leaves: the code of the write, whether the record is given up, the offset to go on
-- from, and the state.
pub record Step : Type 0 where
  pub rc : Rc
  pub give_up : Bool
  pub next : ℕ
  pub after : Emitter

-- A hard error ends the record, and so does a write that never returns; behind a synthesized set
-- only the latter does.
unfoldable pub send_nal : Verdict × Gate → Sink → Buf → ℕ → ℕ → Rc → Step
unfolding count put_synth
send_nal (skip, g) k p s e r = record {
  rc = r;
  give_up = false;
  next = e;
  after = record { gate = g; sink = k };
}
send_nal (synth si, g) k p s e r =
    let o = build_sps si in
    let (r', k') = put_synth k (read p s 4) (read o.bytes 0 (o.pos / 8)) in
    record {
      rc = r';
      give_up = elim r' [ waiting ↦ true | _ ↦ false ];
      next = e;
      after = record { gate = elim r' [ done ↦ count done (4 + o.pos / 8) g | _ ↦ g ]; sink = k' };
    }
send_nal (emit chain end, g) k p s e r =
    let (r', k') = put k chain (read p s (end - s)) in
    record {
      rc = r';
      give_up = elim r' [ hard ↦ true | waiting ↦ true | _ ↦ false ];
      next = end;
      after = record { gate = count r' (end - s) g; sink = k' };
    }

-- The NAL from `s` to `e`; one of fewer than five bytes is empty and skipped.
unfoldable pub one_nal : Emitter → Buf → ℕ → ℕ → Rc → Step
unfolding send_nal
one_nal em p s e r =
    if ltb (e - s) 5
    then record { rc = r; give_up = false; next = e; after = em }
    else send_nal (gate em.gate p s e) em.sink p s e r

unfoldable pub emit_loop : ℕ → Emitter → Buf → ℕ → ℕ → Rc → Rc × Emitter
emit_loop zero em p len i r = (stuck, em)
emit_loop (suc fuel) em p len i r =
    let s = find_start (len - i) p len i in
    let st = one_nal em p s (nal_end p len s) r in
    let rest = emit_loop fuel st.after p len st.next st.rc in
    if ltb len (i + 4)
    then (r, em)
    else if ltb len (s + 4)
    then (r, em)
    else if st.give_up
    then (st.rc, st.after)
    else rest

-- Each round passes a start code, so that `len + 1` rounds are enough.
unfoldable pub emit_record : Emitter → Buf → ℕ → Rc × Emitter
emit_record em p len = emit_loop (len + 1) em p len 0 done

unfoldable pub emit_delivered : Bool → Emitter → Buf → ℕ → Rc × Emitter
emit_delivered audio em p len =
    let (r, k) = put em.sink false (read p 0 len) in
    if audio then (r, record { gate = count r len em.gate; sink = k }) else emit_record em p len
