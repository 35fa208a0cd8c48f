-- ===== src/Loop/Reach.antt =====
-- The runs of `reader_loop` in src/fshare2fifo/fshare2fifo.c, interleaved with the writer of the
-- shared memory and with the reader of the fifo.
use yi_outdoor_1080p_ptz.Prelude.{ℕ, ◌+◌, Bool, false, ◌≡◌, List, [], Option, none, some}
use yi_outdoor_1080p_ptz.Memory.{Buf}
use yi_outdoor_1080p_ptz.Fshare.Layout.{slot_off, hdr_u32}
use yi_outdoor_1080p_ptz.Fshare.Claim.{Claimed, take_slot, filter_of}
use yi_outdoor_1080p_ptz.Fshare.Poll.{Delivered, poll}
use yi_outdoor_1080p_ptz.Fshare.Poll.Mirror.{IsRing, IsMirrored}
use yi_outdoor_1080p_ptz.Emit.Output.{Answer, Sink}
use yi_outdoor_1080p_ptz.Emit.Chain.{Gate}
use yi_outdoor_1080p_ptz.Emit.History.{hear_record}
use yi_outdoor_1080p_ptz.Loop.{Config, Reader, running, payload_of, round}

-- The gate and the counters at the start of the program.
abbrev pub closed_gate : Gate
closed_gate = record {
  stage = 0;
  chain_open = false;
  target_w = 0;
  target_h = 0;
  nals = 0;
  bytes = 0;
  drops = 0;
}

-- The reader behind a claim.
unfoldable pub begin_with : Claimed → Sink → Reader
begin_with t k = record {
  mem = t.mem;
  watch = record { last_emit = 0; last_valid = 0; anchors = 0; cursor = t.cursor };
  emitter = record { gate = closed_gate; sink = k };
  budget = 256;
}

unfoldable pub begin : Config → Buf → Sink → Reader
unfolding begin_with
begin c m k = begin_with (take_slot c.audio m c.slot) k

abbrev pub with_script : Reader → List Answer → Reader
with_script r script = record r {
  emitter = record r.emitter { sink = record r.emitter.sink { script = script } };
}

-- What a poll adds to the types heard.
abbrev pub hear_got : Config → Option Delivered → List ℕ → List ℕ
hear_got c none h = h
hear_got c (some d) h = hear_record c.audio (payload_of d) d.len h

abbrev pub hear_round : Config → Reader → List ℕ → List ℕ
hear_round c r h = hear_got c (poll c.slot (filter_of c.audio) r.mem r.watch.cursor).got h

-- A reader that a run comes to, and the types of the NALs delivered so far, the newest first.
pub data Reach (c : Config) (m : Buf) (k : Sink) : Reader → List ℕ → Type 0 where
  start : Reach c m k (begin c m k) []
  -- The writer stores what it likes, but for the reader's cursor word, and leaves a ring that the
  -- reader can rely on.
  wrote :
      {r : Reader} {h : List ℕ} (m' : Buf)
      → Reach c m k r h
      → IsRing m'
      → IsMirrored c.slot m' (hdr_u32 r.mem (slot_off c.slot + 8))
      → Reach c m k (record r { mem = m' }) h
  -- The fifo makes room, or fails.
  answered :
      {r : Reader} {h : List ℕ} (script : List Answer)
      → Reach c m k r h
      → Reach c m k (with_script r script) h
  looked :
      {r r' : Reader} {h : List ℕ} (reopens : Bool) (now : ℕ)
      → Reach c m k r h
      → round c reopens now r ≡ running r'
      → Reach c m k r' (hear_round c r h)
