-- ===== src/Loop/Sound.antt =====
-- What holds in every state that a run of `reader_loop` in src/fshare2fifo/fshare2fifo.c comes to.
use mathlib.Core.Path.{subst}
use mathlib.Core.Bool.{false≢true}
use yi_outdoor_1080p_ptz.Prelude.{
  ℕ, ◌≤◌, ◌<◌, ◌≡◌, inl, inr, ◌∙◌, Bool, false, not, List, [], Option, none, some, arith, if-both,
  if-each, Bool-cases,
}
use yi_outdoor_1080p_ptz.Memory.{Buf}
use yi_outdoor_1080p_ptz.Fshare.Layout.{nslot}
use yi_outdoor_1080p_ptz.Fshare.Claim.{filter_of}
use yi_outdoor_1080p_ptz.Fshare.Claim.Choice.{take_slot-IsClaimed}
use yi_outdoor_1080p_ptz.Fshare.Poll.{Delivered, poll}
use yi_outdoor_1080p_ptz.Fshare.Poll.Mirror.{
  IsRing, IsMirrored, IsRing-SameElsewhere, poll-IsRing, poll-IsMirrored,
}
use yi_outdoor_1080p_ptz.Fshare.Stall.{Watched, note_got}
use yi_outdoor_1080p_ptz.Emit.{emit_delivered}
use yi_outdoor_1080p_ptz.Emit.Output.{Rc, done, dropped, hard, waiting, stuck, Sink}
use yi_outdoor_1080p_ptz.Emit.History.{IsHonest, emit_delivered-IsHonest}
use yi_outdoor_1080p_ptz.Loop.{
  Config, Reader, Outcome, running, returned, hanging, lost, counts, spent, is_last, conclude_round,
  payload_of, emit_round, look, round,
}
use yi_outdoor_1080p_ptz.Loop.Reach.{
  begin_with, Reach, start, wrote, answered, looked, begin, hear_got,
}
use yi_outdoor_1080p_ptz.Fshare.Claim.Log.{take_slot-IsBytes}
use yi_outdoor_1080p_ptz.Loop.Kept.{IsKept, stall_watch-IsKept}

-- The memory is as the reader relies on it and its cursor word agrees with the reader, and the gate
-- knows no more than what was heard.
pub record IsSound (c : Config) (h : List ℕ) (r : Reader) : Type 0 where
  pub ring : IsRing r.mem
  pub mirrored : IsMirrored c.slot r.mem r.watch.cursor
  pub honest : IsHonest h r.emitter.gate
  pub budget_pos : 0 < r.budget
  pub budget_le : r.budget ≤ 256

begin-IsSound :
    (c : Config) (m : Buf) (k : Sink) → c.slot < nslot → IsRing m → IsSound c [] (begin c m k)
unfolding begin begin_with
begin-IsSound c m k slot w =
    let claimed = take_slot-IsClaimed c.audio m c.slot w.bytes in
    record {
      ring =
          IsRing-SameElsewhere c.slot m _ slot claimed.elsewhere
            (take_slot-IsBytes c.audio m c.slot w.bytes) w;
      mirrored = claimed.mirrored;
      honest = record { stage_heard = tt; open_heard = λ o. absurd (false≢true o) };
      budget_pos = omega arith;
      budget_le = omega arith;
    }

-- The reader, if the loop goes on, is as `P` says.
abbrev pub OnRunning : (Reader → Type 0) → Outcome → Type 0
OnRunning P (running r) = P r
OnRunning P (returned y r) = Unit
OnRunning P (hanging r) = Unit
OnRunning P (lost r) = Unit

pub conclude_round-OnRunning :
    (P : Reader → Type 0) (reopens last : Bool) (rc : Rc) (r : Reader)
    → (last ≡ false → P r)
    → OnRunning P (conclude_round reopens last rc r)
unfolding conclude_round
conclude_round-OnRunning P reopens last done r w = if-each (OnRunning P) last (λ t. tt) w
conclude_round-OnRunning P reopens last dropped r w = if-each (OnRunning P) last (λ t. tt) w
conclude_round-OnRunning P reopens last hard r w =
    if-both (OnRunning P) (not r.emitter.sink.fifo) tt
      (if-each (OnRunning P) last (λ t. tt) (λ f. if-both (OnRunning P) reopens (w f) tt))
conclude_round-OnRunning P reopens last waiting r w = tt
conclude_round-OnRunning P reopens last stuck r w = tt

spent_bounds :
    (c : Config) (r : Reader)
    → is_last c r ≡ false
    → 0 < r.budget
    → r.budget ≤ 256
    → (0 < spent c r) × (spent c r ≤ 256)
spent_bounds c r f p b = elim (Bool-cases (counts c r)) [
  | inl t ↦ rw t (ground (arith, rw t at (f)))
  | inr t ↦ rw t (p, b)
]

emit_round-OnRunning :
    (c : Config) (h : List ℕ) (reopens : Bool) (d : Delivered) (r : Reader)
    → IsSound c h r
    → OnRunning (IsSound c (hear_got c (some d) h)) (emit_round c reopens d r)
unfolding emit_round
emit_round-OnRunning c h reopens d r w =
    let (rc, em) = emit_delivered c.audio r.emitter (payload_of d) d.len in
    conclude_round-OnRunning (IsSound c (hear_got c (some d) h)) reopens (is_last c r) rc
      (record r { emitter = em; budget = spent c r })
      λ f. record {
        ring = w.ring;
        mirrored = w.mirrored;
        honest = emit_delivered-IsHonest c.audio h r.emitter (payload_of d) d.len w.honest;
        budget_pos = (spent_bounds c r f w.budget_pos w.budget_le).0;
        budget_le = (spent_bounds c r f w.budget_pos w.budget_le).1;
      }

look-OnRunning :
    (c : Config) (h : List ℕ) (reopens : Bool) (now : ℕ) (got : Option Delivered) (q : Watched)
    (r : Reader)
    → (q.exits ≡ false → IsKept c.slot q)
    → IsSound c h r
    → OnRunning (IsSound c (hear_got c got h)) (look c reopens now got q r)
unfolding look note_got
look-OnRunning c h reopens now none q r kept w =
    if-each (OnRunning (IsSound c h)) q.exits (λ t. tt)
      λ f. record {
        ring = (kept f).ring;
        mirrored = (kept f).mirrored;
        honest = w.honest;
        budget_pos = w.budget_pos;
        budget_le = w.budget_le;
      }
look-OnRunning c h reopens now (some d) q r kept w =
    if-each (OnRunning (IsSound c (hear_got c (some d) h))) q.exits (λ t. tt)
      λ f. emit_round-OnRunning c h reopens d _ record {
        ring = (kept f).ring;
        mirrored = (kept f).mirrored;
        honest = w.honest;
        budget_pos = w.budget_pos;
        budget_le = w.budget_le;
      }

round-OnRunning :
    (c : Config) (h : List ℕ) (reopens : Bool) (now : ℕ) (r : Reader)
    → c.slot < nslot
    → IsSound c h r
    → OnRunning
        (IsSound c (hear_got c (poll c.slot (filter_of c.audio) r.mem r.watch.cursor).got h))
        (round c reopens now r)
unfolding round
round-OnRunning c h reopens now r slot w =
    look-OnRunning c h reopens now _ _ r
      (stall_watch-IsKept now c.slot _ _ slot
        (poll-IsRing c.slot (filter_of c.audio) r.mem r.watch.cursor slot w.ring)
        (poll-IsMirrored c.slot (filter_of c.audio) r.mem r.watch.cursor w.ring w.mirrored))
      w

-- In every state of a run, however the writes to the fifo go and whatever the clock says: the slot's
-- cursor word in the shared memory is the reader's cursor, the gate's stage and its being open stand
-- for NALs heard in this run, in their order, and the budget of a one-shot run is from 1 to 256. The
-- slot is one of the table; at the claim and behind each store of the writer, which leaves the
-- reader's cursor word alone, the memory is as the reader relies on it.
pub Reach-IsSound :
    (c : Config) (m : Buf) (k : Sink) (r : Reader) (h : List ℕ)
    → c.slot < nslot
    → IsRing m
    → Reach c m k r h
    → IsSound c h r
Reach-IsSound c m k r h slot ring start = begin-IsSound c m k slot ring
Reach-IsSound c m k r h slot ring (wrote m' u w e) =
    let s = Reach-IsSound c m k _ h slot ring u in
    record {
      ring = w;
      mirrored = e ∙ s.mirrored;
      honest = s.honest;
      budget_pos = s.budget_pos;
      budget_le = s.budget_le;
    }
Reach-IsSound c m k r h slot ring (answered script u) =
    let s = Reach-IsSound c m k _ h slot ring u in
    record {
      ring = s.ring;
      mirrored = s.mirrored;
      honest = s.honest;
      budget_pos = s.budget_pos;
      budget_le = s.budget_le;
    }
Reach-IsSound c m k r h slot ring (looked reopens now u e) =
    subst (OnRunning (IsSound c _)) e
      (round-OnRunning c _ reopens now _ slot (Reach-IsSound c m k _ _ slot ring u))
