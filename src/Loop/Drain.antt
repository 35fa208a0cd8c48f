-- ===== src/Loop/Drain.antt =====
-- The rounds of `reader_loop` in src/fshare2fifo/fshare2fifo.c, one after the other, while the writer
-- is quiet.
use mathlib.Core.Path.{subst}
use yi_outdoor_1080p_ptz.Prelude.{
  ℕ, ◌+◌, ◌^◌, ◌≤◌, ◌<◌, ◌≡◌, ◌≢◌, refl, sym, ap, ap₂, ◌∙◌, Bool, true, false, List, [], ◌∷◌,
  Option, none, some, arith, ◌==◌, length, if-both,
}
use yi_outdoor_1080p_ptz.Memory.{Buf}
use yi_outdoor_1080p_ptz.Fshare.Layout.{nslot, slot_off, hdr_valid, hdr_u32}
use yi_outdoor_1080p_ptz.Fshare.Claim.{filter_of}
use yi_outdoor_1080p_ptz.Fshare.Claim.Log.{Consecutive}
use yi_outdoor_1080p_ptz.Fshare.Walk.Log.{Entry}
use yi_outdoor_1080p_ptz.Fshare.Poll.{Delivered}
use yi_outdoor_1080p_ptz.Fshare.Poll.Result.{visible}
use yi_outdoor_1080p_ptz.Fshare.Poll.Mirror.{IsRing}
use yi_outdoor_1080p_ptz.Fshare.Poll.Backlog.{backlog}
use yi_outdoor_1080p_ptz.Fshare.Poll.Drain.{
  Drained, noted, poll_rounds, contents, IsDrained, poll_rounds-IsDrained, poll-valid_same,
}
use yi_outdoor_1080p_ptz.Fshare.Stall.{Watch, stall_watch, note_got}
use yi_outdoor_1080p_ptz.Emit.{emit_delivered}
use yi_outdoor_1080p_ptz.Loop.{
  Config, Reader, Outcome, running, returned, hanging, lost, is_last, payload_of, emit_round, look,
  round,
}
use yi_outdoor_1080p_ptz.Loop.Sound.{OnRunning, conclude_round-OnRunning}
use yi_outdoor_1080p_ptz.Loop.Late.{polled}

-- How the rounds end, and what their polls have delivered.
pub record Run : Type 0 where
  pub outcome : Outcome
  pub got : List Delivered

-- The next round follows if the loop goes on.
abbrev pub go_on : Outcome → (Reader → Run) → Run
go_on (running r) f = f r
go_on (returned y r) f = record { outcome = returned y r; got = [] }
go_on (hanging r) f = record { outcome = hanging r; got = [] }
go_on (lost r) f = record { outcome = lost r; got = [] }

-- `while (!stop_flag)` for so many rounds, each at its time; the memory is as the round before it has
-- left it.
unfoldable pub run_rounds : Config → List (Bool × ℕ) → Reader → Run
run_rounds c [] r = record { outcome = running r; got = [] }
run_rounds c ((reopens, now) ∷ ts) r =
    let rest = go_on (round c reopens now r) (λ r'. run_rounds c ts r') in
    record { outcome = rest.outcome; got = noted (polled c r).got rest.got }

-- A front of the list.
abbrev pub Front : List Delivered → List Delivered → Type 0
Front [] ys = Unit
Front (x ∷ xs) [] = ⊥
Front (x ∷ xs) (y ∷ ys) = (x ≡ y) × Front xs ys

-- If the loop goes on, all of the entries have been delivered and the slot sleeps; otherwise the
-- first ones of them.
abbrev pub Drains : ℕ → List Delivered → Outcome → List Delivered → Type 0
Drains k all (running r) got = (got ≡ all) × (hdr_u32 r.mem (slot_off k) ≡ 0)
Drains k all (returned y r) got = Front got all
Drains k all (hanging r) got = Front got all
Drains k all (lost r) got = Front got all

-- The rounds against the bare polls.
abbrev Goes : Outcome → List Delivered → Drained → Type 0
Goes (running r) got d = (got ≡ d.got) × (r.mem ≡ d.mem)
Goes (returned y r) got d = Front got d.got
Goes (hanging r) got d = Front got d.got
Goes (lost r) got d = Front got d.got

stall_quiet :
    (now k : ℕ) (m : Buf) (w : Watch)
    → hdr_u32 m hdr_valid ≡ w.last_valid
    → stall_watch now k m w ≡ record { mem = m; watch = w; exits = false }
unfolding stall_watch
stall_quiet now k m w e =
    let still : (hdr_u32 m hdr_valid == w.last_valid) ≡ true = ground arith in
    if-both (λ q. q ≡ record { mem = m; watch = w; exits = false }) (w.last_emit == 0) refl
      (rw still refl)

-- What a round leaves that the watchdog does not take part in.
record IsQuiet (m : Buf) (w : Watch) (r : Reader) : Type 0 where
  mem_is : r.mem ≡ m
  cursor_is : r.watch.cursor ≡ w.cursor
  valid_is : r.watch.last_valid ≡ w.last_valid

look-IsQuiet :
    (c : Config) (reopens : Bool) (now : ℕ) (got : Option Delivered) (m : Buf) (w : Watch)
    (r : Reader)
    → OnRunning
        (IsQuiet m w)
        (look c reopens now got (record { mem = m; watch = w; exits = false }) r)
unfolding look emit_round note_got
look-IsQuiet c reopens now none m w r = record { mem_is = refl; cursor_is = refl; valid_is = refl }
look-IsQuiet c reopens now (some d) m w r =
    let (rc, em) = emit_delivered c.audio r.emitter (payload_of d) d.len in
    conclude_round-OnRunning (IsQuiet m w) reopens (is_last c r) rc _
      λ f. record { mem_is = refl; cursor_is = refl; valid_is = refl }

round-IsQuiet :
    (c : Config) (reopens : Bool) (now : ℕ) (r : Reader)
    → hdr_u32 (polled c r).mem hdr_valid ≡ r.watch.last_valid
    → OnRunning
        (IsQuiet (polled c r).mem (record r.watch { cursor = (polled c r).cursor }))
        (round c reopens now r)
unfolding round
round-IsQuiet c reopens now r e =
    rw (stall_quiet now c.slot (polled c r).mem (record r.watch { cursor = (polled c r).cursor }) e)
      (look-IsQuiet c reopens now (polled c r).got (polled c r).mem _ r)

Front-noted :
    (g : Option Delivered) (xs ys : List Delivered) → Front xs ys → Front (noted g xs) (noted g ys)
Front-noted none xs ys w = w
Front-noted (some d) xs ys w = (refl, w)

Goes-noted :
    (o : Outcome) (g : Option Delivered) (got : List Delivered) (d : Drained)
    → Goes o got d
    → Goes o (noted g got) (record { mem = d.mem; got = noted g d.got })
Goes-noted (running r) g got d (e, s) = (ap (noted g) e, s)
Goes-noted (returned y r) g got d w = Front-noted g got d.got w
Goes-noted (hanging r) g got d w = Front-noted g got d.got w
Goes-noted (lost r) g got d w = Front-noted g got d.got w

go_on-Goes :
    (P : Reader → Type 0) (o : Outcome) (f : Reader → Run) (d : Drained)
    → OnRunning P o
    → ((r : Reader) → P r → Goes (f r).outcome (f r).got d)
    → Goes (go_on o f).outcome (go_on o f).got d
go_on-Goes P (running r) f d w next = next r w
go_on-Goes P (returned y r) f d w next = tt
go_on-Goes P (hanging r) f d w next = tt
go_on-Goes P (lost r) f d w next = tt

run_rounds-Goes :
    (c : Config) (ts : List (Bool × ℕ)) (r : Reader)
    → c.slot < nslot
    → hdr_u32 r.mem hdr_valid ≡ r.watch.last_valid
    → Goes
        (run_rounds c ts r).outcome
        (run_rounds c ts r).got
        (poll_rounds (length ts) c.slot (filter_of c.audio) r.mem r.watch.cursor)
unfolding run_rounds poll_rounds
run_rounds-Goes c [] r slot e = (refl, refl)
run_rounds-Goes c ((reopens, now) ∷ ts) r slot e =
    let p = polled c r in
    let w = record r.watch { cursor = p.cursor } in
    let still = poll-valid_same c.slot (filter_of c.audio) r.mem r.watch.cursor slot ∙ e in
    let rest = poll_rounds (length ts) c.slot (filter_of c.audio) p.mem p.cursor in
    let all = go_on (round c reopens now r) (λ x. run_rounds c ts x) in
    Goes-noted all.outcome p.got all.got rest (
      go_on-Goes (IsQuiet p.mem w) (round c reopens now r) (λ x. run_rounds c ts x) rest
        (round-IsQuiet c reopens now r still)
        λ x q.
          subst (Goes (run_rounds c ts x).outcome (run_rounds c ts x).got)
            (ap₂ (λ m n. poll_rounds (length ts) c.slot (filter_of c.audio) m n) q.mem_is
              q.cursor_is)
            (run_rounds-Goes c ts x slot
              (ap (λ m. hdr_u32 m hdr_valid) q.mem_is ∙ still ∙ sym q.valid_is)))

Goes-Drains :
    (k : ℕ) (m : Buf) (es : List Entry) (o : Outcome) (got : List Delivered) (d : Drained)
    → IsDrained k m es d
    → Goes o got d
    → Drains k (contents m es) o got
Goes-Drains k m es (running r) got d (all, sleeps) (e, s) =
    (e ∙ all, ap (λ x. hdr_u32 x (slot_off k)) s ∙ sleeps)
Goes-Drains k m es (returned y r) got d (all, sleeps) w = subst (Front got) all w
Goes-Drains k m es (hanging r) got d (all, sleeps) w = subst (Front got) all w
Goes-Drains k m es (lost r) got d (all, sleeps) w = subst (Front got) all w

-- While the writer is quiet, rounds of the loop on a pending slot consume the backlog: the complete
-- records that the filter and the cursor want, each once, in the order of the ring, with the payload
-- that the ring holds, and nothing else. If the loop still goes on behind more rounds than there are
-- such records, it has consumed all of them and the slot is no longer pending; up to a round that
-- leaves the loop, hangs in a write or cannot open the fifo again, it has consumed the first ones of
-- them. The watchdog has already seen the number of valid bytes that the header holds. The ring is as
-- the reader relies on it, its complete records are numbered one by one from a number above 0, and
-- their numbers and the cursor are below 2 ^ 31.
pub run_rounds-Drains :
    (c : Config) (ts : List (Bool × ℕ)) (s : ℕ) (r : Reader)
    → c.slot < nslot
    → hdr_u32 r.mem hdr_valid ≡ r.watch.last_valid
    → IsRing r.mem
    → hdr_u32 r.mem (slot_off c.slot) ≢ 0
    → Consecutive s (visible r.mem)
    → 0 < s
    → s + length (visible r.mem) ≤ 2 ^ 31
    → r.watch.cursor < 2 ^ 31
    → length (backlog r.watch.cursor (filter_of c.audio) (visible r.mem)) < length ts
    → Drains c.slot
        (contents r.mem (backlog r.watch.cursor (filter_of c.audio) (visible r.mem)))
        (run_rounds c ts r).outcome
        (run_rounds c ts r).got
run_rounds-Drains c ts s r slot quiet ring pending run pos hi hc enough =
    Goes-Drains c.slot r.mem _ _ _ _
      (poll_rounds-IsDrained (length ts) c.slot (filter_of c.audio) s r.mem r.watch.cursor slot ring
        pending run pos hi hc enough)
      (run_rounds-Goes c ts r slot quiet)
