-- ===== src/Main/Session.antt =====
-- The end of a session of src/fshare2fifo/fshare2fifo.c.
use mathlib.Core.Bool.{false≢true}
use yi_outdoor_1080p_ptz.Prelude.{
  ℕ, ◌+◌, ◌-◌, ◌≡◌, Bool, true, false, not, Option, none, some, if-both, if-each, leb, ◌==◌,
}
use yi_outdoor_1080p_ptz.Memory.{Buf}
use yi_outdoor_1080p_ptz.Fshare.Layout.{slot_off, hdr_valid, hdr_u32}
use yi_outdoor_1080p_ptz.Fshare.Claim.{occupied, release_slot}
use yi_outdoor_1080p_ptz.Fshare.Claim.Release.{release_slot_frees}
use yi_outdoor_1080p_ptz.Fshare.Poll.{Delivered}
use yi_outdoor_1080p_ptz.Fshare.Stall.{
  Watch, Watched, max_stall_reanchor, stall_secs, reanchor, stall_watch, note_got,
}
use yi_outdoor_1080p_ptz.Emit.{emit_delivered}
use yi_outdoor_1080p_ptz.Emit.Output.{Rc, done, dropped, hard, waiting, stuck}
use yi_outdoor_1080p_ptz.Loop.{
  Config, Reader, Outcome, is_last, spent, payload_of, conclude_round, emit_round, look, round,
}
use yi_outdoor_1080p_ptz.Main.{finish}

-- The slot is free for either mode, not pending, and its cursor word is 0.
pub record IsFree (k : ℕ) (m : Buf) : Type 0 where
  pub free : (audio : Bool) → occupied audio m k ≡ false
  pub asleep : hdr_u32 m (slot_off k) ≡ 0
  pub cursor_is : hdr_u32 m (slot_off k + 8) ≡ 0

release_slot-IsFree : (m : Buf) (k : ℕ) → IsFree k (release_slot m (some k)).mem
release_slot-IsFree m k =
    let (free, asleep, cursor, _, _) = release_slot_frees m k in
    record { free = free; asleep = asleep; cursor_is = cursor }

-- What the program leaves, if it comes to its end.
abbrev pub Leaves : ℕ → Option Buf → Type 0
Leaves k none = Unit
Leaves k (some m) = IsFree k m

exits-IsFree :
    (now k : ℕ) (m : Buf) (w : Watch)
    → (stall_watch now k m w).exits ≡ true
    → IsFree k (stall_watch now k m w).mem
unfolding stall_watch reanchor
exits-IsFree now k m w =
    if-both P (w.last_emit == 0) (λ e. absurd (false≢true e))
      (if-both P (hdr_u32 m hdr_valid == w.last_valid) (λ e. absurd (false≢true e))
        (if-both P (leb stall_secs (now - w.last_emit))
          (if-both P (leb max_stall_reanchor (w.anchors + 1)) (λ e. release_slot-IsFree _ k)
            (λ e. absurd (false≢true e)))
          (λ e. absurd (false≢true e))))
  where
    P : Watched → Type 0
    P q = q.exits ≡ true → IsFree k q.mem

conclude_round-Leaves :
    (c : Config) (reopens last : Bool) (rc : Rc) (r : Reader)
    → Leaves c.slot (finish c (conclude_round reopens last rc r))
unfolding conclude_round finish
conclude_round-Leaves c reopens last rc r = elim rc as (λ x. P (conclude_round reopens last x r)) [
  | done ↦ if-both P last (release_slot-IsFree _ _) (release_slot-IsFree _ _)
  | dropped ↦ if-both P last (release_slot-IsFree _ _) (release_slot-IsFree _ _)
  | hard ↦
      if-both P (not r.emitter.sink.fifo) (release_slot-IsFree _ _)
        (if-both P last (release_slot-IsFree _ _) (if-both P reopens (release_slot-IsFree _ _) tt))
  | waiting ↦ tt
  | stuck ↦ tt
]
  where
    P : Outcome → Type 0
    P o = Leaves c.slot (finish c o)

emit_round-Leaves :
    (c : Config) (reopens : Bool) (d : Delivered) (r : Reader)
    → Leaves c.slot (finish c (emit_round c reopens d r))
unfolding emit_round
emit_round-Leaves c reopens d r =
    let (rc, em) = emit_delivered c.audio r.emitter (payload_of d) d.len in
    conclude_round-Leaves c reopens (is_last c r) rc (record r { emitter = em; budget = spent c r })

look-Leaves :
    (c : Config) (reopens : Bool) (now : ℕ) (got : Option Delivered) (q : Watched) (r : Reader)
    → (q.exits ≡ true → IsFree c.slot q.mem)
    → Leaves c.slot (finish c (look c reopens now got q r))
unfolding look finish release_slot
look-Leaves c reopens now none q r w =
    if-each (λ o. Leaves c.slot (finish c o)) q.exits w (λ f. release_slot-IsFree q.mem c.slot)
look-Leaves c reopens now (some d) q r w =
    if-each (λ o. Leaves c.slot (finish c o)) q.exits w
      (λ f. emit_round-Leaves c reopens d (record r { mem = q.mem; watch = note_got now q.watch }))

-- Whatever ends the program, its slot is free for the next: behind a round of the loop, the memory
-- that `main` leaves has no filter of the slot, no pending flag and no cursor, whether the stop flag
-- was set, the budget of `-n` was used up, the file failed or the watchdog gave the slot up before.
-- A program that hangs in a write, or whose next write is undefined, has no end.
pub finish_frees :
    (c : Config) (reopens : Bool) (now : ℕ) (r : Reader)
    → Leaves c.slot (finish c (round c reopens now r))
unfolding round
finish_frees c reopens now r = look-Leaves c reopens now _ _ r (exits-IsFree now c.slot _ _)
