-- ===== src/Main/Start.antt =====
-- The start of a session of src/fshare2fifo/fshare2fifo.c: what the options and the claim hand to the
-- reader loop.
use mathlib.Core.Path.{subst}
use yi_outdoor_1080p_ptz.Prelude.{
  ◌∷◌, List, ◌||◌, ◌&&◌, ℕ, zero, suc, ◌+◌, ◌≤◌, ◌<◌, ◌≡◌, refl, sym, arith, Bool, true, false, not,
  [], Option, none, some, if-both, ltb,
}
use yi_outdoor_1080p_ptz.Memory.{Buf}
use yi_outdoor_1080p_ptz.Text.{codes, same}
use yi_outdoor_1080p_ptz.Fshare.Layout.{data_off, data_sz}
use yi_outdoor_1080p_ptz.Fshare.Claim.{Claimed, take_slot, occupied, claim_from, claim_slot}
use yi_outdoor_1080p_ptz.Emit.Output.{Sink}
use yi_outdoor_1080p_ptz.Loop.{Config, Reader}
use yi_outdoor_1080p_ptz.Loop.Reach.{Reach, start, begin, begin_with}
use yi_outdoor_1080p_ptz.Main.{
  Opt, opt_a, opt_f, opt_o, opt_n, opt_s, opt_other, base_name, initial, take_opts, for_mode,
  program, Setup, World, open_output, with_claim, with_mapping, start_up,
}

-- A claim takes the slot that it names.
Took : Bool → Buf → ℕ → Option Claimed → Type 0
Took audio m n none = Unit
Took audio m n (some t) = (t ≡ take_slot audio m t.slot) × (t.slot < n)

claim_from-Took :
    (left : ℕ) (audio : Bool) (m : Buf) (k n : ℕ)
    → k + left ≤ n
    → Took audio m n (claim_from left audio m k)
unfolding claim_from take_slot Took
claim_from-Took zero audio m k n h = tt
claim_from-Took (suc left) audio m k n h =
    if-both (Took audio m n) (occupied audio m k)
      (claim_from-Took left audio m (k + 1) n (omega arith)) (refl, omega arith)

-- The state is the start of runs on the mapping in a mode, with a slot below `n`.
abbrev pub Starts : Buf → ℕ → Bool → Option (Config × Reader) → Type 0
Starts m n audio none = Unit
Starts m n audio (some (c, r)) = (c.slot < n) × (c.audio ≡ audio) × (k : Sink) × Reach c m k r []

with_claim-Starts :
    (s : Setup) (m : Buf) (n : ℕ) (k : Sink) (o : Option Claimed)
    → Took s.audio m n o
    → Starts m n s.audio (with_claim s k o)
unfolding with_claim begin Took
with_claim-Starts s m n k none w = tt
with_claim-Starts s m n k (some t) (e, h) =
    let c : Config = record { slot = t.slot; audio = s.audio; one_shot = s.one_shot } in
    (h, refl, k, subst (λ x. Reach c m k (begin_with x k) []) (sym e) start)

with_mapping-Starts :
    (s : Setup) (m : Buf) (size : ℕ) (o : Option Sink)
    → s.want_slot ≡ none
    → Starts m 15 s.audio (with_mapping s m size o)
unfolding with_mapping claim_slot
with_mapping-Starts s m size none w = tt
with_mapping-Starts s m size (some k) w =
    if-both (Starts m 15 s.audio) (ltb size (data_off + data_sz)) tt
      (rw w (with_claim-Starts s m 15 k _ (claim_from-Took 5 s.audio m 10 15 (omega arith))))

start_up-Starts :
    (w : World) (s : Setup) (m : Buf) (size : ℕ)
    → s.want_slot ≡ none
    → w.mapping ≡ some (m, size)
    → Starts m 15 s.audio (start_up w s)
unfolding start_up
start_up-Starts w s m size free mapped =
    rw (start_up, mapped) (with_mapping-Starts s m size (open_output w s) free)

-- The options name no slot.
abbrev pub NoSlot : List Opt → Type 0
NoSlot [] = Unit
NoSlot (opt_s text ∷ os) = ⊥
NoSlot (opt_a ∷ os) = NoSlot os
NoSlot (opt_f name ∷ os) = NoSlot os
NoSlot (opt_o name ∷ os) = NoSlot os
NoSlot (opt_n ∷ os) = NoSlot os
NoSlot (opt_other ∷ os) = NoSlot os

-- One of them is `-a`.
abbrev pub has_a : List Opt → Bool
has_a [] = false
has_a (opt_a ∷ os) = true
has_a (opt_s text ∷ os) = has_a os
has_a (opt_f name ∷ os) = has_a os
has_a (opt_o name ∷ os) = has_a os
has_a (opt_n ∷ os) = has_a os
has_a (opt_other ∷ os) = has_a os

abbrev Parsed : Bool → Option Setup → Type 0
Parsed audio none = Unit
Parsed audio (some s) = (s.want_slot ≡ none) × (s.audio ≡ audio)

or_true : (b : Bool) → (b || true) ≡ true
or_true true = refl
or_true false = refl

or_false : (b : Bool) → (b || false) ≡ b
or_false true = refl
or_false false = refl

take_opts-Parsed :
    (atoi : List ℕ → Option ℕ) (os : List Opt) (s : Setup)
    → NoSlot os
    → s.want_slot ≡ none
    → Parsed (s.audio || has_a os) (take_opts atoi os s)
unfolding take_opts
take_opts-Parsed atoi [] s n w = (w, sym (or_false s.audio))
take_opts-Parsed atoi (opt_a ∷ os) s n w =
    rw (or_true s.audio) (take_opts-Parsed atoi os (record s { audio = true }) n w)
take_opts-Parsed atoi (opt_f name ∷ os) s n w = take_opts-Parsed atoi os _ n w
take_opts-Parsed atoi (opt_o name ∷ os) s n w = take_opts-Parsed atoi os _ n w
take_opts-Parsed atoi (opt_n ∷ os) s n w = take_opts-Parsed atoi os _ n w
take_opts-Parsed atoi (opt_s text ∷ os) s n w = elim n [ ]
take_opts-Parsed atoi (opt_other ∷ os) s n w = tt

for_mode-Parsed :
    (audio : Bool) (s : Setup) → Parsed audio (some s) → Parsed audio (some (for_mode s))
unfolding for_mode
for_mode-Parsed audio s w = if-both (λ x. Parsed audio (some x)) (s.audio && not s.fifo_set) w w

-- The state in which `main` calls the reader loop, if it comes that far, is the start of a run on
-- the memory that it has mapped, with one of the slots below 15, so that what holds in every state
-- of a run holds behind `main`; the mode is audio if the program is called by the name `f2f_audio`,
-- or with `-a` in any place, and video otherwise. It is called without `-s`.
pub program-Starts :
    (atoi : List ℕ → Option ℕ) (argv0 : List ℕ) (os : List Opt) (w : World) (m : Buf) (size : ℕ)
    → NoSlot os
    → w.mapping ≡ some (m, size)
    → Starts m 15 (same (base_name argv0) (codes "f2f_audio") || has_a os) (program atoi argv0 os w)
unfolding program
program-Starts atoi argv0 os w m size n mapped =
    from (take_opts atoi os (initial argv0)) (take_opts-Parsed atoi os (initial argv0) n refl)
  where
    audio : Bool
    audio = same (base_name argv0) (codes "f2f_audio") || has_a os

    from :
        (o : Option Setup)
        → Parsed audio o
        → Starts m 15 audio (elim o [ none ↦ none | some s ↦ start_up w (for_mode s) ])
    from none p = tt
    from (some s) p =
        let (free, mode) = for_mode-Parsed audio s p in
        subst (λ b. Starts m 15 b (start_up w (for_mode s))) mode
          (start_up-Starts w (for_mode s) m size free mapped)
