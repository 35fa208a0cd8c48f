-- ===== src/Fshare/Poll/Others.antt =====
-- What the other readers of the ring may do to a reader of src/fshare2fifo/fshare2fifo.c: nothing.
-- Its view of the memory is the memory up to what a poll does not look at.
use mathlib.Core.Quot
use mathlib.Core.Quot.{Quot}
use mathlib.Core.Path.{◌∙◌}
use yi_outdoor_1080p_ptz.Prelude.{
  ℕ, ◌<◌, ◌≡◌, ◌≢◌, inl, inr, refl, ap, ap₂, Bool, List, [], ◌∷◌, Option, some, arith,
}
use yi_outdoor_1080p_ptz.Memory.{Buf}
use yi_outdoor_1080p_ptz.Fshare.Layout.{nslot}
use yi_outdoor_1080p_ptz.Fshare.Claim.{take_slot, release_slot}
use yi_outdoor_1080p_ptz.Fshare.Claim.Choice.{OtherSlot, take_slot-OtherSlot}
use yi_outdoor_1080p_ptz.Fshare.Claim.Release.{release_slot_frees}
use yi_outdoor_1080p_ptz.Fshare.Poll.{Delivered, poll}
use yi_outdoor_1080p_ptz.Fshare.Poll.Frame.{poll-Elsewhere}
use yi_outdoor_1080p_ptz.Fshare.Poll.View.{SameView, poll-SameEffect}

-- The memory as the reader of slot `k` sees it.
abbrev pub View : ℕ → Type 0
View k = Quot (SameView k)

abbrev pub seen : (k : ℕ) → Buf → View k
seen k m = Quot.mk m

delivery_set : IsSet (Option Delivered × ℕ)
delivery_set = hlevel

told_by : (k filter cursor : ℕ) → Buf → Option Delivered × ℕ
told_by k filter cursor m = ((poll k filter m cursor).got, (poll k filter m cursor).cursor)

-- What a poll delivers and the cursor that it leaves, from the view alone.
pub answer : (k filter cursor : ℕ) → View k → Option Delivered × ℕ
unfolding told_by
answer k filter cursor = Quot.lift delivery_set (told_by k filter cursor) (λ m m' v.
    let e = poll-SameEffect k filter m m' cursor v in
    ap₂ (λ (g : Option Delivered) (c : ℕ). (g, c)) e.got e.cursor)

-- What another program does in a slot of its own: a claim, a round, a release.
pub data Turn : Type 0 where
  claims : Bool → Turn
  polls : ℕ → ℕ → Turn
  releases : Turn

unfoldable pub take_turn : ℕ → Turn → Buf → Buf
take_turn j (claims audio) m = (take_slot audio m j).mem
take_turn j (polls filter cursor) m = (poll j filter m cursor).mem
take_turn j releases m = (release_slot m (some j)).mem

-- The turns of others, each with its slot, the first one first.
unfoldable pub turns : List (ℕ × Turn) → Buf → Buf
unfolding take_turn
turns [] m = m
turns ((j, t) ∷ later) m = turns later (take_turn j t m)

abbrev pub InOthers : ℕ → List (ℕ × Turn) → Type 0
InOthers k [] = Unit
InOthers k ((j, t) ∷ later) = (j < nslot) × (j ≢ k) × InOthers k later

take_turn-OtherSlot : (j : ℕ) (t : Turn) (m : Buf) (a : ℕ) → OtherSlot j a → take_turn j t m a ≡ m a
unfolding take_turn
take_turn-OtherSlot j (claims audio) m a o = take_slot-OtherSlot audio m j a o
take_turn-OtherSlot j (polls filter cursor) m a o =
    poll-Elsewhere j filter m cursor a (ground arith)
take_turn-OtherSlot j releases m a o = let (_, _, _, same, _) = release_slot_frees m j in same a o

-- A turn in another slot does not show.
turn_unseen :
    (j k : ℕ) (t : Turn) (m : Buf) → j < nslot → j ≢ k → seen k (take_turn j t m) ≡ seen k m
turn_unseen j k t m slot apart = Quot.sound (record {
  header = λ a h. take_turn-OtherSlot j t m a (inl (omega arith));
  pending = λ a p q. take_turn-OtherSlot j t m a (ground (arith, apart));
  ring = λ a h. take_turn-OtherSlot j t m a (inr (omega arith));
})

turns_unseen :
    (k : ℕ) (ts : List (ℕ × Turn)) (m : Buf) → InOthers k ts → seen k (turns ts m) ≡ seen k m
unfolding turns
turns_unseen k [] m w = refl
turns_unseen k ((j, t) ∷ later) m (slot, apart, w) =
    turns_unseen k later (take_turn j t m) w ∙ turn_unseen j k t m slot apart

-- A poll is a function of its reader's view, and no number of claims, polls and releases in other
-- slots of the table changes that view: behind them the poll delivers what it would have delivered
-- without them, and leaves the same cursor.
pub answer-turns :
    (k filter cursor : ℕ) (ts : List (ℕ × Turn)) (m : Buf)
    → InOthers k ts
    → answer k filter cursor (seen k (turns ts m))
      ≡ ((poll k filter m cursor).got, (poll k filter m cursor).cursor)
unfolding answer
answer-turns k filter cursor ts m w = ap (answer k filter cursor) (turns_unseen k ts m w)
