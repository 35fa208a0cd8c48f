-- ===== src/Loop/Order.antt =====
-- The order of the deliveries of `reader_loop` in src/fshare2fifo/fshare2fifo.c while the writer runs.
use yi_outdoor_1080p_ptz.Prelude.{
  ℕ, ◌+◌, ◌-◌, ◌^◌, ◌≤◌, ◌<◌, ◌≡◌, ◌≢◌, ◌⊎◌, Bool, List, [], ◌∷◌, Option, none, some, ◌==◌,
  if◌then◌else◌,
}
use yi_outdoor_1080p_ptz.Memory.{Buf, sub32}
use yi_outdoor_1080p_ptz.Fshare.Layout.{hdr_seq, hdr_u32}
use yi_outdoor_1080p_ptz.Fshare.Poll.{Delivered, Polled, poll}
use yi_outdoor_1080p_ptz.Fshare.Poll.Mirror.{IsRing}
use yi_outdoor_1080p_ptz.Loop.{Config, Reader, Outcome, running, returned, hanging, lost, round}
use yi_outdoor_1080p_ptz.Loop.Late.{left_by, polled}

-- A record was delivered, and its number is the cursor; or the poll set the cursor back; or the
-- watchdog, so many seconds after the last record, moved it, the newest number being as given.
pub data Event : Type 0 where
  delivered : ℕ → Event
  set_back : ℕ → Event
  skipped : ℕ → ℕ → ℕ → Event

abbrev note : Option Delivered → ℕ → ℕ → List Event → List Event
note none was now rest = if now == was then rest else set_back now ∷ rest
note (some d) was now rest = delivered now ∷ rest

abbrev note_skip : ℕ → ℕ → ℕ → ℕ → List Event → List Event
note_skip silence newest was now rest =
    if now == was then rest else skipped silence newest now ∷ rest

-- What a round finds: the memory, whether a broken fifo can be opened again, and the time.
pub record RoundTurn : Type 0 where
  pub mem : Buf
  pub reopens : Bool
  pub now : ℕ

-- The events behind a round, if the loop goes on.
abbrev pub go_on : Outcome → (Reader → List Event) → List Event
go_on (running r) f = f r
go_on (returned y r) f = []
go_on (hanging r) f = []
go_on (lost r) f = []

abbrev found : RoundTurn → Reader → Reader
found t r = record r { mem = t.mem }

-- What comes of the rounds of a reader, each on the memory that it finds: between two of them the
-- writer may have changed anything.
unfoldable pub events : Config → List RoundTurn → Reader → List Event
events c [] r = []
events c (t ∷ ts) r =
    let p = polled c (found t r) in
    let o = round c t.reopens t.now (found t r) in
    let later = go_on o (λ r'. events c ts r') in
    note p.got r.watch.cursor p.cursor (
      note_skip (t.now - r.watch.last_emit) (hdr_u32 p.mem hdr_seq) p.cursor
        (left_by o).watch.cursor later)

-- Each delivery is ahead of the cursor before it by less than half of the numbers, counted round the
-- 32-bit wrap, unless there was no cursor; each setting back is by more than 10000; and the watchdog
-- moves the cursor only to the newest number, and only after 15 seconds without a record.
abbrev pub Ordered : ℕ → List Event → Type 0
Ordered c [] = Unit
Ordered c (delivered q ∷ es) = (c ≢ 0 → (1 ≤ sub32 q c) × (sub32 q c ≤ 2 ^ 31)) × Ordered q es
Ordered c (set_back n ∷ es) = (n + 10000 < c) × Ordered n es
Ordered c (skipped silence newest n ∷ es) = (15 ≤ silence) × (n ≡ newest) × Ordered n es

abbrev pub AllRings : List RoundTurn → Type 0
AllRings [] = Unit
AllRings (t ∷ ts) = IsRing t.mem × AllRings ts

-- The watchdog leaves the cursor, or has waited and moves it to the newest number.
Moved : ℕ → ℕ → ℕ → ℕ → Type 0
Moved silence newest was now = (now ≡ was) ⊎ ((15 ≤ silence) × (now ≡ newest))

-- A poll, and whatever is in order behind it.
module _ (k filter : ℕ) (m : Buf) (cursor : ℕ) (hc : cursor < 2 ^ 32) (r : IsRing m) where
  abbrev next : Polled
  next = poll k filter m cursor
