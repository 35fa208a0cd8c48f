-- ===== src/Fshare/Stall/Patience.antt =====
-- How long the stall watchdog of src/fshare2fifo/fshare2fifo.c waits.
use yi_outdoor_1080p_ptz.Prelude.{
  ℕ, ◌+◌, ◌-◌, ◌*◌, ◌≤◌, ◌≡◌, true, false, List, [], ◌∷◌, some, leb, leb→le, ◌==◌, arith, if-both,
  if-each, Bool-cases, inl, inr,
}
use mathlib.Core.Option.{some-injective}
use yi_outdoor_1080p_ptz.Memory.{Buf}
use yi_outdoor_1080p_ptz.Fshare.Layout.{hdr_u32, hdr_valid}
use yi_outdoor_1080p_ptz.Fshare.Stall.{Watch, Watched, reanchor, stall_watch, note_got, idle_rounds}

-- The last record was consumed at `t`, and each anchor since took its time.
abbrev Patient : ℕ → Watch → Type 0
Patient t w = (t + 15 * w.anchors ≤ w.last_emit) × (w.anchors ≤ 3)

-- A look that does not end the reader keeps the account, and one that does ends it after a minute.
abbrev Kept : ℕ → ℕ → Watched → Type 0
Kept t now r = (r.exits ≡ true → t + 60 ≤ now) × (r.exits ≡ false → Patient t r.watch)

reanchor-Kept :
    (t now k : ℕ) (m : Buf) (w : Watch)
    → Patient t w
    → 15 ≤ now - w.last_emit
    → Kept t now (reanchor now k m w)
unfolding reanchor
reanchor-Kept t now k m w (since, few) long =
    if-each (Kept t now) (leb 4 (w.anchors + 1)) (λ last. ((λ e. ground arith), (λ e. cc)))
      (λ more. ((λ e. cc), (λ e. ground arith)))

stall_watch-Kept :
    (t now k : ℕ) (m : Buf) (w : Watch) → Patient t w → Kept t now (stall_watch now k m w)
unfolding stall_watch
stall_watch-Kept t now k m w p = if-both (Kept t now) (w.last_emit == 0) {x = quiet} waits (
    if-both (Kept t now) (hdr_u32 m hdr_valid == w.last_valid) {x = quiet} waits (
      if-each (Kept t now) (leb 15 (now - w.last_emit))
        (λ long. reanchor-Kept t now k m w p (leb→le 15 (now - w.last_emit) long))
        (λ short. ((λ e. cc), (λ e. p)))))
  where
    quiet : Watched
    quiet = record { mem = m; watch = w; exits = false }

    waits : Kept t now quiet
    waits = ((λ e. cc), (λ e. p))

rounds_lem :
    (t k : ℕ) (rounds : List (ℕ × Buf)) (w : Watch) (end : ℕ)
    → Patient t w
    → idle_rounds k rounds w ≡ some end
    → t + 60 ≤ end
unfolding idle_rounds
rounds_lem t k [] w end p q = cc
rounds_lem t k ((now, m) ∷ rest) w end p q =
    let (gone, kept) = stall_watch-Kept t now k m w p in
    elim (Bool-cases (stall_watch now k m w).exits) [
      | inl e ↦ let same : now ≡ end = some-injective now end (rw e at q) in omega (arith, gone e)
      | inr e ↦ rounds_lem t k rest (stall_watch now k m w).watch end (kept e) (rw e at q)
    ]

-- From the round that consumed a record at time `t` on, the watchdog does not give the slot up
-- before a minute has passed without another record, whatever the writer does meanwhile.
pub idle_rounds_lem :
    (t k : ℕ) (rounds : List (ℕ × Buf)) (w : Watch) (end : ℕ)
    → idle_rounds k rounds (note_got t w) ≡ some end
    → t + 60 ≤ end
unfolding note_got
idle_rounds_lem t k rounds w end q =
    rounds_lem t k rounds (record w { last_emit = t; anchors = 0 }) end (omega arith) q
