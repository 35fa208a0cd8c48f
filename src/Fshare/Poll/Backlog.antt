-- ===== src/Fshare/Poll/Backlog.antt =====
-- The records of the ring that a reader of src/fshare2fifo/fshare2fifo.c has yet to be served: those
-- that `entry_wanted` passes for its cursor, in the order of the ring.
use yi_outdoor_1080p_ptz.Prelude.{
  ℕ, ◌+◌, ◌^◌, ◌≤◌, ◌<◌, ◌≡◌, ◌≢◌, inl, inr, refl, ap, Bool, true, false, List, [], ◌∷◌, none, some,
  arith, if◌then◌else◌, Bool-cases, length,
}
use mathlib.Core.Option.{some-injective}
use mathlib.Core.Path.{subst}
use yi_outdoor_1080p_ptz.Fshare.Record.{RecHdr, class_wanted, entry_wanted}
use yi_outdoor_1080p_ptz.Fshare.Walk.Log.{Entry, find_first}
use yi_outdoor_1080p_ptz.Fshare.Walk.Entries.{AllEntries}
use yi_outdoor_1080p_ptz.Fshare.Claim.Log.{Consecutive, In, In-seq}

-- The entries that pass.
unfoldable pub sift : (RecHdr → Bool) → List Entry → List Entry
sift p [] = []
sift p (e ∷ es) = let rest = sift p es in if p e.hdr then e ∷ rest else rest

abbrev pub backlog : ℕ → ℕ → List Entry → List Entry
backlog cursor filter es = sift (entry_wanted cursor filter) es

pub sift-length : (p : RecHdr → Bool) (es : List Entry) → length (sift p es) ≤ length es
unfolding sift
sift-length p [] = omega arith
sift-length p (e ∷ es) = ground (arith, sift-length p es)

pub sift-none : (p : RecHdr → Bool) (es : List Entry) → find_first p es ≡ none → sift p es ≡ []
unfolding sift find_first
sift-none p [] q = refl
sift-none p (e ∷ es) q = elim (Bool-cases (p e.hdr)) [
  | inl t ↦ cc
  | inr f ↦ rw f (sift-none p es (rw f at q))
]

-- A cursor at or ahead of a record does not want it; one behind wants it if its class is asked for.
behind :
    (filter cursor : ℕ) (h : RecHdr)
    → 0 < cursor
    → cursor < 2 ^ 31
    → 0 < h.seq
    → h.seq ≤ cursor
    → entry_wanted cursor filter h ≡ false
unfolding entry_wanted
behind filter cursor h p hi q le = ground arith

ahead :
    (filter cursor : ℕ) (h : RecHdr)
    → cursor < h.seq
    → h.seq < 2 ^ 31
    → entry_wanted cursor filter h ≡ class_wanted filter h
unfolding entry_wanted
ahead filter cursor h lt hi = ground arith

-- Behind the numbers of a run it does not matter which of two earlier cursors is taken.
sift-ahead :
    (filter s c d : ℕ) (es : List Entry)
    → Consecutive s es
    → c < s
    → d < s
    → s + length es ≤ 2 ^ 31
    → backlog c filter es ≡ backlog d filter es
unfolding sift
sift-ahead filter s c d [] run hc hd hi = refl
sift-ahead filter s c d (x ∷ xs) (h, run) hc hd hi = rw (
  ahead filter c x.hdr (omega arith) (omega arith),
  ahead filter d x.hdr (omega arith) (omega arith),
  sift-ahead filter (s + 1) c d xs run (omega arith) (omega arith) (omega arith),
)

-- A record that a cursor wants is ahead of it.
wanted-ahead :
    (filter cursor : ℕ) (h : RecHdr)
    → 0 < h.seq
    → h.seq < 2 ^ 31
    → cursor < 2 ^ 31
    → entry_wanted cursor filter h ≡ true
    → cursor < h.seq
unfolding entry_wanted
wanted-ahead filter cursor h p hi hc w = ground arith

pub find_first-In :
    (p : RecHdr → Bool) (es : List Entry) (e : Entry) → find_first p es ≡ some e → In e es
unfolding find_first
find_first-In p [] e q = cc
find_first-In p (x ∷ xs) e q = elim (Bool-cases (p x.hdr)) [
  | inl t ↦ inl (some-injective x e (rw t at q))
  | inr f ↦ inr (find_first-In p xs e (rw f at q))
]

-- The first of the backlog is served next, and the rest is the backlog of the cursor that it leaves.
pub backlog-next :
    (filter s cursor : ℕ) (es : List Entry) (e : Entry)
    → Consecutive s es
    → 0 < s
    → s + length es ≤ 2 ^ 31
    → cursor < 2 ^ 31
    → find_first (entry_wanted cursor filter) es ≡ some e
    → backlog cursor filter es ≡ e ∷ backlog e.hdr.seq filter es
unfolding sift find_first
backlog-next filter s cursor [] e run pos hi hc q = cc
backlog-next filter s cursor (x ∷ xs) e (h, run) pos hi hc q =
    elim (Bool-cases (entry_wanted cursor filter x.hdr)) [
      | inl t ↦
          let lt = wanted-ahead filter cursor x.hdr (omega arith) (omega arith) hc t in
          subst Next (some-injective x e (rw t at q)) (
            rw
              (
                t,
                behind filter x.hdr.seq x.hdr (omega arith) (omega arith) (omega arith)
                    (omega arith),
              )
              (ap (◌∷◌ x) (
                sift-ahead filter (s + 1) cursor x.hdr.seq xs run (omega arith) (omega arith)
                  (omega arith))))
      | inr f ↦
          let q' : find_first (entry_wanted cursor filter) xs ≡ some e = rw f at q in
          let (lo, up) = In-seq (s + 1) xs e run (find_first-In _ xs e q') in
          rw
            (
              f,
              behind filter e.hdr.seq x.hdr (omega arith) (omega arith) (omega arith) (omega arith),
            )
            (backlog-next filter (s + 1) cursor xs e run (omega arith) (omega arith) hc q')
    ]
  where
    Next : Entry → Type 0
    Next y = backlog cursor filter (x ∷ xs) ≡ y ∷ backlog y.hdr.seq filter (x ∷ xs)

-- No number of the run passes.
backlog-behind :
    (filter s cursor : ℕ) (es : List Entry)
    → Consecutive s es
    → 0 < s
    → s + length es ≤ cursor + 1
    → cursor < 2 ^ 31
    → backlog cursor filter es ≡ []
unfolding sift
backlog-behind filter s cursor [] run pos le hc = refl
backlog-behind filter s cursor (x ∷ xs) (h, run) pos le hc =
    rw (behind filter cursor x.hdr (omega arith) hc (omega arith) (omega arith))
      (backlog-behind filter (s + 1) cursor xs run (omega arith) (omega arith) hc)

-- The numbers pass over `newest`, so the record before it is the last.
run-last :
    (newest : ℕ) (xs : List Entry)
    → Consecutive newest xs
    → AllEntries (λ x. x.hdr.seq ≢ newest) xs
    → length xs ≡ 0
run-last newest [] run other = refl
run-last newest (x ∷ xs) (h, run) (ox, other) = absurd (ox h)

run-end :
    (s newest : ℕ) (es : List Entry) (e : Entry)
    → Consecutive s es
    → AllEntries (λ x. x.hdr.seq ≢ newest) es
    → In e es
    → e.hdr.seq + 1 ≡ newest
    → s + length es ≡ newest
run-end s newest [] e run other i q = elim i [ ]
run-end s newest (x ∷ xs) e (h, run) (ox, other) (inl p) q =
    let same : x.hdr.seq ≡ e.hdr.seq = ap (λ (y : Entry). y.hdr.seq) p in
    let next : s + 1 ≡ newest = omega arith in
    omega (arith, run-last newest xs (subst (λ z. Consecutive z xs) next run) other)
run-end s newest (x ∷ xs) e (h, run) (ox, other) (inr i) q =
    omega (arith, run-end (s + 1) newest xs e run other i q)

-- Nothing is left behind the record whose number is the one before the newest.
pub backlog-caught_up :
    (filter s newest : ℕ) (es : List Entry) (e : Entry)
    → Consecutive s es
    → 0 < s
    → AllEntries (λ x. x.hdr.seq ≢ newest) es
    → In e es
    → e.hdr.seq + 1 ≡ newest
    → e.hdr.seq < 2 ^ 31
    → backlog e.hdr.seq filter es ≡ []
backlog-caught_up filter s newest es e run pos other i q hi =
    backlog-behind filter s e.hdr.seq es run pos
      (omega (arith, run-end s newest es e run other i q)) hi
