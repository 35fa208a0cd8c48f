-- ===== src/Fshare/Poll/Drain.antt =====
-- The polls of src/fshare2fifo/fshare2fifo.c one after the other, with neither a write of the
-- application nor a look of the watchdog between them.
use yi_outdoor_1080p_ptz.Prelude.{
  ℕ, zero, suc, ◌+◌, ◌^◌, ◌≤◌, ◌<◌, ◌≡◌, ◌≢◌, inl, inr, refl, true, sym, ap, ap₂, ◌∙◌, List, [],
  ◌∷◌, Option, none, some, arith, ◌==◌, if◌then◌else◌, length, Option-cases, Bool-cases,
}
use yi_outdoor_1080p_ptz.Memory.{Buf, u32}
use yi_outdoor_1080p_ptz.Fshare.Layout.{nslot, slot_off, hdr_valid, hdr_seq, hdr_u32, ring_copy}
use yi_outdoor_1080p_ptz.Fshare.Record.{entry_wanted}
use yi_outdoor_1080p_ptz.Fshare.Walk.Log.{Entry, find_first}
use yi_outdoor_1080p_ptz.Fshare.Record.Bounds.{hdr_u32-lt}
use yi_outdoor_1080p_ptz.Fshare.Walk.Entries.{
  AllEntries, AllEntries-mono, IsComplete, complete_records-IsComplete,
}
use yi_outdoor_1080p_ptz.Fshare.Walk.Frame.{ring_copy-SameRing}
use yi_outdoor_1080p_ptz.Fshare.Poll.{Delivered, Polled, poll}
use yi_outdoor_1080p_ptz.Fshare.Poll.Result.{visible, IsServed, IsIdle, PollSpec, poll-PollSpec}
use yi_outdoor_1080p_ptz.Fshare.Poll.Frame.{poll-Elsewhere}
use yi_outdoor_1080p_ptz.Fshare.Poll.Mirror.{
  IsRing, poll-IsRing, visible-SameElsewhere, SameElsewhere, hdr_u32-SameElsewhere,
}
use yi_outdoor_1080p_ptz.Fshare.Poll.Backlog.{
  backlog, sift-none, find_first-In, backlog-next, backlog-caught_up,
}
use yi_outdoor_1080p_ptz.Fshare.Claim.Log.{Consecutive, In-seq}

-- The deliveries of some polls and the memory that they leave.
pub record Drained : Type 0 where
  pub mem : Buf
  pub got : List Delivered

abbrev pub noted : Option Delivered → List Delivered → List Delivered
noted none ds = ds
noted (some d) ds = d ∷ ds

abbrev pub after_round : Polled → Drained → Drained
after_round r rest = record { mem = rest.mem; got = noted r.got rest.got }

-- So many polls.
unfoldable pub poll_rounds : ℕ → ℕ → ℕ → Buf → ℕ → Drained
poll_rounds zero k filter m cursor = record { mem = m; got = [] }
poll_rounds (suc n) k filter m cursor =
    let r = poll k filter m cursor in after_round r (poll_rounds n k filter r.mem r.cursor)

-- What a delivery of the entry consists of.
abbrev pub content : Buf → Entry → Delivered
content m e = record {
  payload = ring_copy m (u32 (e.at + 26)) e.hdr.len;
  len = e.hdr.len;
  kind = e.hdr.kind;
}

abbrev pub contents : Buf → List Entry → List Delivered
contents m [] = []
contents m (e ∷ es) = content m e ∷ contents m es

poll-SameElsewhere :
    (k filter : ℕ) (m : Buf) (cursor : ℕ) → SameElsewhere k m (poll k filter m cursor).mem
poll-SameElsewhere k filter m cursor a e = poll-Elsewhere k filter m cursor a (ground arith)

-- A poll leaves the number of valid bytes.
pub poll-valid_same :
    (k filter : ℕ) (m : Buf) (cursor : ℕ)
    → k < nslot
    → hdr_u32 (poll k filter m cursor).mem hdr_valid ≡ hdr_u32 m hdr_valid
poll-valid_same k filter m cursor slot =
    hdr_u32-SameElsewhere k m (poll k filter m cursor).mem slot
      (poll-SameElsewhere k filter m cursor) hdr_valid (omega arith)

contents-SameElsewhere :
    (k : ℕ) (m m' : Buf) (es : List Entry)
    → k < nslot
    → SameElsewhere k m m'
    → contents m' es ≡ contents m es
contents-SameElsewhere k m m' [] slot same = refl
contents-SameElsewhere k m m' (e ∷ es) slot same =
    rw
      (
        ring_copy-SameRing m' m (λ a h. same a (inr (omega arith))) (u32 (e.at + 26)) e.hdr.len,
        contents-SameElsewhere k m m' es slot same,
      )
      refl

-- A slot that is not pending is left alone.
pub poll-asleep :
    (k filter : ℕ) (m : Buf) (cursor : ℕ)
    → hdr_u32 m (slot_off k) ≡ 0
    → poll k filter m cursor ≡ record { mem = m; cursor = cursor; got = none }
unfolding poll
poll-asleep k filter m cursor h = rw h refl

abbrev Asleep : ℕ → Drained → Type 0
Asleep k d = (hdr_u32 d.mem (slot_off k) ≡ 0) × (d.got ≡ [])

poll_rounds-Asleep :
    (n k filter : ℕ) (m : Buf) (cursor : ℕ)
    → hdr_u32 m (slot_off k) ≡ 0
    → Asleep k (poll_rounds n k filter m cursor)
unfolding poll_rounds
poll_rounds-Asleep zero k filter m cursor h = (h, refl)
poll_rounds-Asleep (suc n) k filter m cursor h =
    rw (poll-asleep k filter m cursor h) (poll_rounds-Asleep n k filter m cursor h)

-- The slot sleeps and the entries have been delivered.
abbrev pub IsDrained : ℕ → Buf → List Entry → Drained → Type 0
IsDrained k m es d = (d.got ≡ contents m es) × (hdr_u32 d.mem (slot_off k) ≡ 0)

idle_round :
    (n k filter : ℕ) (m : Buf) (newest cursor : ℕ) (r : Polled)
    → IsIdle k newest cursor r
    → IsDrained k m [] (after_round r (poll_rounds n k filter r.mem r.cursor))
idle_round n k filter m newest cursor r idle =
    let (sleeps, quiet) : Asleep k (poll_rounds n k filter r.mem r.cursor) =
      poll_rounds-Asleep n k filter r.mem r.cursor idle.pending in
    rw (idle.got, quiet) (refl, sleeps)

module _ (n k filter : ℕ) (m : Buf) (newest : ℕ) (e : Entry) (es : List Entry) (r : Polled)
    (served : IsServed k m newest e r) where
  -- The record before the newest was the last one.
  last_round :
      (u32 (e.hdr.seq + 1) == newest) ≡ true
      → es ≡ []
      → IsDrained k m (e ∷ es) (after_round r (poll_rounds n k filter r.mem r.cursor))
  last_round t none_left =
      let (sleeps, quiet) =
        poll_rounds-Asleep n k filter r.mem r.cursor
          (served.pending ∙ ap (λ b. if b then 0 else hdr_u32 m (slot_off k)) t) in
      rw (served.got, quiet, none_left) (refl, sleeps)

  next_round :
      k < nslot
      → SameElsewhere k m r.mem
      → IsDrained k r.mem es (poll_rounds n k filter r.mem r.cursor)
      → IsDrained k m (e ∷ es) (after_round r (poll_rounds n k filter r.mem r.cursor))
  next_round slot same (rest, sleeps) =
      rw (served.got, rest, contents-SameElsewhere k m r.mem es slot same) (refl, sleeps)

not_newest : (m : Buf) → IsRing m → AllEntries (λ x. x.hdr.seq ≢ hdr_u32 m hdr_seq) (visible m)
not_newest m r =
    AllEntries-mono
      (λ e (c : IsComplete m (hdr_u32 m hdr_seq) (hdr_u32 m hdr_valid) e). c.not_newest) _
      (complete_records-IsComplete _ m _ _ _ r.bytes r.tail_in (hdr_u32-lt m hdr_valid r.bytes))

-- A delivery, and what the rounds behind it do if the slot is still pending.
serve_round :
    (n k filter s : ℕ) (m : Buf) (cursor : ℕ) (e : Entry)
    → k < nslot
    → IsRing m
    → hdr_u32 m (slot_off k) ≢ 0
    → Consecutive s (visible m)
    → 0 < s
    → s + length (visible m) ≤ 2 ^ 31
    → find_first (entry_wanted cursor filter) (visible m) ≡ some e
    → IsServed k m (hdr_u32 m hdr_seq) e (poll k filter m cursor)
    → (hdr_u32 (poll k filter m cursor).mem (slot_off k) ≢ 0
        → IsDrained k
            (poll k filter m cursor).mem
            (backlog e.hdr.seq filter (visible m))
            (poll_rounds n k filter (poll k filter m cursor).mem (poll k filter m cursor).cursor))
    → IsDrained k m (e ∷ backlog e.hdr.seq filter (visible m)) (
        after_round
          (poll k filter m cursor)
          (poll_rounds n k filter (poll k filter m cursor).mem (poll k filter m cursor).cursor))
serve_round n k filter s m cursor e slot r p run pos hi q served later =
    let newest = hdr_u32 m hdr_seq in
    let (lo, up) = In-seq s (visible m) e run (find_first-In _ _ e q) in
    elim (Bool-cases (u32 (e.hdr.seq + 1) == newest)) [
      | inl t ↦ last_round n k filter m newest e _ _ served t (
          backlog-caught_up filter s newest (visible m) e run pos (not_newest m r)
            (find_first-In _ _ e q) (ground arith) (omega arith))
      | inr f ↦
          next_round n k filter m newest e _ _ served slot (poll-SameElsewhere k filter m cursor) (
            later (λ z.
              p (sym (served.pending ∙ ap (λ b. if b then 0 else hdr_u32 m (slot_off k)) f) ∙ z)))
    ]

-- The polls of a pending slot deliver every record of the backlog, each once, in the order of the
-- ring, and nothing else; and then the slot is no longer pending. One poll more than there are such
-- records is enough.
pub poll_rounds-IsDrained :
    (n k filter s : ℕ) (m : Buf) (cursor : ℕ)
    → k < nslot
    → IsRing m
    → hdr_u32 m (slot_off k) ≢ 0
    → Consecutive s (visible m)
    → 0 < s
    → s + length (visible m) ≤ 2 ^ 31
    → cursor < 2 ^ 31
    → length (backlog cursor filter (visible m)) < n
    → IsDrained k m (backlog cursor filter (visible m)) (poll_rounds n k filter m cursor)
unfolding poll_rounds
poll_rounds-IsDrained zero k filter s m cursor slot r p run pos hi hc enough = absurd (omega arith)
poll_rounds-IsDrained (suc n) k filter s m cursor slot r p run pos hi hc enough =
    elim (Option-cases (find_first (entry_wanted cursor filter) (visible m))) [
      | inl q ↦ rw (sift-none _ _ q) (idle_round n k filter m newest cursor next (rw q at spec))
      | inr (e, q) ↦
          let served : IsServed k m newest e next = rw q at spec in
          let (lo, up) = In-seq s (visible m) e run (find_first-In _ _ e q) in
          let split = backlog-next filter s cursor (visible m) e run pos hi hc q in
          rw split (
            serve_round n k filter s m cursor e slot r p run pos hi q served λ awake.
              let rest =
                poll_rounds-IsDrained n k filter s next.mem next.cursor slot
                  (poll-IsRing k filter m cursor slot r) awake (rw same run) pos (rw same hi)
                  (rw served.cursor_is (omega arith))
                  (rw (same, served.cursor_is) (omega (arith, ap length split))) in
              (
                rest.0
                    ∙ ap (contents next.mem)
                        (ap₂ (λ c es. backlog c filter es) served.cursor_is same),
                rest.1,
              ))
    ]
  where
    newest : ℕ
    newest = hdr_u32 m hdr_seq

    next : Polled
    next = poll k filter m cursor

    spec : PollSpec k m newest cursor next (find_first (entry_wanted cursor filter) (visible m))
    spec = poll-PollSpec k filter m cursor r.bytes p r.tail_in r.numbered

    same : visible next.mem ≡ visible m
    same = visible-SameElsewhere k m next.mem slot (poll-SameElsewhere k filter m cursor)
