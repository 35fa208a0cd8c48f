-- ===== src/Fshare/Walk/Delivery.antt =====
-- The record that the walk of src/fshare2fifo/fshare2fifo.c delivers.
use yi_outdoor_1080p_ptz.Prelude.{
  Bool, ◌∙◌, ℕ, zero, suc, ◌+◌, ◌*◌, ◌^◌, ◌≤◌, ◌<◌, ◌≡◌, ◌≢◌, refl, true, false, Option, none, some,
  inl, inr, arith, ◌==◌, not, ◌||◌, Bool-cases, [], ◌∷◌,
}
use yi_outdoor_1080p_ptz.Memory.{Buf, IsBytes, sub32}
use yi_outdoor_1080p_ptz.Fshare.Record.{RecHdr, rec_at, readable, entry_wanted, next_off, next_left}
use yi_outdoor_1080p_ptz.Fshare.Record.Bounds.{rec_at-seq_lt, rec_at-len_lt}
use yi_outdoor_1080p_ptz.Fshare.Record.Freshness.{entry_wanted_behind, readable_fits}
use yi_outdoor_1080p_ptz.Fshare.Walk.{Walk, stop, hit, walk, far_ahead, walk_fuel}
use yi_outdoor_1080p_ptz.Fshare.Walk.Log.{Entry, complete_records, find_first, AllSeq}

-- The end of a walk, by the record that is found.
abbrev pub outcome : ℕ → Option Entry → Walk
outcome cursor none = stop cursor
outcome cursor (some e) = hit e.hdr e.at

-- After a jump the same record is delivered.
walk_jumped :
    (fuel : ℕ) (m : Buf) (filter newest cursor off left : ℕ)
    → IsBytes m
    → readable m off left ≡ true
    → ((rec_at m off).seq == newest) ≡ false
    → (rec_at m off).seq ≢ 0
    → entry_wanted cursor filter (rec_at m off) ≡ true
    → walk (suc fuel) m filter newest (sub32 (rec_at m off).seq 1) off left ≡ hit (rec_at m off) off
unfolding walk
walk_jumped fuel m filter newest cursor off left bytes r n s w =
    ground (arith, entry_wanted_behind cursor filter (rec_at m off) s (rec_at-seq_lt m off bytes) w)

-- A record that ends the walk: it cannot be read, or is the newest.
abbrev pub ends_at : Buf → ℕ → ℕ → ℕ → Bool
ends_at m newest off left = not (readable m off left) || (rec_at m off).seq == newest

pub walk_end :
    (fuel : ℕ) (m : Buf) (filter newest cursor off left : ℕ)
    → ends_at m newest off left ≡ true
    → walk (suc fuel) m filter newest cursor off left ≡ stop cursor
unfolding walk
walk_end fuel m filter newest cursor off left e = rw e

walk_next :
    (fuel : ℕ) (m : Buf) (filter newest cursor off left : ℕ)
    → ends_at m newest off left ≡ false
    → entry_wanted cursor filter (rec_at m off) ≡ false
    → walk (suc fuel) m filter newest cursor off left
      ≡ walk fuel m filter newest cursor
          (next_off off (rec_at m off))
          (next_left left (rec_at m off))
unfolding walk
walk_next fuel m filter newest cursor off left e w = rw (e, w)

walk_jump :
    (fuel : ℕ) (m : Buf) (filter newest cursor off left : ℕ)
    → ends_at m newest off left ≡ false
    → entry_wanted cursor filter (rec_at m off) ≡ true
    → far_ahead cursor (rec_at m off) ≡ true
    → walk (suc fuel) m filter newest cursor off left
      ≡ walk fuel m filter newest (sub32 (rec_at m off).seq 1) off left
unfolding walk
walk_jump fuel m filter newest cursor off left e w far = rw (e, w, far)

walk_hit :
    (fuel : ℕ) (m : Buf) (filter newest cursor off left : ℕ)
    → IsBytes m
    → ends_at m newest off left ≡ false
    → entry_wanted cursor filter (rec_at m off) ≡ true
    → (rec_at m off).seq ≢ 0
    → walk (suc (suc fuel)) m filter newest cursor off left ≡ hit (rec_at m off) off
walk_hit fuel m filter newest cursor off left b e w s =
    elim (Bool-cases (far_ahead cursor (rec_at m off))) [
      | inl far ↦ walk_jump (suc fuel) m filter newest cursor off left e w far ∙ landed
      | inr near ↦ unfold walk in rw (e, w, near)
    ]
  where
    landed :
        walk (suc fuel) m filter newest (sub32 (rec_at m off).seq 1) off left
        ≡ hit (rec_at m off) off
    landed = walk_jumped fuel m filter newest cursor off left b (ground arith) (ground arith) s w

complete_records_end :
    (k : ℕ) (m : Buf) (newest off left : ℕ)
    → ends_at m newest off left ≡ true
    → complete_records k m newest off left ≡ []
unfolding complete_records
complete_records_end zero m newest off left e = refl
complete_records_end (suc k) m newest off left e = rw e

complete_records_next :
    (k : ℕ) (m : Buf) (newest off left : ℕ)
    → ends_at m newest off left ≡ false
    → complete_records (suc k) m newest off left
      ≡ record { at = off; hdr = rec_at m off }
        ∷ complete_records k m newest (next_off off (rec_at m off)) (next_left left (rec_at m off))
unfolding complete_records
complete_records_next k m newest off left e = rw e

-- With nothing left there is no record.
pub ends_at_zero : (m : Buf) (newest off left : ℕ) → left ≤ 26 → ends_at m newest off left ≡ true
unfolding readable
ends_at_zero m newest off left h = ground arith

pub next_left-lt :
    (m : Buf) (newest off left : ℕ)
    → IsBytes m
    → left < 2 ^ 32
    → ends_at m newest off left ≡ false
    → next_left left (rec_at m off) + 26 ≤ left
next_left-lt m newest off left b hl e =
    omega (arith, readable_fits m off left hl (ground arith) (rec_at-len_lt m off b))

walk_delivers_fuel :
    (k fuel : ℕ) (m : Buf) (filter newest cursor off left : ℕ)
    → IsBytes m
    → left < 2 ^ 32
    → left ≤ k
    → 2 * k + 2 ≤ fuel
    → AllSeq (λ s. s ≢ 0) (complete_records k m newest off left)
    → walk fuel m filter newest cursor off left
      ≡ outcome cursor
          (find_first (entry_wanted cursor filter) (complete_records k m newest off left))
walk_delivers_fuel k zero m filter newest cursor off left b hl hk hf nz = absurd (omega arith)
walk_delivers_fuel k (suc zero) m filter newest cursor off left b hl hk hf nz = absurd (omega arith)
walk_delivers_fuel zero (suc (suc f)) m filter newest cursor off left b hl hk hf nz =
    let e : ends_at m newest off left ≡ true = ends_at_zero m newest off left (omega arith) in
    rw
      (
        walk_end (suc f) m filter newest cursor off left e,
        complete_records_end zero m newest off left e,
      )
      (unfold find_first in refl)
walk_delivers_fuel (suc k) (suc (suc f)) m filter newest cursor off left b hl hk hf nz =
    elim (Bool-cases (ends_at m newest off left)) [
      | inl e ↦
          rw
            (
              walk_end (suc f) m filter newest cursor off left e,
              complete_records_end (suc k) m newest off left e,
            )
            (unfold find_first in refl)
      | inr e ↦
          let (s, nz') = rw (complete_records_next k m newest off left e) at nz in
          later e s (
            walk_delivers_fuel k (suc f) m filter newest cursor (next_off off h) (next_left left h)
              b (omega (arith, next_left-lt m newest off left b hl e))
              (omega (arith, next_left-lt m newest off left b hl e)) (omega arith) nz')
    ]
  where
    h : RecHdr
    h = rec_at m off

    later :
        ends_at m newest off left ≡ false
        → h.seq ≢ 0
        → walk (suc f) m filter newest cursor (next_off off h) (next_left left h)
          ≡ outcome cursor (
              find_first
                (entry_wanted cursor filter)
                (complete_records k m newest (next_off off h) (next_left left h)))
        → walk (suc (suc f)) m filter newest cursor off left
          ≡ outcome cursor
              (find_first (entry_wanted cursor filter) (complete_records (suc k) m newest off left))
    later e s ih = elim (Bool-cases (entry_wanted cursor filter h)) [
      | inl w ↦
          rw
            (
              walk_hit f m filter newest cursor off left b e w s,
              complete_records_next k m newest off left e,
            )
            (unfold find_first in rw w)
      | inr w ↦
          rw
            (
              walk_next (suc f) m filter newest cursor off left e w,
              complete_records_next k m newest off left e,
            )
            (unfold find_first in rw w ih)
    ]

-- The walk over the whole valid part of the ring has enough fuel, and delivers the first record
-- from the tail on that the slot wants, before the first unreadable one or the newest; if there is
-- none it stops with the cursor as it was. The jump over a backlog does not change which record
-- that is. Numbers of records are taken to be other than 0.
pub walk_delivers_first :
    (m : Buf) (filter newest cursor off left : ℕ)
    → IsBytes m
    → left < 2 ^ 32
    → AllSeq (λ s. s ≢ 0) (complete_records left m newest off left)
    → walk (walk_fuel left) m filter newest cursor off left
      ≡ outcome cursor
          (find_first (entry_wanted cursor filter) (complete_records left m newest off left))
walk_delivers_first m filter newest cursor off left b hl nz =
    walk_delivers_fuel left _ m filter newest cursor off left b hl (omega arith) (omega arith) nz
