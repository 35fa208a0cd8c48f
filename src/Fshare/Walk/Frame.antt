-- ===== src/Fshare/Walk/Frame.antt =====
-- The records of two images of the memory with the same ring.
use yi_outdoor_1080p_ptz.Prelude.{
  ℕ, zero, suc, ◌-◌, ◌≤◌, ◌≡◌, refl, ap, ap₂, [], ◌++◌, arith, ltb, if◌then◌else◌,
}
use yi_outdoor_1080p_ptz.Memory.{Buf, read, sub32}
use yi_outdoor_1080p_ptz.Memory.Laws.{read_ext}
use yi_outdoor_1080p_ptz.Fshare.Layout.{data_off, ring_copy}
use yi_outdoor_1080p_ptz.Fshare.Record.{decode, rec_at, readable, next_off, next_left}
use yi_outdoor_1080p_ptz.Fshare.Walk.{walk}
use yi_outdoor_1080p_ptz.Fshare.Walk.Log.{complete_records}

-- The two images have the same ring.
abbrev pub SameRing : Buf → Buf → Type 0
SameRing m m' = (a : ℕ) → data_off ≤ a → m a ≡ m' a

module _ (m m' : Buf) (same : SameRing m m') where
  read-SameRing : (off n : ℕ) → data_off ≤ off → read m off n ≡ read m' off n
  read-SameRing off n h = read_ext m m' off n (λ a p q. same a (omega arith))

  pub ring_copy-SameRing : (off n : ℕ) → ring_copy m off n ≡ ring_copy m' off n
  unfolding ring_copy
  ring_copy-SameRing off n = ap₂ ◌++◌ (read-SameRing _ _ (omega arith)) (second _)
    where
      second :
          (first : ℕ)
          → (if ltb first n then read m 300 (n - first) else [])
            ≡ (if ltb first n then read m' 300 (n - first) else [])
      second first =
          ap (λ r. if ltb first n then r else []) (read-SameRing 300 (n - first) (omega arith))

  pub rec_at-SameRing : (off : ℕ) → rec_at m off ≡ rec_at m' off
  unfolding rec_at
  rec_at-SameRing off = ap decode (ring_copy-SameRing off 28)

  readable-SameRing : (off left : ℕ) → readable m off left ≡ readable m' off left
  unfolding readable
  readable-SameRing off left = rw (rec_at-SameRing off)

  pub complete_records-SameRing :
      (k newest off left : ℕ)
      → complete_records k m newest off left ≡ complete_records k m' newest off left
  unfolding complete_records
  complete_records-SameRing zero newest off left = refl
  complete_records-SameRing (suc k) newest off left = rw (
    rec_at-SameRing off,
    readable-SameRing off left,
    complete_records-SameRing k newest (next_off off (rec_at m' off))
        (next_left left (rec_at m' off)),
  )

  pub walk-SameRing :
      (k filter newest cursor off left : ℕ)
      → walk k m filter newest cursor off left ≡ walk k m' filter newest cursor off left
  unfolding walk
  walk-SameRing zero filter newest cursor off left = refl
  walk-SameRing (suc k) filter newest cursor off left = rw (
    rec_at-SameRing off,
    readable-SameRing off left,
    walk-SameRing k filter newest (sub32 (rec_at m' off).seq 1) off left,
    walk-SameRing k filter newest cursor (next_off off (rec_at m' off))
        (next_left left (rec_at m' off)),
  )
