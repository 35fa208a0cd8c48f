-- ===== src/Fshare/Claim/Log.antt =====
-- The join scan of src/fshare2fifo/fshare2fifo.c and the list of complete records.
use mathlib.Core.Path.{subst}
use mathlib.Core.Option.{some-injective}
use yi_outdoor_1080p_ptz.Prelude.{
  ℕ, zero, suc, ◌+◌, ◌-◌, ◌^◌, ◌≤◌, ◌<◌, ◌≡◌, ◌≢◌, ◌⊎◌, inl, inr, refl, sym, ap, Bool, true, false,
  not, ◌||◌, List, [], ◌∷◌, Option, none, some, arith, ◌==◌, if◌then◌else◌, Bool-cases, length,
}
use yi_outdoor_1080p_ptz.Memory.{Buf, IsBytes}
use yi_outdoor_1080p_ptz.Memory.Laws.{write-to_le-IsBytes}
use yi_outdoor_1080p_ptz.Fshare.Layout.{slot_off, filter_hires, hdr_wr_u32, hdr_wr_u16}
use yi_outdoor_1080p_ptz.Fshare.Record.{
  RecHdr, class_wanted, entry_wanted, rec_at, readable, next_off, next_left,
}
use yi_outdoor_1080p_ptz.Fshare.Walk.Log.{Entry, complete_records, find_first, find_last, AllSeq}
use yi_outdoor_1080p_ptz.Fshare.Claim.{
  filter_of, chain_start, join_scan, join_cursor, seed, take_slot,
}

-- The number that a scan comes back with.
abbrev pub seq_or : ℕ → Option Entry → ℕ
seq_or best none = best
seq_or best (some e) = e.hdr.seq

pub join_scan-find_last :
    (k : ℕ) (m : Buf) (newest best off left : ℕ) (acc : Option Entry)
    → join_scan k m newest (seq_or best acc) off left
      ≡ seq_or best (find_last (chain_start newest) acc (complete_records k m newest off left))
unfolding join_scan complete_records find_last
join_scan-find_last zero m newest best off left acc = refl
join_scan-find_last (suc k) m newest best off left acc =
    elim (Bool-cases (not (readable m off left) || (rec_at m off).seq == newest)) [
      | inl e ↦ rw e
      | inr e ↦ rw e (
          step (chain_start newest h)
            (join_scan-find_last k m newest best (next_off off h) (next_left left h)))
    ]
  where
    h : RecHdr
    h = rec_at m off

    entry : Entry
    entry = record { at = off; hdr = h }

    Agree : ℕ → Option Entry → Type 0
    Agree found o =
        join_scan k m newest found (next_off off h) (next_left left h)
        ≡ seq_or best (
            find_last (chain_start newest) o
              (complete_records k m newest (next_off off h) (next_left left h)))

    step :
        (b : Bool)
        → ((o : Option Entry) → Agree (seq_or best o) o)
        → Agree (if b then h.seq else seq_or best acc) (if b then some entry else acc)
    step true ih = ih (some entry)
    step false ih = ih acc

-- The entry stands in the list.
abbrev pub In : Entry → List Entry → Type 0
In e [] = ⊥
In e (x ∷ xs) = (x ≡ e) ⊎ In e xs

-- The records are numbered one by one from `s` on.
abbrev pub Consecutive : ℕ → List Entry → Type 0
Consecutive s [] = Unit
Consecutive s (x ∷ xs) = (x.hdr.seq ≡ s) × Consecutive (s + 1) xs

pub In-seq :
    (s : ℕ) (es : List Entry) (e : Entry)
    → Consecutive s es
    → In e es
    → (s ≤ e.hdr.seq) × (e.hdr.seq < s + length es)
In-seq s [] e c p = elim p [ ]
In-seq s (x ∷ xs) e (h, c) (inl p) =
    let q : x.hdr.seq ≡ e.hdr.seq = ap (λ (y : Entry). y.hdr.seq) p in omega arith
In-seq s (x ∷ xs) e (h, c) (inr p) = omega (arith, In-seq (s + 1) xs e c p)

-- The last entry that passes is in the list, or is the one that the search began with.
pub find_last_sound :
    (p : RecHdr → Bool) (acc : Option Entry) (es : List Entry) (e : Entry)
    → find_last p acc es ≡ some e
    → (acc ≡ some e) ⊎ (In e es × (p e.hdr ≡ true))
unfolding find_last
find_last_sound p acc [] e q = inl q
find_last_sound p acc (x ∷ xs) e q = elim (Bool-cases (p x.hdr)) [
  | inl t ↦ elim (find_last_sound p (some x) xs e (rw t at q)) [
    | inl same ↦
        let eq : x ≡ e = some-injective x e same in
        inr (inl eq, subst (λ (y : Entry). p y.hdr ≡ true) eq t)
    | inr (i, pe) ↦ inr (inr i, pe)
  ]
  | inr f ↦ elim (find_last_sound p acc xs e (rw f at q)) [
    | inl same ↦ inl same
    | inr (i, pe) ↦ inr (inr i, pe)
  ]
]

-- A record behind the cursor is not wanted.
pub not_wanted_behind :
    (filter : ℕ) (h : RecHdr) (target : ℕ)
    → h.seq < target
    → 2 ≤ target
    → target < 2 ^ 31
    → entry_wanted (target - 1) filter h ≡ false
unfolding entry_wanted
not_wanted_behind filter h target lt two hi = ground arith

pub wanted_next :
    (filter : ℕ) (h : RecHdr)
    → 2 ≤ h.seq
    → h.seq < 2 ^ 31
    → class_wanted filter h ≡ true
    → entry_wanted (h.seq - 1) filter h ≡ true
unfolding entry_wanted
wanted_next filter h two hi c = ground arith

-- In a run of numbers the cursor before an entry of the class finds that entry first.
pub find_first-Consecutive :
    (filter s : ℕ) (es : List Entry) (e : Entry)
    → Consecutive s es
    → In e es
    → 2 ≤ e.hdr.seq
    → e.hdr.seq < 2 ^ 31
    → class_wanted filter e.hdr ≡ true
    → find_first (entry_wanted (e.hdr.seq - 1) filter) es ≡ some e
unfolding find_first
find_first-Consecutive filter s [] e c p two hi cl = elim p [ ]
find_first-Consecutive filter s (x ∷ xs) e (h, c) (inl p) two hi cl =
    let w : entry_wanted (e.hdr.seq - 1) filter x.hdr ≡ true =
      subst (λ (y : Entry). entry_wanted (e.hdr.seq - 1) filter y.hdr ≡ true) (sym p)
        (wanted_next filter e.hdr two hi cl) in
    rw w (ap some p)
find_first-Consecutive filter s (x ∷ xs) e (h, c) (inr p) two hi cl =
    let (lo, _) = In-seq (s + 1) xs e c p in
    rw (not_wanted_behind filter x.hdr e.hdr.seq (omega arith) two hi)
      (find_first-Consecutive filter (s + 1) xs e c p two hi cl)

pub chain_start-class :
    (newest : ℕ) (h : RecHdr) → chain_start newest h ≡ true → class_wanted filter_hires h ≡ true
unfolding chain_start class_wanted
chain_start-class newest h c = let k : h.kind ≡ 0x0422 = ground arith in rw k

pub Consecutive-AllSeq :
    (s : ℕ) (es : List Entry) → 0 < s → Consecutive s es → AllSeq (λ n. n ≢ 0) es
Consecutive-AllSeq s [] p c = tt
Consecutive-AllSeq s (x ∷ xs) p (h, c) =
    ((λ z. absurd (omega arith)), Consecutive-AllSeq (s + 1) xs (omega arith) c)

-- A claim stores words over bytes.
pub take_slot-IsBytes :
    (audio : Bool) (m : Buf) (k : ℕ) → IsBytes m → IsBytes (take_slot audio m k).mem
unfolding take_slot hdr_wr_u32 hdr_wr_u16
take_slot-IsBytes audio m k b = write-to_le-IsBytes 2 _ (slot_off k + 12) (filter_of audio) (
    write-to_le-IsBytes 4 _ (slot_off k) 1
      (write-to_le-IsBytes 4 m (slot_off k + 8) (seed audio (join_cursor audio m) m) b))
