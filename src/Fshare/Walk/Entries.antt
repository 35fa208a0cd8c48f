-- ===== src/Fshare/Walk/Entries.antt =====
-- What every entry of the ring's list of records satisfies.
use yi_outdoor_1080p_ptz.Prelude.{
  ℕ, zero, suc, ◌+◌, ◌^◌, ◌≤◌, ◌<◌, ◌≡◌, ◌≢◌, refl, Bool, true, false, inl, inr, List, [], ◌∷◌,
  some, arith, Bool-cases, ◌==◌, ◌||◌, not,
}
use mathlib.Core.Path.{subst}
use mathlib.Core.Option.{some-injective}
use yi_outdoor_1080p_ptz.Memory.{Buf, IsBytes}
use yi_outdoor_1080p_ptz.Fshare.Layout.{data_sz, max_pay}
use yi_outdoor_1080p_ptz.Fshare.Record.{RecHdr, rec_at, readable, next_off, next_left}
use yi_outdoor_1080p_ptz.Fshare.Record.Bounds.{rec_at-seq_lt, rec_at-len_lt}
use yi_outdoor_1080p_ptz.Fshare.Record.Freshness.{readable_fits}
use yi_outdoor_1080p_ptz.Fshare.Walk.Log.{Entry, complete_records, find_first}

abbrev pub AllEntries : (Entry → Type 0) → List Entry → Type 0
AllEntries P [] = Unit
AllEntries P (e ∷ es) = P e × AllEntries P es

pub AllEntries-mono :
    {P Q : Entry → Type 0}
    → ((e : Entry) → P e → Q e)
    → (es : List Entry) → AllEntries P es
    → AllEntries Q es
AllEntries-mono f [] a = tt
AllEntries-mono f (e ∷ es) (p, a) = (f e p, AllEntries-mono f es a)

pub find_first_sound :
    (P : Entry → Type 0) (p : RecHdr → Bool) (es : List Entry) {e : Entry}
    → AllEntries P es
    → find_first p es ≡ some e
    → P e × (p e.hdr ≡ true)
unfolding find_first
find_first_sound P p [] h q = cc
find_first_sound P p (x ∷ es) {e} (hx, h) q = elim (Bool-cases (p x.hdr)) [
  | inl t ↦ subst (λ y. P y × (p y.hdr ≡ true)) (some-injective x e (rw t at q)) (hx, t)
  | inr f ↦ find_first_sound P p es h (rw f at q)
]

-- A record of the list is the one that stands at its offset; it is complete and fits the payload
-- buffer.
pub record IsComplete (m : Buf) (newest left : ℕ) (e : Entry) : Type 0 where
  pub decoded : e.hdr ≡ rec_at m e.at
  pub at_in : e.at < data_sz
  pub len_fits : e.hdr.len ≤ max_pay
  pub inside : 26 + e.hdr.len ≤ left
  pub seq_fits : e.hdr.seq < 2 ^ 32
  pub not_newest : e.hdr.seq ≢ newest

IsComplete-head :
    (m : Buf) (newest off left : ℕ)
    → IsBytes m
    → off < data_sz
    → left < 2 ^ 32
    → (not (readable m off left) || (rec_at m off).seq == newest) ≡ false
    → IsComplete m newest left (record { at = off; hdr = rec_at m off })
IsComplete-head m newest off left b ho hl e =
    let (fits, pay, step) = readable_fits m off left hl (ground arith) (rec_at-len_lt m off b) in
    record {
      decoded = refl;
      at_in = ho;
      len_fits = pay;
      inside = fits;
      seq_fits = rec_at-seq_lt m off b;
      not_newest = ground arith;
    }

IsComplete-weaken :
    (m : Buf) (newest left left' : ℕ)
    → left ≤ left'
    → (e : Entry) → IsComplete m newest left e
    → IsComplete m newest left' e
IsComplete-weaken m newest left left' h e c = record {
  decoded = c.decoded;
  at_in = c.at_in;
  len_fits = c.len_fits;
  inside = omega (arith, c.inside);
  seq_fits = c.seq_fits;
  not_newest = c.not_newest;
}

pub complete_records-IsComplete :
    (k : ℕ) (m : Buf) (newest off left : ℕ)
    → IsBytes m
    → off < data_sz
    → left < 2 ^ 32
    → AllEntries (IsComplete m newest left) (complete_records k m newest off left)
unfolding complete_records
complete_records-IsComplete zero m newest off left b ho hl = tt
complete_records-IsComplete (suc k) m newest off left b ho hl =
    elim (Bool-cases (not (readable m off left) || (rec_at m off).seq == newest)) [
      | inl e ↦ rw e tt
      | inr e ↦
          let (fits, pay, step) =
            readable_fits m off left hl (ground arith) (rec_at-len_lt m off b) in
          rw e (
            IsComplete-head m newest off left b ho hl e,
            AllEntries-mono (IsComplete-weaken m newest _ left (omega arith)) _ (
                complete_records-IsComplete k m newest (next_off off (rec_at m off))
                  (next_left left (rec_at m off)) b (omega arith) (omega arith)),
          )
    ]
