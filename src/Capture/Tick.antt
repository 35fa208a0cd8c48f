-- ===== src/Capture/Tick.antt =====
-- A turn of `diff_thread` in src/ring-capture/ring-capture.c.
use yi_outdoor_1080p_ptz.Prelude.{
  ℕ, zero, suc, ◌+◌, ◌-◌, ◌*◌, ◌^◌, ◌≤◌, ◌<◌, ◌≡◌, ◌≢◌, inl, inr, refl, sym, ap, ◌∙◌, arith, true,
  false, List, [], ◌∷◌, ◌++◌, Option, none, some, ltb, leb, ◌==◌, if◌then◌else◌, if-each, min,
  Bool-cases, ==_iff, not_both,
}
use yi_outdoor_1080p_ptz.Memory.{Buf, read, u32, sub32}
use yi_outdoor_1080p_ptz.Capture.{
  data_base, last_change, diff_scan, append_loop, append_fuel, bytes_of, conclude_tick, tick,
}

read_at : (m : Buf) (n : ℕ) {p q : ℕ} → p ≡ q → read m p n ≡ read m q n
read_at m n e = ap (λ k. read m k n) e

read_for : (m : Buf) (p : ℕ) {n k : ℕ} → n ≡ k → read m p n ≡ read m p k
read_for m p e = ap (read m p) e

read_parts : (m : Buf) (p a b : ℕ) → read m p a ++ read m (p + a) b ≡ read m p (a + b)
unfolding read
read_parts m p zero b = read_at m b (omega arith) ∙ read_for m p (omega arith)
read_parts m p (suc a) b =
    ap (◌∷◌ (m p))
      (ap (λ t. read m (p + 1) a ++ t) (read_at m b (omega arith)) ∙ read_parts m (p + 1) a b)
    ∙ read_for m p {n = suc (a + b)} (omega arith)

-- The writes take the bytes from `p` to `end`, and the loop ends.
abbrev pub Takes : Buf → ℕ → ℕ → List (ℕ × ℕ) × ℕ → Type 0
Takes m p end x = (bytes_of m x.0 ≡ read m p (end - p)) × (x.1 ≡ end)

-- A write of `c` bytes, and the writes behind it.
Takes-cons :
    (m : Buf) (p c end next : ℕ) (x : List (ℕ × ℕ) × ℕ)
    → c ≤ end - p
    → next ≡ p + c
    → Takes m next end x
    → Takes m p end ((p, c) ∷ x.0, x.1)
unfolding bytes_of
Takes-cons m p c end next x h e (takes, ends) = (
  ap (λ t. read m p c ++ t) (takes ∙ read_at m (end - next) e)
      ∙ read_parts m p c (end - next)
      ∙ read_for m p (omega arith),
  ends,
)

next_at :
    (p end : ℕ)
    → p < end
    → end < 2 ^ 32
    → u32 (p + min (sub32 end p) 65536) ≡ p + min (end - p) 65536
next_at p end h w = omega arith

chunk_at : (p end : ℕ) → p < end → end < 2 ^ 32 → min (sub32 end p) 65536 ≡ min (end - p) 65536
chunk_at p end h w = omega arith

append_loop-Takes :
    (fuel : ℕ) (m : Buf) (p end : ℕ)
    → p ≤ end
    → end < 2 ^ 32
    → end ≤ p + 65536 * fuel
    → Takes m p end (append_loop fuel p end)
unfolding append_loop bytes_of read
append_loop-Takes zero m p end h w e = (sym (read_for m p {k = 0} (omega arith)), omega arith)
append_loop-Takes (suc fuel) m p end h w e =
    if-each (Takes m p end) (p == end)
      (λ t. let same : p ≡ end = ground arith in (sym (read_for m p {k = 0} (omega arith)), same))
      λ f.
        let before : p < end = ground arith in
        rw (chunk_at p end before w) (
          Takes-cons m p (min (end - p) 65536) end _
            (append_loop fuel (u32 (p + min (end - p) 65536)) end) (omega arith)
            (ap u32 (ap (λ c. p + c) (sym (chunk_at p end before w))) ∙ next_at p end before w)
            (append_loop-Takes fuel m (u32 (p + min (end - p) 65536)) end (omega arith) w
              (omega arith)))

-- Behind the byte `i` nothing has changed.
abbrev pub SameAfter : Buf → Buf → ℕ → ℕ → ℕ → Type 0
SameAfter m shadow q i n = (j : ℕ) → i < j → j < n → m (q + j) ≡ shadow j

from_zero : (shadow : Buf) (n : ℕ) → shadow (0 + n) ≡ shadow n
from_zero shadow n = ap shadow (omega arith)

module _ (m shadow : Buf) (q n i : ℕ) (h : i < suc n) where
  below : m (q + i) ≢ shadow i → (m (q + n) == shadow (0 + n)) ≡ true → i < n
  below d t = elim (Bool-cases (ltb i n)) [
    | inl lt ↦ ground arith
    | inr ge ↦ let e : n ≡ i = ground arith in absurd (d (rw e at (==→eq t)))
  ]
    where
      ==→eq : (m (q + n) == shadow (0 + n)) ≡ true → m (q + n) ≡ shadow n
      ==→eq t = (==_iff _ _).0 t ∙ from_zero shadow n

  above : SameAfter m shadow q i (suc n) → (m (q + n) == shadow (0 + n)) ≡ false → n ≡ i
  above same f = elim (Bool-cases (ltb i n)) [
    | inl lt ↦ absurd (
        not_both ((==_iff _ _).1 (same n (ground arith) (omega arith) ∙ sym (from_zero shadow n)))
          f)
    | inr ge ↦ ground arith
  ]

last_change_at :
    (m shadow : Buf) (q n i : ℕ)
    → i < n
    → m (q + i) ≢ shadow i
    → SameAfter m shadow q i n
    → last_change m shadow q 0 n none ≡ some (q + i)
unfolding last_change
last_change_at m shadow q zero i h d same = absurd (omega arith)
last_change_at m shadow q (suc n) i h d same =
    if-each (λ (o : Option ℕ). o ≡ some (q + i)) (m (q + n) == shadow (0 + n))
      (λ t.
        last_change_at m shadow q n i (below m shadow q n i h d t) d
          (λ j a b. same j a (omega arith)))
      λ f. ap (λ k. some (q + k)) (above m shadow q n i h same f)

last_change-none :
    (m shadow : Buf) (q n : ℕ)
    → ((j : ℕ) → j < n → m (q + j) ≡ shadow j)
    → last_change m shadow q 0 n none ≡ none
unfolding last_change
last_change-none m shadow q zero same = refl
last_change-none m shadow q (suc n) same =
    if-each (λ (o : Option ℕ). o ≡ none) (m (q + n) == shadow (0 + n))
      (λ t. last_change-none m shadow q n (λ j a. same j (omega arith)))
      λ f. absurd (not_both ((==_iff _ _).1 (same n (omega arith) ∙ sym (from_zero shadow n))) f)

scan_done :
    (fuel size : ℕ) (m shadow : Buf) (q left sdx : ℕ) (run : Option ℕ)
    → left ≡ 0
    → (diff_scan fuel size m shadow q left sdx run).run ≡ run
unfolding diff_scan
scan_done zero size m shadow q left sdx run e = refl
scan_done (suc fuel) size m shadow q left sdx run e = rw e refl

-- A window that does not reach the end of the buffer is compared in one go.
scan_flat :
    (win size : ℕ) (m : Buf) (base : ℕ) (shadow : Buf)
    → data_base ≤ base
    → base + win ≤ size
    → (diff_scan win size m shadow base win 0 none).run ≡ last_change m shadow base 0 win none
unfolding diff_scan last_change
scan_flat zero size m base shadow low flat = refl
scan_flat (suc w) size m base shadow low flat =
    rw (some_left, inside, whole, high) (scan_done w size m _ _ _ _ _ (omega arith))
  where
    some_left : (suc w == 0) ≡ false
    some_left = ground arith

    inside : leb size base ≡ false
    inside = ground arith

    whole : min (size - base) (suc w) ≡ suc w
    whole = omega arith

    high : ltb base data_base ≡ false
    high = ground arith

-- One turn: the window lies in the buffer, byte `i` of it differs from the shadow and the bytes of
-- the window behind that one do not. The bytes from the old head up to that one go to the file, in
-- their order, and the head is behind it, or at the start of the data if it is the buffer's last.
pub tick_captures :
    (win size : ℕ) (m : Buf) (base : ℕ) (shadow : Buf) (i : ℕ)
    → data_base ≤ base
    → base + win ≤ size
    → size < 2 ^ 32
    → i < win
    → m (base + i) ≢ shadow i
    → SameAfter m shadow base i win
    → (bytes_of m (tick win size m base shadow).writes ≡ read m base (i + 1))
      × ((tick win size m base shadow).base
          ≡ (if leb size (base + i + 1) then data_base else base + i + 1))
unfolding tick conclude_tick
tick_captures win size m base shadow i low flat small h d same =
    rw (scan_flat win size m base shadow low flat ∙ last_change_at m shadow base win i h d same) (
      if-each P (leb size (base + i + 1)) (λ t. ends size (ground arith) small (omega arith))
          (λ f. ends (base + i + 1) refl (ground arith) (omega arith)),
      refl,
    )
  where
    P : ℕ → Type 0
    P end = bytes_of m (append_loop append_fuel base end).0 ≡ read m base (i + 1)

    ends : (end : ℕ) → end ≡ base + i + 1 → end < 2 ^ 32 → end ≤ base + 65536 * append_fuel → P end
    ends end e w f =
        (append_loop-Takes append_fuel m base end (omega arith) w f).0
        ∙ read_for m base (omega arith)

-- A turn that finds the window as the shadow has it writes nothing and leaves the head.
pub tick_quiet :
    (win size : ℕ) (m : Buf) (base : ℕ) (shadow : Buf)
    → data_base ≤ base
    → base + win ≤ size
    → ((j : ℕ) → j < win → m (base + j) ≡ shadow j)
    → ((tick win size m base shadow).writes ≡ []) × ((tick win size m base shadow).base ≡ base)
unfolding tick conclude_tick
tick_quiet win size m base shadow low flat same =
    rw (scan_flat win size m base shadow low flat ∙ last_change-none m shadow base win same)
      (refl, refl)
