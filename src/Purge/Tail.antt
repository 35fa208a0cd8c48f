-- ===== src/Purge/Tail.antt =====
-- The tail that the purger of src/fshare2fifo/fshare2fifo.c leaves.
use mathlib.Core.Path.{subst}
use yi_outdoor_1080p_ptz.Prelude.{
  ℕ, zero, suc, ◌+◌, ◌-◌, ◌*◌, ◌≤◌, ◌<◌, ◌≡◌, ◌≢◌, refl, sym, ap, ◌∙◌, arith, true, false, not,
  List, [], ◌∷◌, ◌++◌, append-nil, append_assoc, ltb, ◌==◌, if-each, min, length, length-append,
  drop,
}
use yi_outdoor_1080p_ptz.Purge.{Turn, Trimmed, taken, trim_loop, purge_pass}

drop-append : (k : ℕ) (s t : List ℕ) → k ≤ length s → drop k (s ++ t) ≡ drop k s ++ t
drop-append zero s t h = refl
drop-append (suc k) [] t h = absurd (omega arith)
drop-append (suc k) (c ∷ s) t h = drop-append k s t (omega arith)

drop-empty : (k : ℕ) → drop {A = ℕ} k [] ≡ []
drop-empty zero = refl
drop-empty (suc k) = refl

one_up : (j k : ℕ) → suc (k + j) ≡ suc k + j
one_up j k = omega arith

drop-drop : (j k : ℕ) (s : List ℕ) → drop j (drop k s) ≡ drop (k + j) s
drop-drop j zero s = ap (λ n. drop n s) (omega arith)
drop-drop j (suc k) [] = drop-empty j ∙ sym (drop-empty (suc k + j))
drop-drop j (suc k) (c ∷ s) = drop-drop j k s ∙ ap (λ n. drop n (c ∷ s)) (one_up j k)

length-drop : (k : ℕ) (s : List ℕ) → length (drop k s) ≡ length s - k
length-drop zero s = omega arith
length-drop (suc k) [] = omega arith
length-drop (suc k) (c ∷ s) = omega (arith, length-drop k s)

-- No other reader takes bytes, and no read fails.
abbrev pub AllQuiet : List Turn → Type 0
AllQuiet [] = Unit
AllQuiet (t ∷ ts) = ((t.elsewhere ≡ 0) × (t.fails ≡ false)) × AllQuiet ts

-- What the writer adds in the first `n` turns.
abbrev pub added : ℕ → List Turn → List ℕ
added zero ts = []
added (suc n) [] = []
added (suc n) (t ∷ ts) = t.written ++ added n ts

-- The loop has ended, behind a read for each 65536 bytes of the first `k`, or part of them: the bytes
-- from `k` on are left, and behind them what the writer has added before the reads.
abbrev pub Keeps : ℕ → List Turn → List ℕ → Trimmed → Type 0
Keeps k ts pipe r =
    (r.finished ≡ true)
    × (n : ℕ) × (k ≤ 65536 * n)
    × (65536 * n < k + 65536)
    × (r.pipe ≡ drop k pipe ++ added n ts)

Keeps-shift :
    (k r : ℕ) (pipe : List ℕ) (t : Turn) (ts : List Turn) (x : Trimmed)
    → r ≡ min (r + k) 65536
    → r ≢ 0
    → r + k ≤ length pipe
    → Keeps k ts (drop r (pipe ++ t.written)) x
    → Keeps (r + k) (t ∷ ts) pipe x
Keeps-shift k r pipe t ts x most some h (ends, n, lo, hi, e) = (
  ends,
  suc n,
  omega arith,
  omega arith,
  e
      ∙ ap (λ p. p ++ added n ts)
          (drop-drop k r (pipe ++ t.written) ∙ drop-append (r + k) pipe t.written h)
      ∙ append_assoc (drop (r + k) pipe) t.written (added n ts),
)

module _ (trim : ℕ) where
  untouched : (n : ℕ) (pipe : List ℕ) → n ≤ trim → pipe ≡ drop (n - trim) pipe ++ []
  untouched n pipe h = sym (append-nil _ ∙ ap (λ k. drop k pipe) (nothing h))
    where
      nothing : n ≤ trim → n - trim ≡ 0
      nothing u = omega arith

  taken_most :
      (n : ℕ) (t : Turn) (pipe : List ℕ)
      → t.fails ≡ false
      → n ≤ length pipe
      → taken trim n t.fails (pipe ++ t.written) ≡ min (n - trim) 65536
  unfolding taken
  taken_most n t pipe works h = rw works (omega (arith, length-append pipe t.written))

  -- What a quiet turn takes, and of what.
  module _ (n : ℕ) (t : Turn) (pipe : List ℕ) (alone : t.elsewhere ≡ 0) (works : t.fails ≡ false)
      (h : n ≤ length pipe) (over : trim < n) where
    now : List ℕ
    now = drop t.elsewhere pipe ++ t.written

    now_is : now ≡ pipe ++ t.written
    unfolding now
    now_is = rw alone refl

    r : ℕ
    r = taken trim n t.fails now

    r_is : r ≡ min (n - trim) 65536
    unfolding r
    r_is = rw now_is (taken_most n t pipe works h)

    r_pos : r ≢ 0
    r_pos z = absurd (omega (arith, r_is))

    length_left : n - r ≤ length (drop r now)
    length_left =
        rw now_is (omega (arith, length-drop r (pipe ++ t.written), length-append pipe t.written))

    turn-Keeps :
        (ts : List Turn) (x : Trimmed)
        → Keeps (n - r - trim) ts (drop r now) x
        → Keeps (n - trim) (t ∷ ts) pipe x
    turn-Keeps ts x w =
        subst (λ k. Keeps k (t ∷ ts) pipe x) (omega (arith, r_is))
          (Keeps-shift (n - r - trim) r pipe t ts x (omega (arith, r_is)) r_pos
            (omega (arith, r_is)) (subst (λ p. Keeps (n - r - trim) ts (drop r p) x) now_is w))

  trim_loop-Keeps :
      (ts : List Turn) (n : ℕ) (pipe : List ℕ)
      → AllQuiet ts
      → n ≤ length pipe
      → n ≤ trim + 65536 * length ts
      → Keeps (n - trim) ts pipe (trim_loop trim ts n pipe)
  unfolding trim_loop r now
  trim_loop-Keeps [] n pipe q h e =
      (ground arith, 0, omega arith, omega arith, untouched n pipe (omega arith))
  trim_loop-Keeps (t ∷ ts) n pipe ((alone, works), q) h e =
      if-each P (not (ltb trim n))
        (λ u. (refl, 0, ground arith, omega arith, untouched n pipe (ground arith)))
        λ f.
          let over : trim < n = ground arith in
          if-each P (r n t pipe alone works h over == 0)
            (λ z. absurd (r_pos n t pipe alone works h over (ground arith)))
            λ some. turn-Keeps n t pipe alone works h over ts _ (
              trim_loop-Keeps ts (n - r n t pipe alone works h over) _ q
                (length_left n t pipe alone works h over)
                (omega (arith, r_is n t pipe alone works h over)))
    where
      P : Trimmed → Type 0
      P x = Keeps (n - trim) (t ∷ ts) pipe x

  -- A pass of the purger leaves the newest bytes: of a fifo that holds more than the threshold, the
  -- last of that many bytes stay, in their order, and of one that holds no more nothing is taken.
  -- Behind them stands exactly what the writer has added before the reads of the pass, in order. The
  -- loop ends, with a read for each 65536 bytes over the threshold or part of them. No other reader
  -- takes bytes and no read fails, and there are turns enough for these reads.
  pub purge_pass-Keeps :
      (ts : List Turn) (pipe : List ℕ)
      → AllQuiet ts
      → length pipe ≤ trim + 65536 * length ts
      → Keeps (length pipe - trim) ts pipe (purge_pass trim true ts pipe)
  unfolding purge_pass
  purge_pass-Keeps ts pipe q e = trim_loop-Keeps ts (length pipe) pipe q (omega arith) e
