-- ===== src/Probe/Slots/Replay.antt =====
-- The moves that part D of src/ring-capture/slotprobe.c prints tell how the header ended.
use yi_outdoor_1080p_ptz.Prelude.{
  ℕ, zero, suc, ◌+◌, ◌*◌, ◌/◌, ◌≡◌, refl, sym, ap, ◌∙◌, List, [], ◌∷◌, ◌++◌, append_assoc, arith,
  ◌==◌, length, length-append, Bool-cases, inl, inr,
}
use mathlib.Core.Path.{subst}
use yi_outdoor_1080p_ptz.Probe.Slots.{Move, moves, watch_header}

-- A word of a header is overwritten.
unfoldable pub set_word : List ℕ → ℕ → ℕ → List ℕ
set_word [] i v = []
set_word (w ∷ ws) zero v = v ∷ ws
set_word (w ∷ ws) (suc i) v = w ∷ set_word ws i v

-- The header that is left when the printed moves are made on an earlier one.
unfoldable pub replay : List Move → List ℕ → List ℕ
unfolding set_word
replay [] ws = ws
replay (m ∷ ms) ws = replay ms (set_word ws (m.offset / 4) m.now)

-- The header of the last sample.
unfoldable pub last_header : List ℕ → List (List ℕ) → List ℕ
last_header prev [] = prev
last_header prev (cur ∷ later) = last_header cur later

abbrev pub AllLong : ℕ → List (List ℕ) → Type 0
AllLong n [] = Unit
AllLong n (ws ∷ later) = (length ws ≡ n) × AllLong n later

set_word-append :
    (before ws : List ℕ) (p v : ℕ)
    → set_word (before ++ (p ∷ ws)) (length before) v ≡ before ++ (v ∷ ws)
unfolding set_word
set_word-append [] ws p v = refl
set_word-append (b ∷ before) ws p v = ap (◌∷◌ b) (set_word-append before ws p v)

-- The front of a header grows by a word.
front : (before ws : List ℕ) (w : ℕ) → (before ++ (w ∷ [])) ++ ws ≡ before ++ (w ∷ ws)
front before ws w = append_assoc before (w ∷ []) ws

-- Making the moves of one comparison turns the words compared into the new ones.
replay-moves :
    (i : ℕ) (prev cur before : List ℕ) (later : List Move)
    → i ≡ length before
    → length prev ≡ length cur
    → replay (moves i prev cur ++ later) (before ++ prev) ≡ replay later (before ++ cur)
unfolding moves replay
replay-moves i [] [] before later at q = refl
replay-moves i [] (c ∷ cur) before later at q = absurd (omega arith)
replay-moves i (p ∷ prev) [] before later at q = absurd (omega arith)
replay-moves i (p ∷ prev) (c ∷ cur) before later at q =
    let next : i + 1 ≡ length (before ++ (c ∷ [])) =
      omega (arith, length-append before (c ∷ []), at) in
    let rest = replay-moves (i + 1) prev cur (before ++ (c ∷ [])) later next (omega arith) in
    elim (Bool-cases (c == p)) [
      | inl same ↦
          let e : p ≡ c = ground arith in
          rw (same, e) (rw (front before prev c, front before cur c) at rest)
      | inr moved ↦
          let word : i * 4 / 4 ≡ length before = omega arith in
          rw (moved, word, set_word-append before prev p c)
            (rw (front before prev c, front before cur c) at rest)
    ]

-- The moves that part D prints lose nothing: made one after the other on the first sample of the
-- header, they give the last one. All samples have the same length.
pub replay-watch_header :
    (prev : List ℕ) (samples : List (List ℕ))
    → AllLong (length prev) samples
    → replay (watch_header prev samples) prev ≡ last_header prev samples
unfolding watch_header replay last_header
replay-watch_header prev [] a = refl
replay-watch_header prev (cur ∷ later) (long, a) =
    replay-moves 0 prev cur [] (watch_header cur later) refl (sym long)
    ∙ replay-watch_header cur later (subst (λ n. AllLong n later) (sym long) a)
