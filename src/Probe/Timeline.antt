-- ===== src/Probe/Timeline.antt =====
-- src/ring-capture/cap-timeline.c: the lines of the timeline, and the snapshot with its tear check.
-- The writer runs on between two copies, so that each copy is an argument.
pub mod Tear
use yi_outdoor_1080p_ptz.Prelude.{
  ℕ, zero, suc, ◌+◌, Bool, true, false, ◌&&◌, List, [], ◌∷◌, ltb, leb, ◌==◌, if◌then◌else◌,
}
use yi_outdoor_1080p_ptz.Memory.{Buf, read, of_le}

-- `rd32`: 0 behind the end of the mapping.
unfoldable pub rd32 : Buf → ℕ → ℕ → ℕ
rd32 m size p = if leb size (p + 3) then 0 else of_le (read m p 4)

-- What a turn of the timeline's loop finds: the time, the memory and the semaphores' words as 32
-- bits.
pub record Look : Type 0 where
  pub t : ℕ
  pub mem : Buf
  pub n0 : ℕ
  pub n1 : ℕ
  pub n2 : ℕ

-- The numbers of the lines.
unfoldable pub timeline : ℕ → List Look → List (List ℕ)
unfolding rd32
timeline size [] = []
timeline size (l ∷ later) =
    (l.t
      ∷ rd32 l.mem size 4
      ∷ rd32 l.mem size 12
      ∷ rd32 l.mem size 16
      ∷ rd32 l.mem size 20
      ∷ rd32 l.mem size 24
      ∷ l.n0
      ∷ l.n1
      ∷ l.n2
      ∷ [])
    ∷ timeline size later

-- `memcmp(a, b, n) == 0`
unfoldable pub same_bytes : List ℕ → List ℕ → Bool
same_bytes [] [] = true
same_bytes [] (b ∷ bs) = false
same_bytes (a ∷ xs) [] = false
same_bytes (a ∷ xs) (b ∷ bs) = a == b && same_bytes xs bs

-- `snap1` and `tries` behind the loop.
pub record Snapshot : Type 0 where
  pub bytes : List ℕ
  pub tries : ℕ

-- `for (tries = 0; tries < 10; tries++)`, with the rounds left to go; `copies i` is the two copies of
-- try `i`.
unfoldable pub snap_loop : ℕ → (ℕ → List ℕ × List ℕ) → ℕ → List ℕ → Snapshot
unfolding same_bytes
snap_loop zero copies tries snap1 = record { bytes = snap1; tries = tries }
snap_loop (suc left) copies tries snap1 =
    let (a, b) = copies tries in
    let rest = snap_loop left copies (tries + 1) a in
    if same_bytes a b then record { bytes = a; tries = tries } else rest

unfoldable pub snapshot : (ℕ → List ℕ × List ℕ) → Snapshot
unfolding snap_loop
snapshot copies = snap_loop 10 copies 0 []

-- `tries < 10 ? "clean" : "FAILED"`
abbrev pub is_clean : Snapshot → Bool
is_clean s = ltb s.tries 10
