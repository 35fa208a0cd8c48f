-- ===== src/Fshare/Record/Bounds.antt =====
-- The fields of a decoded header fit their C types.
use yi_outdoor_1080p_ptz.Prelude.{
  ℕ, zero, suc, ◌+◌, ◌-◌, ◌^◌, ◌<◌, List, [], ◌∷◌, ◌++◌, arith, ltb, if◌then◌else◌, take, drop,
}
use yi_outdoor_1080p_ptz.Memory.{Buf, IsBytes, read, of_le}
use yi_outdoor_1080p_ptz.Fshare.Layout.{ring_copy, hdr_u32}
use yi_outdoor_1080p_ptz.Fshare.Record.{rec_at}

abbrev ByteList : List ℕ → Type 0
ByteList [] = Unit
ByteList (b ∷ bs) = (b < 256) × ByteList bs

ByteList-read : (m : Buf) (off n : ℕ) → IsBytes m → ByteList (read m off n)
unfolding read
ByteList-read m off zero h = tt
ByteList-read m off (suc n) h = (h off, ByteList-read m (off + 1) n h)

ByteList-append : (xs ys : List ℕ) → ByteList xs → ByteList ys → ByteList (xs ++ ys)
ByteList-append [] ys hx hy = hy
ByteList-append (x ∷ xs) ys (h, hx) hy = (h, ByteList-append xs ys hx hy)

ByteList-drop : (n : ℕ) (xs : List ℕ) → ByteList xs → ByteList (drop n xs)
ByteList-drop zero xs h = h
ByteList-drop (suc n) [] h = tt
ByteList-drop (suc n) (x ∷ xs) (h, hx) = ByteList-drop n xs hx

ByteList-ring_copy : (m : Buf) (off n : ℕ) → IsBytes m → ByteList (ring_copy m off n)
unfolding ring_copy
ByteList-ring_copy m off n h = ByteList-append _ _ (ByteList-read m _ _ h) (second _)
  where
    second : (first : ℕ) → ByteList (if ltb first n then read m 300 (n - first) else [])
    second first = ground (arith, ByteList-read m 300 (n - first) h)

of_le-take_four : (bs : List ℕ) → ByteList bs → of_le (take 4 bs) < 2 ^ 32
of_le-take_four [] h = omega arith
of_le-take_four (a ∷ []) h = omega arith
of_le-take_four (a ∷ b ∷ []) h = omega arith
of_le-take_four (a ∷ b ∷ c ∷ []) h = omega arith
of_le-take_four (a ∷ b ∷ c ∷ d ∷ r) h = omega arith

pub rec_at-len_lt : (m : Buf) (off : ℕ) → IsBytes m → (rec_at m off).len < 2 ^ 32
unfolding rec_at
rec_at-len_lt m off h = of_le-take_four _ (ByteList-ring_copy m off 28 h)

pub rec_at-seq_lt : (m : Buf) (off : ℕ) → IsBytes m → (rec_at m off).seq < 2 ^ 32
unfolding rec_at
rec_at-seq_lt m off h = of_le-take_four _ (ByteList-drop 4 _ (ByteList-ring_copy m off 28 h))

of_le-read_four : (m : Buf) (off : ℕ) → IsBytes m → of_le (read m off 4) < 2 ^ 32
unfolding read
of_le-read_four m off h = omega (arith, h off, h (off + 1), h (off + 1 + 1), h (off + 1 + 1 + 1))

pub hdr_u32-lt : (m : Buf) (off : ℕ) → IsBytes m → hdr_u32 m off < 2 ^ 32
unfolding hdr_u32
hdr_u32-lt m off h = of_le-read_four m off h
