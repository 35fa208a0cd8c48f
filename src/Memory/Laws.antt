-- ===== src/Memory/Laws.antt =====
-- What a copy out of a buffer reads after a copy into it.
use yi_outdoor_1080p_ptz.Prelude.{
  ◌%◌, ℕ, zero, suc, ◌+◌, ◌/◌, ◌^◌, ◌≤◌, ◌<◌, ◌≡◌, refl, ap, ap₂, ◌==◌, if◌then◌else◌, ◌⊎◌, inl,
  inr, List, [], ◌∷◌, arith, length, get_or,
}
use yi_outdoor_1080p_ptz.Memory.{Buf, poke, read, write, of_le, to_le, IsBytes}

pub length-read : (m : Buf) (off n : ℕ) → length (read m off n) ≡ n
unfolding read
length-read m off zero = refl
length-read m off (suc n) = omega (arith, length-read m (off + 1) n)

pub get_or-read : (m : Buf) (off n i d : ℕ) → i < n → get_or (read m off n) i d ≡ m (off + i)
unfolding read
get_or-read m off zero i d h = absurd (omega arith)
get_or-read m off (suc n) zero d h = ground arith
get_or-read m off (suc n) (suc i) d h = ground (arith, get_or-read m (off + 1) n i d)

-- A store outside a range is not seen in it.
pub write_outside :
    (m : Buf) (off : ℕ) (bs : List ℕ) (a : ℕ)
    → (a < off) ⊎ (off + length bs ≤ a)
    → write m off bs a ≡ m a
unfolding write poke
write_outside m off [] a h = refl
write_outside m off (b ∷ bs) a h = ground (arith, write_outside (poke m off b) (off + 1) bs a)

pub read_ext :
    (m k : Buf) (off n : ℕ)
    → ((a : ℕ) → off ≤ a → a < off + n → m a ≡ k a)
    → read m off n ≡ read k off n
unfolding read
read_ext m k off zero h = refl
read_ext m k off (suc n) h =
    ap₂ ◌∷◌ (h off (omega arith) (omega arith))
      (read_ext m k (off + 1) n (λ a p q. h a (omega arith) (omega arith)))

pub read-write_self : (m : Buf) (off : ℕ) (bs : List ℕ) → read (write m off bs) off (length bs) ≡ bs
unfolding read write poke
read-write_self m off [] = refl
read-write_self m off (b ∷ bs) =
    ap₂ ◌∷◌ (ground (arith, write_outside (poke m off b) (off + 1) bs off (inl (omega arith))))
      (read-write_self (poke m off b) (off + 1) bs)

pub read-write_disjoint :
    (m : Buf) (off : ℕ) (bs : List ℕ) (a n : ℕ)
    → (a + n ≤ off) ⊎ (off + length bs ≤ a)
    → read (write m off bs) a n ≡ read m a n
read-write_disjoint m off bs a n (inl h) =
    read_ext _ _ a n (λ x p q. write_outside m off bs x (inl (omega arith)))
read-write_disjoint m off bs a n (inr h) =
    read_ext _ _ a n (λ x p q. write_outside m off bs x (inr (omega arith)))

pub length-to_le : (n v : ℕ) → length (to_le n v) ≡ n
length-to_le zero v = refl
length-to_le (suc n) v = omega (arith, length-to_le n (v / 256))

pub of_le-to_le_four : (v : ℕ) → v < 2 ^ 32 → of_le (to_le 4 v) ≡ v
of_le-to_le_four v h = omega arith

pub of_le-to_le_two : (v : ℕ) → v < 2 ^ 16 → of_le (to_le 2 v) ≡ v
of_le-to_le_two v h = omega arith

pub poke-IsBytes : (m : Buf) (off v : ℕ) → IsBytes m → v < 256 → IsBytes (poke m off v)
unfolding poke
poke-IsBytes m off v b h a = ground (arith, b a)

-- A word stored over bytes leaves bytes.
pub write-to_le-IsBytes :
    (n : ℕ) (m : Buf) (off v : ℕ) → IsBytes m → IsBytes (write m off (to_le n v))
unfolding write
write-to_le-IsBytes zero m off v b = b
write-to_le-IsBytes (suc n) m off v b =
    write-to_le-IsBytes n (poke m off (v % 256)) (off + 1) (v / 256)
      (poke-IsBytes m off (v % 256) b (omega arith))

-- What a store leaves at an address depends on what was there, and on nothing else of the buffer.
pub write_at :
    (m m' : Buf) (off : ℕ) (bs : List ℕ) (a : ℕ) → m a ≡ m' a → write m off bs a ≡ write m' off bs a
unfolding write poke
write_at m m' off [] a h = h
write_at m m' off (b ∷ bs) a h =
    write_at (poke m off b) (poke m' off b) (off + 1) bs a (ap (λ v. if a == off then b else v) h)
