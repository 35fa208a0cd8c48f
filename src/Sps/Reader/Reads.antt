-- ===== src/Sps/Reader/Reads.antt =====
-- What the bit reader finds in a buffer that holds a given string of bits.
use yi_outdoor_1080p_ptz.Prelude.{
  ℕ, zero, suc, ◌+◌, ◌-◌, ◌*◌, ◌/◌, ◌%◌, ◌^◌, ◌≤◌, ◌<◌, ◌≡◌, ap, ◌∙◌, List, [], ◌∷◌, ◌++◌, arith,
  length, length-append, ltb, min, false,
}
use native.Mathlib.Numerals.{add-one}
use native.Mathlib.Nat.{pow-suc, pow-succ', div-add-mod}
use yi_outdoor_1080p_ptz.Memory.{Buf}
use yi_outdoor_1080p_ptz.Sps.Reader.{
  Bits, ◌>>=◌, pure, bit_at, read_bit, count_zeros, read_bits, read_ue,
}
use yi_outdoor_1080p_ptz.Sps.Codes.{
  bits_of, zeros, ue_code, length-bits_of, length-zeros, mod_double, width_bounds, width_small,
}
use yi_outdoor_1080p_ptz.Sps.Writer.{width}
use yi_outdoor_1080p_ptz.Sps.Writer.Written.{HasBits}

module _ (s : Buf) (slen : ℕ) where
  -- The bits from `pos` on begin with `bs`, inside the buffer.
  abbrev pub Ahead : ℕ → List ℕ → Type 0
  Ahead pos bs = HasBits s pos bs × (pos + length bs ≤ slen * 8)

  -- Reader `p` takes exactly the bits `bs` and returns `a`, wherever they stand.
  pub record Reads {A : Type 0} (p : Bits A) (bs : List ℕ) (a : A) : Type 0 where
    pub run : (pos : ℕ) → Ahead pos bs → p pos ≡ (a, pos + length bs)

pub HasBits-left :
    (m : Buf) (off : ℕ) (bs cs : List ℕ) → HasBits m off (bs ++ cs) → HasBits m off bs
HasBits-left m off [] cs h = tt
HasBits-left m off (b ∷ bs) cs (p, h) = (p, HasBits-left m (off + 1) bs cs h)

pub HasBits-right :
    (m : Buf) (off : ℕ) (bs cs : List ℕ) → HasBits m off (bs ++ cs) → HasBits m (off + length bs) cs
HasBits-right m off [] cs h = let e : off + 0 ≡ off = omega arith in rw e h
HasBits-right m off (b ∷ bs) cs (p, h) =
    let e : off + suc (length bs) ≡ off + 1 + length bs = omega arith in
    rw e (HasBits-right m (off + 1) bs cs h)

two_pow_pos : (n : ℕ) → 0 < 2 ^ n
two_pow_pos zero = omega arith
two_pow_pos (suc n) = omega (arith, pow-suc 2 n, two_pow_pos n)

module _ (s : Buf) (slen : ℕ) where
  pub Reads-pure : {A : Type 0} (a : A) → Reads s slen (pure a) [] a
  Reads-pure a = record { run = λ pos h. ap (λ k. (a, k)) (omega arith) }

  pub Reads-bind :
      {A B : Type 0} (p : Bits A) (f : A → Bits B) (bs cs : List ℕ) (a : A) (b : B)
      → Reads s slen p bs a
      → Reads s slen (f a) cs b
      → Reads s slen (p >>= f) (bs ++ cs) b
  Reads-bind p f bs cs a b r q = record {
    run = λ pos h.
        let left =
          r.run pos (HasBits-left s pos bs cs h.0, omega (arith, h.1, length-append bs cs)) in
        let right =
          q.run (pos + length bs)
            (HasBits-right s pos bs cs h.0, omega (arith, h.1, length-append bs cs)) in
        rw left (right ∙ ap (λ k. (b, k)) (omega (arith, length-append bs cs)));
  }

  pub Reads-bit : (b : ℕ) → Reads s slen (read_bit s slen) (b ∷ []) b
  unfolding read_bit
  Reads-bit b = record { run = λ pos h. ground (arith, h.0.0, h.1) }

  count_zeros_lem :
      (z left acc pos : ℕ)
      → HasBits s pos (zeros z)
      → bit_at s (pos + z) ≡ 1
      → pos + z < slen * 8
      → z < left
      → count_zeros s slen left acc pos ≡ (acc + z, pos + z + 1)
  unfolding count_zeros
  count_zeros_lem z zero acc pos h one inside fuel = absurd (omega arith)
  count_zeros_lem zero (suc left) acc pos h one inside fuel =
      let e : pos + 0 ≡ pos = omega arith in let o : bit_at s pos ≡ 1 = rw e at one in ground arith
  count_zeros_lem (suc z) (suc left) acc pos (b, h) one inside fuel =
      let e : pos + suc z ≡ pos + 1 + z = omega arith in
      let ih =
        count_zeros_lem z left (acc + 1) (pos + 1) h (rw e at one) (omega arith) (omega arith) in
      ground (arith, ih)

  pub Reads-bits :
      (n v acc : ℕ) → Reads s slen (read_bits s slen n acc) (bits_of n v) (acc * 2 ^ n + v % 2 ^ n)
  unfolding read_bits
  Reads-bits zero v acc = record { run = λ pos h. ground arith }
  Reads-bits (suc n) v acc =
      let step =
        Reads-bind (read_bit s slen) (λ b. read_bits s slen n (acc * 2 + b)) (v / 2 ^ n % 2 ∷ [])
          (bits_of n v) (v / 2 ^ n % 2) ((acc * 2 + v / 2 ^ n % 2) * 2 ^ n + v % 2 ^ n)
          (Reads-bit (v / 2 ^ n % 2)) (Reads-bits n v (acc * 2 + v / 2 ^ n % 2)) in
      rw value at step
    where
      value : (acc * 2 + v / 2 ^ n % 2) * 2 ^ n + v % 2 ^ n ≡ acc * 2 ^ suc n + v % 2 ^ suc n
      value = rw (pow-succ', mod_double v (2 ^ n) (two_pow_pos n)) (omega arith)

  top_bit : (t p : ℕ) → p ≤ t → t < 2 * p → (t / p % 2 ≡ 1) × (t % p ≡ t - p)
  top_bit t p lo hi = (rw one, omega (arith, rw one at (div-add-mod t p)))
    where
      one : t / p ≡ 1
      one = grind arith

  read_ue_from :
      (n pos p x q : ℕ)
      → n ≤ 24
      → count_zeros s slen (slen * 8 - pos) 0 pos ≡ (n, p)
      → read_bits s slen n 0 p ≡ (x, q)
      → read_ue s slen pos ≡ (2 ^ n - 1 + x, q)
  unfolding read_ue
  read_ue_from n pos p x q h counted bits = rw (counted, small, bits, low)
    where
      small : min n 24 ≡ n
      small = omega arith

      low : ltb 24 n ≡ false
      low = ground arith

  -- The digits behind the first, and the first itself.
  ue_parts :
      (n v pos : ℕ)
      → Ahead s slen pos (zeros n ++ bits_of (n + 1) (v + 1))
      → 2 ^ n ≤ v + 1
      → v + 1 < 2 * 2 ^ n
      → (count_zeros s slen (slen * 8 - pos) 0 pos ≡ (n, pos + n + 1))
        × Ahead s slen (pos + n + 1) (bits_of n (v + 1))
  ue_parts n v pos (h, fits) lo hi = (
    count_zeros_lem n (slen * 8 - pos) 0 pos (HasBits-left s pos (zeros n) _ h)
          (back.0 ∙ (top_bit (v + 1) (2 ^ n) lo hi).0) (omega (arith, total)) (omega (arith, total))
        ∙ ap (λ k. (k, pos + n + 1)) (omega arith),
    (back.1, omega (arith, total, length-bits_of n (v + 1))),
  )
    where
      total : pos + (n + (n + 1)) ≤ slen * 8
      total = omega (
        arith,
        fits,
        length-append (zeros n) (bits_of (n + 1) (v + 1)),
        length-zeros n,
        length-bits_of (n + 1) (v + 1),
      )

      back : HasBits s (pos + n) (bits_of (suc n) (v + 1))
      back =
          rw (length-zeros n, add-one n) at
            (HasBits-right s pos (zeros n) (bits_of (n + 1) (v + 1)) h)

  -- `sps_read_ue` reads back the code of every number below 2 ^ 25 - 1.
  pub Reads-ue : (v : ℕ) → v + 1 < 2 ^ 25 → Reads s slen (read_ue s slen) (ue_code v) v
  Reads-ue v h = record {
    run = λ pos a.
        let (counted, rest) = ue_parts n v pos a (bounds.0) (bounds.1) in
        read_ue_from n pos (pos + n + 1) ((v + 1) % 2 ^ n) (pos + n + 1 + n)
          (width_small 32 24 (v + 1) h) counted
          ((Reads-bits n (v + 1) 0).run (pos + n + 1) rest
            ∙ ground (arith, length-bits_of n (v + 1)))
        ∙ ground (
          arith,
          bounds,
          (top_bit (v + 1) (2 ^ n) bounds.0 bounds.1).1,
          length-append (zeros n) (bits_of (n + 1) (v + 1)),
          length-zeros n,
          length-bits_of (n + 1) (v + 1),
        );
  }
    where
      n : ℕ
      n = width 32 (v + 1)

      bounds : (2 ^ n ≤ v + 1) × (v + 1 < 2 * 2 ^ n)
      bounds = width_bounds 32 (v + 1) (omega arith) (omega arith)
