-- ===== src/Sps/Writer/Written.antt =====
-- What the bit writer leaves in its buffer, as a string of bits behind the header byte.
use yi_outdoor_1080p_ptz.Prelude.{
  ℕ, zero, suc, ◌+◌, ◌/◌, ◌%◌, ◌^◌, ◌≤◌, ◌<◌, ◌≡◌, ◌∙◌, List, [], ◌∷◌, ◌++◌, append_assoc,
  append-nil, arith, length, length-append, ◌==◌, if◌then◌else◌, Bool-cases, inl, inr, ◌⊎◌, true,
  false,
}
use yi_outdoor_1080p_ptz.Memory.{Buf, IsBytes}
use yi_outdoor_1080p_ptz.Sps.Reader.{bit_at}
use yi_outdoor_1080p_ptz.Sps.Writer.{Out, set_bit, wbits, wue, width}
use yi_outdoor_1080p_ptz.Sps.Writer.SetBit.{set_bit-header, set_bit-IsBytes, bit_at-set_bit}
use yi_outdoor_1080p_ptz.Sps.Codes.{bits_of, zeros, ue_code, bits_of_zero}

-- The bits from `off` on are `bs`.
abbrev pub HasBits : Buf → ℕ → List ℕ → Type 0
HasBits m off [] = Unit
HasBits m off (b ∷ bs) = (bit_at m off ≡ b) × HasBits m (off + 1) bs

pub HasBits-append :
    (m : Buf) (off : ℕ) (bs cs : List ℕ)
    → HasBits m off bs
    → HasBits m (off + length bs) cs
    → HasBits m off (bs ++ cs)
HasBits-append m off [] cs h k = let e : off + 0 ≡ off = omega arith in rw e at k
HasBits-append m off (b ∷ bs) cs (p, h) k =
    let e : off + suc (length bs) ≡ off + 1 + length bs = omega arith in
    (p, HasBits-append m (off + 1) bs cs h (rw e at k))

pub HasBits-ext :
    (m m' : Buf) (off : ℕ) (bs : List ℕ)
    → ((q : ℕ) → q < off + length bs → bit_at m' q ≡ bit_at m q)
    → HasBits m off bs
    → HasBits m' off bs
HasBits-ext m m' off [] same h = tt
HasBits-ext m m' off (b ∷ bs) same (p, h) =
    (same off (omega arith) ∙ p, HasBits-ext m m' (off + 1) bs (λ q lt. same q (omega arith)) h)

-- `bs` has been written behind byte 0, and the buffer is clear behind it.
pub record IsWritten (bs : List ℕ) (o : Out) : Type 0 where
  pub pos_is : o.pos ≡ 8 + length bs
  pub has : HasBits o.bytes 8 bs
  pub clear : (q : ℕ) → o.pos ≤ q → bit_at o.bytes q ≡ 0
  pub is_bytes : IsBytes o.bytes
  pub header : o.bytes 0 ≡ 0x67

-- One round of `sps_wbits`.
abbrev put_bit : Out → ℕ → Out
put_bit o b = record { bytes = if b == 1 then set_bit o.bytes o.pos else o.bytes; pos = o.pos + 1 }

put_bit-at :
    (o : Out) (b q : ℕ)
    → IsBytes o.bytes
    → bit_at o.bytes o.pos ≡ 0
    → b < 2
    → bit_at (put_bit o b).bytes q ≡ (if q == o.pos then b else bit_at o.bytes q)
put_bit-at o b q v c h = elim (Bool-cases (b == 1)) [
  | inl one ↦ let e : b ≡ 1 = ground arith in rw e (bit_at-set_bit o.bytes o.pos q v)
  | inr other ↦ let e : b ≡ 0 = ground arith in rw e (ground arith)
]

put_bit-IsWritten :
    (bs : List ℕ) (o : Out) (b : ℕ)
    → b < 2
    → IsWritten bs o
    → IsWritten (bs ++ (b ∷ [])) (put_bit o b)
put_bit-IsWritten bs o b h w = record {
  pos_is = rw length-append (omega (arith, w.pos_is));
  has =
      HasBits-append (put_bit o b).bytes 8 bs (b ∷ [])
        (HasBits-ext o.bytes (put_bit o b).bytes 8 bs
          (λ q lt.
            ground (arith, w.pos_is, put_bit-at o b q w.is_bytes (w.clear o.pos (omega arith)) h))
          w.has)
        (last, tt);
  clear = λ q le.
      ground (arith, put_bit-at o b q w.is_bytes (w.clear o.pos (omega arith)) h, w.clear q);
  is_bytes = written_bytes (Bool-cases (b == 1));
  header = header_kept (Bool-cases (b == 1));
}
  where
    last : bit_at (put_bit o b).bytes (8 + length bs) ≡ b
    last =
        ground (
          arith,
          w.pos_is,
          put_bit-at o b (8 + length bs) w.is_bytes (w.clear o.pos (omega arith)) h,
        )

    written_bytes : (b == 1 ≡ true) ⊎ (b == 1 ≡ false) → IsBytes (put_bit o b).bytes
    written_bytes (inl e) = rw e (set_bit-IsBytes o.bytes o.pos w.is_bytes)
    written_bytes (inr e) = rw e w.is_bytes

    header_kept : (b == 1 ≡ true) ⊎ (b == 1 ≡ false) → (put_bit o b).bytes 0 ≡ 0x67
    header_kept (inl e) = rw e (set_bit-header o.bytes o.pos (omega (arith, w.pos_is)) ∙ w.header)
    header_kept (inr e) = rw e w.header

pub wbits-IsWritten :
    (n v : ℕ) (bs : List ℕ) (o : Out) → IsWritten bs o → IsWritten (bs ++ bits_of n v) (wbits o v n)
unfolding wbits
wbits-IsWritten zero v bs o w = rw append-nil w
wbits-IsWritten (suc n) v bs o w = rw (append_assoc bs (v / 2 ^ n % 2 ∷ []) (bits_of n v)) at (
    wbits-IsWritten n v (bs ++ (v / 2 ^ n % 2 ∷ [])) (put_bit o (v / 2 ^ n % 2))
      (put_bit-IsWritten bs o (v / 2 ^ n % 2) (omega arith) w))

pub wue-IsWritten :
    (v : ℕ) (bs : List ℕ) (o : Out)
    → v + 1 < 2 ^ 32
    → IsWritten bs o
    → IsWritten (bs ++ ue_code v) (wue o v)
unfolding wue
wue-IsWritten v bs o h w = rw small (
    rw (append_assoc bs (zeros n) (bits_of (n + 1) (v + 1))) at (
      wbits-IsWritten (n + 1) (v + 1) (bs ++ zeros n) (wbits o 0 n)
        (rw (bits_of_zero n) at (wbits-IsWritten n 0 bs o w))))
  where
    small : (v + 1) % 2 ^ 32 ≡ v + 1
    small = omega arith

    n : ℕ
    n = width 32 (v + 1)
