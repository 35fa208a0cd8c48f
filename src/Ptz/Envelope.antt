-- ===== src/Ptz/Envelope.antt =====
-- The message buffer against the documented envelopes.
use yi_outdoor_1080p_ptz.Prelude.{
  ℕ, zero, suc, ◌+◌, ◌≤◌, ◌≡◌, ap, ap₂, ◌∙◌, inl, inr, List, ◌∷◌, ◌++◌, ◌==◌, if◌then◌else◌, length,
  arith, Bool-cases, if-both,
}
use yi_outdoor_1080p_ptz.Memory.{Buf, read, write, to_le}
use yi_outdoor_1080p_ptz.Memory.Laws.{length-read, read-write_self, read-write_disjoint}
use yi_outdoor_1080p_ptz.Ptz.Message.{head, message, put32}

read-append : (m : Buf) (off n k : ℕ) → read m off (n + k) ≡ read m off n ++ read m (off + n) k
unfolding read
read-append m off zero k = ap₂ (λ a b. read m a b) (omega arith) (omega arith)
read-append m off (suc n) k =
    let e : suc n + k ≡ suc (n + k) = omega arith in
    rw e (
      ap (◌∷◌ (m off))
        (read-append m (off + 1) n k ∙ ap (λ a. read m (off + 1) n ++ read m a k) (omega arith)))

-- A store behind what has been written so far appends.
read-write_next :
    (m : Buf) (n : ℕ) (bs : List ℕ) → read (write m n bs) 0 (n + length bs) ≡ read m 0 n ++ bs
read-write_next m n bs =
    read-append (write m n bs) 0 n (length bs)
    ∙ ap₂ ◌++◌ (read-write_disjoint m n bs 0 n (inl (omega arith)))
        (ap (λ a. read (write m n bs) a (length bs)) (omega arith) ∙ read-write_self m n bs)

-- The twelve bytes of the head.
abbrev pub head_bytes : ℕ → ℕ → ℕ → List ℕ
head_bytes kind cmd cmd2 = ((to_le 4 1 ++ to_le 4 kind) ++ to_le 2 cmd) ++ to_le 2 cmd2

read-head : (kind cmd cmd2 : ℕ) → read (head kind cmd cmd2) 0 12 ≡ head_bytes kind cmd cmd2
unfolding head read
read-head kind cmd cmd2 =
    let m1 = write (λ _. 0) 0 (to_le 4 1) in
    let m2 = write m1 4 (to_le 4 kind) in
    let m3 = write m2 8 (to_le 2 cmd) in
    read-write_next m3 10 (to_le 2 cmd2)
    ∙ ap (λ (x : List ℕ). x ++ to_le 2 cmd2)
        (read-write_next m2 8 (to_le 2 cmd)
          ∙ ap (λ (x : List ℕ). x ++ to_le 2 cmd)
              (read-write_next m1 4 (to_le 4 kind)
                ∙ ap (λ (x : List ℕ). x ++ to_le 4 kind) (read-write_next (λ _. 0) 0 (to_le 4 1))))

-- A message without an extra word is the head, word by word, and the payload behind it; an extra
-- word other than 0 follows the payload. A payload of at most 48 bytes keeps it in the 64 bytes of
-- the buffer.
pub message_envelope :
    (kind : ℕ) (payload : List ℕ) (cmd cmd2 extra : ℕ)
    → length payload ≤ 48
    → (message kind payload cmd cmd2 extra ≡ (
        if extra == 0
        then head_bytes kind cmd cmd2 ++ payload
        else (head_bytes kind cmd cmd2 ++ payload) ++ to_le 4 extra))
      × (length (message kind payload cmd cmd2 extra) ≤ 64)
unfolding message
message_envelope kind payload cmd cmd2 extra h = (
  elim (Bool-cases (extra == 0)) [
    | inl e ↦ rw e plain
    | inr e ↦ rw e (
        read-write_next m (12 + length payload) (to_le 4 extra)
        ∙ ap (λ (x : List ℕ). x ++ to_le 4 extra) plain)
  ],
  if-both (λ (x : List ℕ). length x ≤ 64) (extra == 0)
      (omega (arith, length-read m 0 (12 + length payload)))
      (omega
        (arith, length-read (put32 m (12 + length payload) extra) 0 (12 + length payload + 4))),
)
  where
    m : Buf
    m = write (head kind cmd cmd2) 12 payload

    plain : read m 0 (12 + length payload) ≡ head_bytes kind cmd cmd2 ++ payload
    plain =
        read-write_next (head kind cmd cmd2) 12 payload
        ∙ ap (λ (x : List ℕ). x ++ payload) (read-head kind cmd cmd2)
