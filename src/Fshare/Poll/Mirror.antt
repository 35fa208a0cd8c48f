-- ===== src/Fshare/Poll/Mirror.antt =====
-- The cursor word of the slot and the reader's own cursor, and what a poll of
-- src/fshare2fifo/fshare2fifo.c leaves of the writer's part of the memory.
use yi_outdoor_1080p_ptz.Prelude.{
  ℕ, ◌+◌, ◌-◌, ◌^◌, ◌≤◌, ◌<◌, ◌≡◌, ◌≢◌, inl, inr, refl, sym, ap, ◌∙◌, Option, none, some, arith,
  ltb, leb, ◌==◌, ◌&&◌, if◌then◌else◌, if-both, Bool-cases,
}
use yi_outdoor_1080p_ptz.Memory.{Buf, IsBytes, of_le, u32}
use yi_outdoor_1080p_ptz.Memory.Laws.{read_ext, write-to_le-IsBytes}
use yi_outdoor_1080p_ptz.Fshare.Layout.{
  data_sz, nslot, slot_off, max_pay, hdr_tail, hdr_valid, hdr_seq, hdr_u32, hdr_wr_u32,
}
use yi_outdoor_1080p_ptz.Fshare.Layout.Slots.{hdr_u32-hdr_wr_u32_self, hdr_u32-hdr_wr_u32_ne}
use yi_outdoor_1080p_ptz.Fshare.Record.{RecHdr}
use yi_outdoor_1080p_ptz.Fshare.Record.Bounds.{hdr_u32-lt}
use yi_outdoor_1080p_ptz.Fshare.Walk.{Walk, stop, hit, exhausted}
use yi_outdoor_1080p_ptz.Fshare.Walk.Log.{Entry, AllSeq}
use yi_outdoor_1080p_ptz.Fshare.Walk.Frame.{complete_records-SameRing}
use yi_outdoor_1080p_ptz.Fshare.Walk.Entries.{
  IsComplete, find_first_sound, complete_records-IsComplete,
}
use yi_outdoor_1080p_ptz.Fshare.Walk.Delivery.{outcome, walk_delivers_first}
use yi_outdoor_1080p_ptz.Fshare.Poll.{Polled, settle, deliver, conclude, poll}
use yi_outdoor_1080p_ptz.Fshare.Claim.Choice.{OtherSlot}
use yi_outdoor_1080p_ptz.Fshare.Poll.Frame.{poll-Elsewhere}
use yi_outdoor_1080p_ptz.Fshare.Poll.Result.{visible, deliver-IsServed}

-- The writer's part is as the reader relies on it: bytes, a tail inside the ring, and complete
-- records with numbers other than 0.
pub record IsRing (m : Buf) : Type 0 where
  pub bytes : IsBytes m
  pub tail_in : hdr_u32 m hdr_tail < data_sz
  pub numbered : AllSeq (λ s. s ≢ 0) (visible m)

pub hdr_wr_u32-IsBytes : (m : Buf) (off v : ℕ) → IsBytes m → IsBytes (hdr_wr_u32 m off v)
unfolding hdr_wr_u32
hdr_wr_u32-IsBytes m off v b = write-to_le-IsBytes 4 m off v b

-- Two images that differ in the words of slot `k` only.
abbrev pub SameElsewhere : ℕ → Buf → Buf → Type 0
SameElsewhere k m m' = (a : ℕ) → OtherSlot k a → m' a ≡ m a

module _ (k : ℕ) (m m' : Buf) (slot : k < nslot) (same : SameElsewhere k m m') where
  pub hdr_u32-SameElsewhere : (off : ℕ) → off + 4 ≤ 28 → hdr_u32 m' off ≡ hdr_u32 m off
  unfolding hdr_u32
  hdr_u32-SameElsewhere off h = ap of_le (read_ext m' m off 4 (λ a p q. same a (inl (omega arith))))

  pub visible-SameElsewhere : visible m' ≡ visible m
  visible-SameElsewhere =
      rw
        (
          hdr_u32-SameElsewhere hdr_valid (omega arith),
          hdr_u32-SameElsewhere hdr_seq (omega arith),
          hdr_u32-SameElsewhere hdr_tail (omega arith),
        )
        (sym (complete_records-SameRing m m' (λ a h. sym (same a (inr (omega arith)))) _ _ _ _))

  -- The reader's own words do not matter to the writer's part.
  pub IsRing-SameElsewhere : IsBytes m' → IsRing m → IsRing m'
  IsRing-SameElsewhere b r = record {
    bytes = b;
    tail_in = rw (hdr_u32-SameElsewhere hdr_tail (omega arith)) r.tail_in;
    numbered = rw visible-SameElsewhere r.numbered;
  }

-- The slot's cursor word is the reader's cursor.
abbrev pub IsMirrored : ℕ → Buf → ℕ → Type 0
IsMirrored k m cursor = hdr_u32 m (slot_off k + 8) ≡ cursor

settle-IsMirrored :
    (k : ℕ) (m : Buf) (newest cursor : ℕ)
    → newest < 2 ^ 32
    → IsMirrored k m cursor
    → IsMirrored k (settle k m newest cursor).mem (settle k m newest cursor).cursor
unfolding settle
settle-IsMirrored k m newest cursor h w =
    elim (Bool-cases (ltb newest cursor && ltb 10000 (cursor - newest))) [
      | inl t ↦ rw t (
          hdr_u32-hdr_wr_u32_ne (hdr_wr_u32 m (slot_off k + 8) newest) (slot_off k) 0
            (slot_off k + 8) (inr (omega arith))
          ∙ hdr_u32-hdr_wr_u32_self m (slot_off k + 8) newest h)
      | inr f ↦
          rw f (hdr_u32-hdr_wr_u32_ne m (slot_off k) 0 (slot_off k + 8) (inr (omega arith)) ∙ w)
    ]

settle-IsBytes :
    (k : ℕ) (m : Buf) (newest cursor : ℕ) → IsBytes m → IsBytes (settle k m newest cursor).mem
unfolding settle
settle-IsBytes k m newest cursor b = hdr_wr_u32-IsBytes _ (slot_off k) 0 (
    if-both IsBytes (ltb newest cursor && ltb 10000 (cursor - newest))
      (hdr_wr_u32-IsBytes m (slot_off k + 8) newest b) b)

deliver-IsBytes :
    (k : ℕ) (m : Buf) (newest : ℕ) (h : RecHdr) (off : ℕ)
    → IsBytes m
    → IsBytes (deliver k m newest h off).mem
unfolding deliver
deliver-IsBytes k m newest h off b =
    if-both (λ (x : Polled). IsBytes x.mem) (leb h.len max_pay) told
      (settle-IsBytes k _ newest h.seq told)
  where
    m1 : Buf
    m1 = hdr_wr_u32 m (slot_off k + 8) h.seq

    told : IsBytes (if u32 (h.seq + 1) == newest then hdr_wr_u32 m1 (slot_off k) 0 else m1)
    told =
        if-both IsBytes (u32 (h.seq + 1) == newest)
          (hdr_wr_u32-IsBytes m1 (slot_off k) 0 (hdr_wr_u32-IsBytes m (slot_off k + 8) h.seq b))
          (hdr_wr_u32-IsBytes m (slot_off k + 8) h.seq b)

conclude-IsBytes :
    (k : ℕ) (m : Buf) (newest cursor : ℕ) (w : Walk)
    → IsBytes m
    → IsBytes (conclude k m newest cursor w).mem
unfolding conclude
conclude-IsBytes k m newest cursor (stop c) b = settle-IsBytes k m newest c b
conclude-IsBytes k m newest cursor (hit h off) b = deliver-IsBytes k m newest h off b
conclude-IsBytes k m newest cursor exhausted b = settle-IsBytes k m newest cursor b

poll-IsBytes :
    (k filter : ℕ) (m : Buf) (cursor : ℕ) → IsBytes m → IsBytes (poll k filter m cursor).mem
unfolding poll
poll-IsBytes k filter m cursor b =
    if-both (λ (x : Polled). IsBytes x.mem) (hdr_u32 m (slot_off k) == 0) b
      (conclude-IsBytes k m (hdr_u32 m hdr_seq) cursor _ b)

-- A poll leaves the writer's part as the reader relies on it.
pub poll-IsRing :
    (k filter : ℕ) (m : Buf) (cursor : ℕ)
    → k < nslot
    → IsRing m
    → IsRing (poll k filter m cursor).mem
poll-IsRing k filter m cursor slot r =
    IsRing-SameElsewhere k m _ slot (λ a e. poll-Elsewhere k filter m cursor a (ground arith))
      (poll-IsBytes k filter m cursor r.bytes) r

conclude-IsMirrored :
    (k : ℕ) (m : Buf) (newest left cursor : ℕ) (o : Option Entry)
    → newest < 2 ^ 32
    → ((e : Entry) → o ≡ some e → IsComplete m newest left e)
    → IsMirrored k m cursor
    → IsMirrored k
        (conclude k m newest cursor (outcome cursor o)).mem
        (conclude k m newest cursor (outcome cursor o)).cursor
unfolding conclude
conclude-IsMirrored k m newest left cursor none h c w = settle-IsMirrored k m newest cursor h w
conclude-IsMirrored k m newest left cursor (some e) h c w =
    let served = deliver-IsServed k m newest left e (c e refl) in
    served.mirrored ∙ sym served.cursor_is

-- A poll keeps the slot's cursor word equal to the reader's cursor.
pub poll-IsMirrored :
    (k filter : ℕ) (m : Buf) (cursor : ℕ)
    → IsRing m
    → IsMirrored k m cursor
    → IsMirrored k (poll k filter m cursor).mem (poll k filter m cursor).cursor
unfolding poll
poll-IsMirrored k filter m cursor r w =
    if-both (λ (x : Polled). IsMirrored k x.mem x.cursor) (hdr_u32 m (slot_off k) == 0) w
      (rw
        (walk_delivers_first m filter (hdr_u32 m hdr_seq) cursor (hdr_u32 m hdr_tail)
          (hdr_u32 m hdr_valid) r.bytes (hdr_u32-lt m hdr_valid r.bytes) r.numbered)
        (conclude-IsMirrored k m (hdr_u32 m hdr_seq) (hdr_u32 m hdr_valid) cursor _
          (hdr_u32-lt m hdr_seq r.bytes)
          (λ e q.
            (find_first_sound (IsComplete m (hdr_u32 m hdr_seq) (hdr_u32 m hdr_valid)) _ (visible m)
              (complete_records-IsComplete _ m _ _ _ r.bytes r.tail_in
                (hdr_u32-lt m hdr_valid r.bytes))
              q).0)
          w))
