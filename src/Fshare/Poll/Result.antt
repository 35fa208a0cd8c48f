-- ===== src/Fshare/Poll/Result.antt =====
-- What a poll delivers, and how it leaves the slot.
use yi_outdoor_1080p_ptz.Prelude.{
  ℕ, ◌+◌, ◌-◌, ◌<◌, ◌≡◌, ◌≢◌, refl, true, false, List, Option, none, some, arith, ltb, leb, ◌==◌,
  ◌&&◌, if◌then◌else◌,
}
use yi_outdoor_1080p_ptz.Memory.{Buf, IsBytes, u32}
use yi_outdoor_1080p_ptz.Fshare.Layout.{
  data_sz, max_pay, slot_off, hdr_tail, hdr_valid, hdr_seq, hdr_u32, hdr_wr_u32, ring_copy,
}
use yi_outdoor_1080p_ptz.Fshare.Layout.Slots.{hdr_u32-hdr_wr_u32_self, hdr_u32-hdr_wr_u32_ne}
use yi_outdoor_1080p_ptz.Fshare.Record.{entry_wanted}
use yi_outdoor_1080p_ptz.Fshare.Record.Bounds.{hdr_u32-lt}
use yi_outdoor_1080p_ptz.Fshare.Walk.Log.{Entry, complete_records, find_first, AllSeq}
use yi_outdoor_1080p_ptz.Fshare.Walk.Entries.{
  IsComplete, find_first_sound, complete_records-IsComplete,
}
use yi_outdoor_1080p_ptz.Fshare.Walk.Delivery.{outcome, walk_delivers_first}
use yi_outdoor_1080p_ptz.Fshare.Poll.{Polled, settle, deliver, conclude, poll}

-- The cursor that is left where nothing was delivered: a writer whose numbers have dropped by more
-- than 10000 has begun a new era.
abbrev pub reanchored : ℕ → ℕ → ℕ
reanchored newest cursor =
    if ltb newest cursor && ltb 10000 (cursor - newest) then newest else cursor

-- The round delivered the record of entry `e`.
pub record IsServed (k : ℕ) (m : Buf) (newest : ℕ) (e : Entry) (r : Polled) : Type 0 where
  pub cursor_is : r.cursor ≡ e.hdr.seq
  pub mirrored : hdr_u32 r.mem (slot_off k + 8) ≡ e.hdr.seq
  pub pending :
      hdr_u32 r.mem (slot_off k)
      ≡ (if u32 (e.hdr.seq + 1) == newest then 0 else hdr_u32 m (slot_off k))
  pub got :
      r.got
      ≡ some (record {
        payload = ring_copy m (u32 (e.at + 26)) e.hdr.len;
        len = e.hdr.len;
        kind = e.hdr.kind;
      })

-- The round found nothing, and left the slot asleep.
pub record IsIdle (k newest cursor : ℕ) (r : Polled) : Type 0 where
  pub cursor_is : r.cursor ≡ reanchored newest cursor
  pub pending : hdr_u32 r.mem (slot_off k) ≡ 0
  pub got : r.got ≡ none

abbrev pub PollSpec : ℕ → Buf → ℕ → ℕ → Polled → Option Entry → Type 0
PollSpec k m newest cursor r none = IsIdle k newest cursor r
PollSpec k m newest cursor r (some e) = IsServed k m newest e r

settle-IsIdle :
    (k : ℕ) (m : Buf) (newest cursor : ℕ) → IsIdle k newest cursor (settle k m newest cursor)
unfolding settle
settle-IsIdle k m newest cursor = record {
  cursor_is = refl;
  pending = hdr_u32-hdr_wr_u32_self _ (slot_off k) 0 (omega arith);
  got = refl;
}

pub deliver-IsServed :
    (k : ℕ) (m : Buf) (newest left : ℕ) (e : Entry)
    → IsComplete m newest left e
    → IsServed k m newest e (deliver k m newest e.hdr e.at)
unfolding deliver
deliver-IsServed k m newest left e c = rw fits record {
  cursor_is = refl;
  mirrored = ground (
    arith,
    hdr_u32-hdr_wr_u32_self m (slot_off k + 8) e.hdr.seq c.seq_fits,
    hdr_u32-hdr_wr_u32_ne m' (slot_off k) 0 (slot_off k + 8),
  );
  pending = ground (
    arith,
    hdr_u32-hdr_wr_u32_self m' (slot_off k) 0,
    hdr_u32-hdr_wr_u32_ne m (slot_off k + 8) e.hdr.seq (slot_off k),
  );
  got = refl;
}
  where
    m' : Buf
    m' = hdr_wr_u32 m (slot_off k + 8) e.hdr.seq

    fits : leb e.hdr.len max_pay ≡ true
    fits = let h = c.len_fits in ground arith

-- The records that a poll looks at: from the tail on, over the valid bytes.
abbrev pub visible : Buf → List Entry
visible m =
    complete_records (hdr_u32 m hdr_valid) m (hdr_u32 m hdr_seq) (hdr_u32 m hdr_tail)
      (hdr_u32 m hdr_valid)

conclude-PollSpec :
    (k : ℕ) (m : Buf) (newest left cursor : ℕ) (o : Option Entry)
    → ((e : Entry) → o ≡ some e → IsComplete m newest left e)
    → PollSpec k m newest cursor (conclude k m newest cursor (outcome cursor o)) o
unfolding conclude
conclude-PollSpec k m newest left cursor none c = settle-IsIdle k m newest cursor
conclude-PollSpec k m newest left cursor (some e) c = deliver-IsServed k m newest left e (c e refl)

-- A poll of a pending slot serves the first record after the tail that the slot wants, if there is
-- one before the first unreadable record and the newest: its number becomes the cursor, in the
-- reader and in the slot's word, and the slot stays pending unless the record is the last but one.
-- Else nothing is delivered, the slot is no longer pending, and the cursor is left unless the
-- writer's numbers dropped by more than 10000, when it becomes the newest number. The memory holds
-- bytes, the tail lies in the ring and no complete record has the number 0.
pub poll-PollSpec :
    (k filter : ℕ) (m : Buf) (cursor : ℕ)
    → IsBytes m
    → hdr_u32 m (slot_off k) ≢ 0
    → hdr_u32 m hdr_tail < data_sz
    → AllSeq (λ s. s ≢ 0) (visible m)
    → PollSpec k m
        (hdr_u32 m hdr_seq)
        cursor
        (poll k filter m cursor)
        (find_first (entry_wanted cursor filter) (visible m))
unfolding poll
poll-PollSpec k filter m cursor b p t nz =
    rw
      (
        sleeping,
        walk_delivers_first m filter (hdr_u32 m hdr_seq) cursor (hdr_u32 m hdr_tail)
            (hdr_u32 m hdr_valid) b (hdr_u32-lt m hdr_valid b) nz,
      )
      (conclude-PollSpec k m (hdr_u32 m hdr_seq) (hdr_u32 m hdr_valid) cursor _ λ e q.
        (find_first_sound (IsComplete m (hdr_u32 m hdr_seq) (hdr_u32 m hdr_valid)) _ (visible m)
          (complete_records-IsComplete _ m _ _ _ b t (hdr_u32-lt m hdr_valid b)) q).0)
  where
    sleeping : (hdr_u32 m (slot_off k) == 0) ≡ false
    sleeping = ground arith
