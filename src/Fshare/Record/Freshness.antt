-- ===== src/Fshare/Record/Freshness.antt =====
-- Sequence numbers compared across the wrap of a uint32_t.
use yi_outdoor_1080p_ptz.Prelude.{ℕ, ◌+◌, ◌-◌, ◌^◌, ◌≤◌, ◌<◌, ◌≡◌, ◌≢◌, ◌↔◌, true, false, arith}
use yi_outdoor_1080p_ptz.Memory.{Buf, sub32, u32}
use yi_outdoor_1080p_ptz.Fshare.Layout.{max_pay}
use yi_outdoor_1080p_ptz.Fshare.Record.{
  RecHdr, class_wanted, entry_wanted, rec_at, readable, next_left,
}

-- A reader whose cursor is neither 0 nor the largest number wants exactly the records of its class
-- that lie 1 to 2 ^ 31 - 1 ahead of the cursor, counted round the 32-bit wrap.
pub entry_wanted_iff :
    (cursor filter : ℕ) (h : RecHdr)
    → cursor ≢ 0
    → cursor < 0xFFFFFFFF
    → h.seq < 2 ^ 32
    → (entry_wanted cursor filter h ≡ true)
      ↔ (class_wanted filter h ≡ true)
        × (1 ≤ sub32 h.seq cursor)
        × (sub32 h.seq cursor ≤ 0x7FFFFFFF)
unfolding entry_wanted
entry_wanted_iff cursor filter h c0 c1 hs = ground arith

-- A delivered record whose number is not 0 is not wanted again at its own cursor.
pub entry_wanted_own :
    (filter : ℕ) (h : RecHdr) → h.seq ≢ 0 → h.seq < 2 ^ 32 → entry_wanted h.seq filter h ≡ false
unfolding entry_wanted
entry_wanted_own filter h s0 s1 = ground arith

-- One behind the record, the cursor wants it, and the distance to it is 0.
pub entry_wanted_behind :
    (cursor filter : ℕ) (h : RecHdr)
    → h.seq ≢ 0
    → h.seq < 2 ^ 32
    → entry_wanted cursor filter h ≡ true
    → (entry_wanted (sub32 h.seq 1) filter h ≡ true) × (sub32 h.seq (u32 (sub32 h.seq 1 + 1)) ≡ 0)
unfolding entry_wanted
entry_wanted_behind cursor filter h s0 s1 w = ground arith

-- A readable record fits what is left, with no wrap in `26 + h.len`.
pub readable_fits :
    (m : Buf) (off left : ℕ)
    → left < 2 ^ 32
    → readable m off left ≡ true
    → (rec_at m off).len < 2 ^ 32
    → (26 + (rec_at m off).len ≤ left)
      × ((rec_at m off).len ≤ max_pay)
      × (next_left left (rec_at m off) ≡ left - (26 + (rec_at m off).len))
unfolding readable
readable_fits m off left hl r lt = ground arith
