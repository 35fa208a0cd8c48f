-- ===== src/Fshare/Claim/Seed.antt =====
-- The join of src/fshare2fifo/fshare2fifo.c: a video claim and the first poll behind it.
use yi_outdoor_1080p_ptz.Prelude.{
  ℕ, ◌+◌, ◌-◌, ◌^◌, ◌≤◌, ◌<◌, ◌≡◌, inl, inr, sym, ap, ◌∙◌, true, false, none, some, arith, length,
}
use yi_outdoor_1080p_ptz.Memory.{Buf, IsBytes, of_le}
use yi_outdoor_1080p_ptz.Memory.Laws.{read_ext}
use yi_outdoor_1080p_ptz.Fshare.Layout.{
  data_sz, hdr_tail, hdr_valid, hdr_seq, filter_hires, nslot, hdr_u32,
}
use yi_outdoor_1080p_ptz.Fshare.Record.{entry_wanted}
use yi_outdoor_1080p_ptz.Fshare.Walk.Log.{Entry, find_first, find_last}
use yi_outdoor_1080p_ptz.Fshare.Walk.Frame.{SameRing, complete_records-SameRing}
use yi_outdoor_1080p_ptz.Fshare.Poll.{poll}
use yi_outdoor_1080p_ptz.Fshare.Poll.Result.{visible, IsServed, PollSpec, poll-PollSpec}
use yi_outdoor_1080p_ptz.Fshare.Claim.Choice.{IsClaimed, take_slot-IsClaimed}
use yi_outdoor_1080p_ptz.Fshare.Claim.{Claimed, chain_start, join_scan, join_cursor, take_slot}
use yi_outdoor_1080p_ptz.Fshare.Claim.Log.{
  seq_or, join_scan-find_last, In, Consecutive, In-seq, find_last_sound, find_first-Consecutive,
  chain_start-class, Consecutive-AllSeq, take_slot-IsBytes,
}

module _ (m : Buf) (k s : ℕ) (e : Entry) (b : IsBytes m) (slot : k < nslot)
    (tail_in : hdr_u32 m hdr_tail < data_sz) (run : Consecutive s (visible m)) (s_pos : 0 < s)
    (s_end : s + length (visible m) ≤ 2 ^ 31)
    (chosen : find_last (chain_start (hdr_u32 m hdr_seq)) none (visible m) ≡ some e)
    (two : 2 ≤ e.hdr.seq) where
  abbrev claimed : Claimed
  claimed = take_slot false m k

  is_claimed : IsClaimed false m k claimed
  is_claimed = take_slot-IsClaimed false m k b

  claimed-SameRing : SameRing m claimed.mem
  claimed-SameRing a h = sym (is_claimed.elsewhere a (inr (omega arith)))

  claimed_hdr : (off : ℕ) → off + 4 ≤ 28 → hdr_u32 claimed.mem off ≡ hdr_u32 m off
  unfolding hdr_u32
  claimed_hdr off h =
      ap of_le (read_ext claimed.mem m off 4 (λ a p q. is_claimed.elsewhere a (inl (omega arith))))

  claimed_visible : visible claimed.mem ≡ visible m
  claimed_visible =
      rw
        (
          claimed_hdr hdr_valid (omega arith),
          claimed_hdr hdr_seq (omega arith),
          claimed_hdr hdr_tail (omega arith),
        )
        (sym (complete_records-SameRing m claimed.mem claimed-SameRing _ _ _ _))

  claimed-IsBytes : IsBytes claimed.mem
  claimed-IsBytes = take_slot-IsBytes false m k b

  scanned :
      join_scan
        (hdr_u32 m hdr_valid)
        m
        (hdr_u32 m hdr_seq)
        0
        (hdr_u32 m hdr_tail)
        (hdr_u32 m hdr_valid)
      ≡ e.hdr.seq
  scanned =
      join_scan-find_last (hdr_u32 m hdr_valid) m (hdr_u32 m hdr_seq) 0 (hdr_u32 m hdr_tail)
        (hdr_u32 m hdr_valid) none
      ∙ ap (seq_or 0) chosen

  -- The cursor is one before the chain start.
  claimed_cursor : claimed.cursor ≡ e.hdr.seq - 1
  unfolding take_slot join_cursor
  claimed_cursor = rw scanned (ground arith)

  found : In e (visible m) × (chain_start (hdr_u32 m hdr_seq) e.hdr ≡ true)
  found = elim (find_last_sound (chain_start (hdr_u32 m hdr_seq)) none (visible m) e chosen) [
    | inl p ↦ cc
    | inr p ↦ p
  ]

  poll_finds : find_first (entry_wanted claimed.cursor filter_hires) (visible claimed.mem) ≡ some e
  poll_finds =
      let (_, hi) = In-seq s (visible m) e run found.0 in
      rw (claimed_visible, claimed_cursor)
        (find_first-Consecutive filter_hires s (visible m) e run found.0 two (omega arith)
          (chain_start-class _ e.hdr found.1))

  polled :
      PollSpec k claimed.mem
        (hdr_u32 claimed.mem hdr_seq)
        claimed.cursor
        (poll k filter_hires claimed.mem claimed.cursor)
        (find_first (entry_wanted claimed.cursor filter_hires) (visible claimed.mem))
  polled =
      poll-PollSpec k filter_hires claimed.mem claimed.cursor claimed-IsBytes
        (omega (arith, is_claimed.pending)) (rw (claimed_hdr hdr_tail (omega arith)) tail_in)
        (rw claimed_visible (Consecutive-AllSeq s (visible m) s_pos run))

  -- A video claim with a chain start among the complete records seeds the cursor one before the
  -- newest of them, and the first poll behind the claim delivers that record. The claim is of a slot
  -- of the table, the memory holds bytes, the tail lies in the ring, the records are numbered one by
  -- one from a number other than 0 on, below 2 ^ 31, and the chain start has a number of at least 2.
  pub claim_joins :
      (claimed.cursor ≡ e.hdr.seq - 1)
      × IsServed k claimed.mem
          (hdr_u32 claimed.mem hdr_seq)
          e
          (poll k filter_hires claimed.mem claimed.cursor)
  claim_joins = (claimed_cursor, rw poll_finds at polled)
