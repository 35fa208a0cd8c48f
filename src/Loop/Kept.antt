-- ===== src/Loop/Kept.antt =====
-- What a look of the watchdog in src/fshare2fifo/fshare2fifo.c leaves of the memory.
use mathlib.Core.Bool.{true≢false}
use yi_outdoor_1080p_ptz.Prelude.{
  ℕ, ◌+◌, ◌-◌, ◌<◌, ◌≡◌, refl, sym, ◌∙◌, false, arith, leb, ◌==◌, if-both, if-each,
}
use yi_outdoor_1080p_ptz.Memory.{Buf}
use yi_outdoor_1080p_ptz.Fshare.Layout.{nslot, slot_off, hdr_seq, hdr_valid, hdr_u32}
use yi_outdoor_1080p_ptz.Fshare.Layout.Slots.{hdr_u32-hdr_wr_u32_self, hdr_wr_u32_outside}
use yi_outdoor_1080p_ptz.Fshare.Record.Bounds.{hdr_u32-lt}
use yi_outdoor_1080p_ptz.Fshare.Poll.Mirror.{
  IsRing, IsMirrored, hdr_wr_u32-IsBytes, IsRing-SameElsewhere,
}
use yi_outdoor_1080p_ptz.Fshare.Stall.{
  Watch, Watched, max_stall_reanchor, reanchor, stall_watch, stall_secs,
}

-- A look that does not end the loop.
pub record IsKept (k : ℕ) (q : Watched) : Type 0 where
  pub ring : IsRing q.mem
  pub mirrored : IsMirrored k q.mem q.watch.cursor

reanchor-IsKept :
    (now k : ℕ) (m : Buf) (w : Watch)
    → k < nslot
    → IsRing m
    → (reanchor now k m w).exits ≡ false
    → IsKept k (reanchor now k m w)
unfolding reanchor
reanchor-IsKept now k m w slot ring =
    if-each (λ (q : Watched). q.exits ≡ false → IsKept k q) (leb max_stall_reanchor (w.anchors + 1))
      (λ t z. absurd (true≢false z))
      λ f z. record {
        ring =
            IsRing-SameElsewhere k m _ slot
              (λ a e. hdr_wr_u32_outside m (slot_off k + 8) _ a (ground arith))
              (hdr_wr_u32-IsBytes m (slot_off k + 8) _ ring.bytes) ring;
        mirrored = hdr_u32-hdr_wr_u32_self m (slot_off k + 8) _ (hdr_u32-lt m hdr_seq ring.bytes);
      }

pub stall_watch-IsKept :
    (now k : ℕ) (m : Buf) (w : Watch)
    → k < nslot
    → IsRing m
    → IsMirrored k m w.cursor
    → (stall_watch now k m w).exits ≡ false
    → IsKept k (stall_watch now k m w)
unfolding stall_watch
stall_watch-IsKept now k m w slot ring mir = if-both P (w.last_emit == 0) (same refl) (
    if-both P (hdr_u32 m hdr_valid == w.last_valid) (same refl) (
      if-both P (leb stall_secs (now - w.last_emit)) (reanchor-IsKept now k m w slot ring)
        (same refl)))
  where
    P : Watched → Type 0
    P q = q.exits ≡ false → IsKept k q

    same : {w' : Watch} → w'.cursor ≡ w.cursor → P (record { mem = m; watch = w'; exits = false })
    same x z = record { ring = ring; mirrored = mir ∙ sym x }
