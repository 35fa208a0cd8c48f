-- ===== src/TypeScan/Reads.antt =====
-- The ring of src/ring-capture/typescan.c and that of src/fshare2fifo/fshare2fifo.c.
use yi_outdoor_1080p_ptz.Prelude.{
  false, ℕ, ◌-◌, ◌<◌, ◌≡◌, refl, arith, ltb, leb, if◌then◌else◌, min,
}
use yi_outdoor_1080p_ptz.Memory.{Buf}
use yi_outdoor_1080p_ptz.Fshare.Layout.{data_sz, ring_copy}
use yi_outdoor_1080p_ptz.TypeScan.{ring_read}

-- At an offset in the ring both programs read the same bytes.
pub ring_read-ring_copy :
    (m : Buf) (off n : ℕ) → off < data_sz → ring_read m off n ≡ ring_copy m off n
unfolding ring_read ring_copy
ring_read-ring_copy m off n h = rw (inside, inside', room) refl
  where
    inside : ltb data_sz off ≡ false
    inside = ground arith

    inside' : leb data_sz off ≡ false
    inside' = ground arith

    room : min (data_sz - off) n ≡ (if ltb n (data_sz - off) then n else data_sz - off)
    room = ground arith
