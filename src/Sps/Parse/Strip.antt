-- ===== src/Sps/Parse/Strip.antt =====
-- The strip of emulation bytes of `parse_sps_full` in src/fshare2fifo/fshare2fifo.c.
use yi_outdoor_1080p_ptz.Prelude.{
  ℕ, zero, suc, ◌+◌, ◌-◌, ◌≤◌, ◌<◌, ◌≡◌, refl, arith, true, false, ◌&&◌, ltb, ◌==◌,
}
use yi_outdoor_1080p_ptz.Memory.{Buf, poke}
use yi_outdoor_1080p_ptz.Sps.Info.{nal_buf_max}
use yi_outdoor_1080p_ptz.Sps.Parse.{Stripped, is_emulation, strip_step, strip, unstripped}

-- No 3 stands behind two zero bytes.
abbrev pub NoEmulation : Buf → ℕ → Type 0
NoEmulation d len = (i : ℕ) → i + 2 < len → (d i == 0 && d (i + 1) == 0 && d (i + 2) == 3) ≡ false

-- The first `i` bytes have been copied.
record Copied (d : Buf) (i : ℕ) (t : Stripped) : Type 0 where
  slen_is : t.slen ≡ i
  same : (j : ℕ) → j < i → t.bytes j ≡ d j

strip_step-Copied :
    (d : Buf) (len i : ℕ) (t : Stripped)
    → NoEmulation d len
    → i < len
    → Copied d i t
    → Copied d (i + 1) (strip_step d i t)
unfolding strip_step poke
strip_step-Copied d len i t n h c = rw kept (record {
  slen_is = omega (arith, c.slen_is);
  same = λ j lt. ground (arith, c.slen_is, c.same j);
})
  where
    kept : is_emulation d i t ≡ false
    kept = ground (arith, c.slen_is, c.same (i - 1), c.same (i - 2), n (i - 2))

strip-Copied :
    (left : ℕ) (d : Buf) (len i : ℕ) (t : Stripped)
    → NoEmulation d len
    → len ≤ nal_buf_max
    → i + left ≡ len
    → Copied d i t
    → Copied d len (strip left d i t)
unfolding strip
strip-Copied zero d len i t n hl e c = let same : i ≡ len = omega arith in rw (← same) c
strip-Copied (suc left) d len i t n hl e c = rw (open_is) (
    strip-Copied left d len (i + 1) (strip_step d i t) n hl (omega arith)
      (strip_step-Copied d len i t n (omega arith) c))
  where
    open_is : ltb t.slen nal_buf_max ≡ true
    open_is = ground (arith, c.slen_is)

-- A buffer of at most 256 bytes without the pattern is copied whole.
pub strip_whole :
    (d : Buf) (len : ℕ)
    → NoEmulation d len
    → len ≤ nal_buf_max
    → ((strip len d 0 unstripped).slen ≡ len)
      × ((j : ℕ) → j < len → (strip len d 0 unstripped).bytes j ≡ d j)
strip_whole d len n h =
    let c =
      strip-Copied len d len 0 unstripped n h (omega arith)
        (record { slen_is = refl; same = λ j lt. absurd (omega arith) }) in
    (c.slen_is, c.same)
