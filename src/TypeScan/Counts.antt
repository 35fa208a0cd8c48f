-- ===== src/TypeScan/Counts.antt =====
-- What the counters of src/ring-capture/typescan.c have to do with each other.
use yi_outdoor_1080p_ptz.Prelude.{
  ℕ, zero, suc, ◌+◌, ◌-◌, ◌*◌, ◌/◌, ◌%◌, ◌<◌, ◌≡◌, ◌≢◌, refl, arith, not, ◌&&◌, ◌||◌, ltb, leb,
  ◌==◌, if◌then◌else◌, if-both, if-each, List, take, drop, get_or,
}
use yi_outdoor_1080p_ptz.Memory.{Buf, of_le}
use yi_outdoor_1080p_ptz.Fshare.Layout.{data_sz, hdr_u32}
use yi_outdoor_1080p_ptz.Emit.Scan.{find_start}
use yi_outdoor_1080p_ptz.TypeScan.{
  Tally, empty, bump, note_chain, note_idr, note_nal, note_record, unfinished, Walked, type_walk,
  type_scan, ring_read,
}

-- Each chain is a record of its type, and each IDR a NAL of its type.
pub record IsConsistent (t : Tally) : Type 0 where
  pub chains : t.nchain ≡ t.types 0x0422
  pub idrs : t.nidr ≡ t.nt_hist 5

-- The walk has come to its end, and the counters agree.
pub record IsTallied (r : Walked) : Type 0 where
  pub ends : r.halt ≢ unfinished
  pub consistent : IsConsistent r.tally

note_nal-IsConsistent :
    (pl : Buf) (len : ℕ) (t : Tally) → IsConsistent t → IsConsistent (note_nal pl len t)
unfolding note_nal note_idr
note_nal-IsConsistent pl len t w =
    if-both IsConsistent (ltb len (k + 4)) (record { chains = w.chains; idrs = w.idrs })
      (if-each IsConsistent (nt == 5)
        (λ is. record { chains = w.chains; idrs = ground (arith, w.idrs) })
        (λ other. record { chains = w.chains; idrs = ground (arith, w.idrs) }))
  where
    k : ℕ
    k = find_start len pl len 0

    nt : ℕ
    nt = pl (k + 4) % 32

module _ (stale : ℕ) (m : Buf) where
  note_record-IsConsistent :
      (off len seq kind : ℕ) (t : Tally)
      → IsConsistent t
      → IsConsistent (note_record stale m off len seq kind t)
  unfolding note_record note_chain
  note_record-IsConsistent off len seq kind t w =
      if-both IsConsistent (kind / 0x0400 % 2 == 1)
        (record { chains = with_nal.chains; idrs = with_nal.idrs }) with_nal
    where
      counted : Tally
      counted = record t { types = bump t.types kind }

      after_chain : Tally
      after_chain = if kind == 0x0422 then note_chain off seq counted else counted

      with_chain : IsConsistent after_chain
      with_chain =
          if-each IsConsistent (kind == 0x0422)
            (λ is. record { chains = ground (arith, w.chains); idrs = w.idrs })
            (λ other. record { chains = ground (arith, w.chains); idrs = w.idrs })

      pl : Buf
      pl a = get_or (ring_read m (off + 26) len) a stale

      with_nal : IsConsistent (
          if kind == 0x0400 && leb 5 len && leb len (48 * 1024)
          then note_nal pl len after_chain
          else after_chain)
      with_nal =
          if-both IsConsistent (kind == 0x0400 && leb 5 len && leb len (48 * 1024))
            (note_nal-IsConsistent pl len after_chain with_chain) with_chain

  type_walk-IsTallied :
      (fuel off left : ℕ) (t : Tally)
      → left < fuel
      → IsConsistent t
      → IsTallied (type_walk fuel stale m off left t)
  unfolding type_walk
  type_walk-IsTallied zero off left t h w = absurd (omega arith)
  type_walk-IsTallied (suc fuel) off left t h w =
      if-each IsTallied (not (ltb 26 left)) (λ over. record { ends = λ e. cc; consistent = w })
        λ more.
          if-both IsTallied (ltb data_sz len || ltb left (len + 26))
            (record { ends = λ e. cc; consistent = w })
            (type_walk-IsTallied fuel ((off + 26 + len) % data_sz) (left - (26 + len))
              (note_record stale m off len seq kind t) (ground arith)
              (note_record-IsConsistent off len seq kind t w))
    where
      h' : List ℕ
      h' = ring_read m off 26

      len : ℕ
      len = of_le (take 4 h')

      seq : ℕ
      seq = of_le (take 4 (drop 4 h'))

      kind : ℕ
      kind = of_le (take 2 (drop 20 h'))

  -- Whatever the ring holds, the program walks to an end, and its counters agree: it counts as many
  -- chains as records of the type 0x0422, and as many IDRs as NALs of type 5.
  pub type_scan-IsTallied : IsTallied (type_scan stale m)
  unfolding type_scan
  type_scan-IsTallied =
      type_walk-IsTallied _ (hdr_u32 m 0x10) _ empty (omega arith)
        (record { chains = refl; idrs = refl })
