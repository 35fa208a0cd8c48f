-- ===== src/Probe/Scan.antt =====
-- src/ring-capture/scanprobe.c: the runs of bytes that have changed since a snapshot, and the write
-- head that they tell.
pub mod Runs
pub mod Head
use yi_outdoor_1080p_ptz.Prelude.{
  ℕ, zero, suc, ◌+◌, ◌-◌, Bool, not, ◌&&◌, List, [], ◌∷◌, Option, none, some, ltb, leb, ◌==◌,
  if◌then◌else◌, length,
}
use yi_outdoor_1080p_ptz.Memory.{Buf}

-- `DATA_BASE`
abbrev pub scan_base : ℕ
scan_base = 0x100

-- `runs[i]`, from `s` up to `e` and without it.
pub record Run : Type 0 where
  pub s : ℕ
  pub e : ℕ

-- `for (p = DATA_BASE; p < buf_size; p++)`, with the bytes left to compare and the room left of the
-- four runs; `none` is `!in_run`. Behind the loop an open run ends at the end of the mapping.
unfoldable pub changed_runs : ℕ → Buf → Buf → ℕ → ℕ → Option ℕ → List Run
changed_runs zero buf snap p room none = []
changed_runs zero buf snap p room (some s) = if ltb 0 room then record { s = s; e = p } ∷ [] else []
changed_runs (suc left) buf snap p room none =
    let opened = changed_runs left buf snap (p + 1) room (some p) in
    let on = changed_runs left buf snap (p + 1) room none in
    if not (buf p == snap p) then opened else on
changed_runs (suc left) buf snap p room (some s) =
    let on = changed_runs left buf snap (p + 1) room (some s) in
    let closed = changed_runs left buf snap (p + 1) (room - 1) none in
    if not (buf p == snap p)
    then on
    else record { s = s; e = p } ∷ (if room - 1 == 0 then [] else closed)

unfoldable pub runs : Buf → Buf → ℕ → List Run
unfolding changed_runs
runs buf snap size = changed_runs (size - scan_base) buf snap scan_base 4 none

-- `runs[nruns - 1]`
abbrev pub last_run : Run → List Run → Run
last_run r [] = r
last_run r (x ∷ rs) = last_run x rs

-- `head`; `none` where nothing has changed.
unfoldable pub write_head : ℕ → List Run → Option ℕ
write_head size [] = none
write_head size (r ∷ rs) =
    let l = last_run r rs in
    some (if l.e == size && leb 2 (1 + length rs) && ltb r.s (scan_base + 4096) then r.e else l.e)
