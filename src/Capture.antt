-- ===== src/Capture.antt =====
-- `diff_thread` of src/ring-capture/ring-capture.c: every 250 ms the ring is compared with a shadow
-- copy of a window, and what lies behind the old head, up to the last change, goes to the file.
pub mod Tick
pub mod Overrun
use yi_outdoor_1080p_ptz.Prelude.{
  ℕ, zero, suc, ◌+◌, ◌-◌, ◌*◌, Bool, true, false, List, [], ◌∷◌, ◌++◌, Option, none, some, ltb, leb,
  ◌==◌, ◌&&◌, if◌then◌else◌, min,
}
use yi_outdoor_1080p_ptz.Memory.{Buf, read, u32, sub32}

-- `DATA_BASE` and `DIFF_WIN`
abbrev pub data_base : ℕ
data_base = 0x100

abbrev pub diff_win : ℕ
diff_win = 256 * 1024

-- `run` with `run1`: the last of `n` bytes from `q` on that differ from the shadow's at `sdx`.
unfoldable pub last_change : Buf → Buf → ℕ → ℕ → ℕ → Option ℕ → Option ℕ
last_change m shadow q sdx zero run = run
last_change m shadow q sdx (suc n) run =
    let before = last_change m shadow q sdx n run in
    if m (q + n) == shadow (sdx + n) then before else some (q + n)

-- `memcpy(shadow + sdx, buf + q, n)`
unfoldable pub copy_in : Buf → ℕ → Buf → ℕ → ℕ → Buf
copy_in shadow sdx m q n a = if leb sdx a && ltb a (sdx + n) then m (q + (a - sdx)) else shadow a

-- What a comparison leaves: the last change, the shadow, and what was left of the window.
pub record Scanned : Type 0 where
  pub run : Option ℕ
  pub shadow : Buf
  pub left : ℕ

-- `while (left > 0)`: the window goes on at the start of the data behind the end of the buffer.
unfoldable pub diff_scan : ℕ → ℕ → Buf → Buf → ℕ → ℕ → ℕ → Option ℕ → Scanned
diff_scan zero size m shadow q left sdx run = record { run = run; shadow = shadow; left = left }
diff_scan (suc fuel) size m shadow q left sdx run =
    let p = if leb size q then 0 else q in
    let n = min (size - p) left in
    let skip = min (data_base - p) n in
    let run' = last_change m shadow p sdx n run in
    let shadow' = copy_in shadow sdx m p n in
    let skipped = diff_scan fuel size m shadow (p + skip) (left - skip) (sdx + skip) run in
    let compared = diff_scan fuel size m shadow' (p + n) (left - n) (sdx + n) run' in
    if left == 0
    then record { run = run; shadow = shadow; left = 0 }
    else if ltb p data_base
    then skipped
    else compared

-- `while (p != end)`: where each `fwrite` starts and how many bytes it takes, and where the loop
-- stands then. Both offsets are `uint32_t`.
unfoldable pub append_loop : ℕ → ℕ → ℕ → List (ℕ × ℕ) × ℕ
append_loop zero p end = ([], p)
append_loop (suc fuel) p end =
    let chunk = min (sub32 end p) 65536 in
    let (rest, q) = append_loop fuel (u32 (p + chunk)) end in
    if p == end then ([], p) else ((p, chunk) ∷ rest, q)

-- The bytes that the writes take out of the buffer.
unfoldable pub bytes_of : Buf → List (ℕ × ℕ) → List ℕ
bytes_of m [] = []
bytes_of m ((p, n) ∷ rest) = read m p n ++ bytes_of m rest

-- `base`, `shadow` and the writes to the file.
pub record Sampler : Type 0 where
  pub base : ℕ
  pub shadow : Buf
  pub writes : List (ℕ × ℕ)

-- Two offsets of 32 bits are no more than 65536 writes apart.
abbrev pub append_fuel : ℕ
append_fuel = 65537

unfoldable pub conclude_tick : ℕ → Buf → ℕ → Option ℕ → Sampler
conclude_tick size shadow base none = record { base = base; shadow = shadow; writes = [] }
conclude_tick size shadow base (some last) =
    let at_end = leb size (last + 1) in
    record {
      base = if at_end then data_base else last + 1;
      shadow = shadow;
      writes = (append_loop append_fuel base (if at_end then size else last + 1)).0;
    }

-- One turn of `while (1)`, with the memory as it finds it. The window has `win` bytes, which is
-- `diff_win` in the program.
unfoldable pub tick : ℕ → ℕ → Buf → ℕ → Buf → Sampler
tick win size m base shadow =
    let s = diff_scan win size m shadow base win 0 none in conclude_tick size s.shadow base s.run
