-- ===== src/Purge.antt =====
-- `fifo_purger_thread` of src/fshare2fifo/fshare2fifo.c: what a pass of the purger leaves of the
-- fifo.
pub mod Tail
use yi_outdoor_1080p_ptz.Prelude.{
  ℕ, ◌-◌, ◌*◌, Bool, true, false, not, List, [], ◌∷◌, ◌++◌, ltb, ◌==◌, if◌then◌else◌, min, length,
  drop,
}

abbrev pub purge_trim_video : ℕ
purge_trim_video = 224 * 1024

abbrev pub purge_trim_audio : ℕ
purge_trim_audio = 16 * 1024

-- `g_purge_trim`, as `main` sets it from `audio_mode`.
abbrev pub trim_of : Bool → ℕ
trim_of audio = if audio then purge_trim_audio else purge_trim_video

-- What happens before a read of the purger: another reader takes bytes, the writer adds some; and
-- whether the read fails.
pub record Turn : Type 0 where
  pub elsewhere : ℕ
  pub written : List ℕ
  pub fails : Bool

-- The bytes in the fifo, and whether the loop has ended.
pub record Trimmed : Type 0 where
  pub pipe : List ℕ
  pub finished : Bool

-- The read asks for at most `sizeof(drain)` bytes and takes what there is.
unfoldable pub taken : ℕ → ℕ → Bool → List ℕ → ℕ
taken trim n fails pipe = if fails then 0 else min (min (n - trim) 65536) (length pipe)

-- `while (n > (int)g_purge_trim)`
unfoldable pub trim_loop : ℕ → List Turn → ℕ → List ℕ → Trimmed
trim_loop trim [] n pipe = record { pipe = pipe; finished = not (ltb trim n) }
trim_loop trim (t ∷ ts) n pipe =
    let now = drop t.elsewhere pipe ++ t.written in
    let r = taken trim n t.fails now in
    let rest = trim_loop trim ts (n - r) (drop r now) in
    if not (ltb trim n)
    then record { pipe = pipe; finished = true }
    else if r == 0
    then record { pipe = now; finished = true }
    else rest

-- A pass, from the number of bytes that FIONREAD gives, or none if it fails.
unfoldable pub purge_pass : ℕ → Bool → List Turn → List ℕ → Trimmed
purge_pass trim counted turns pipe =
    if not counted
    then record { pipe = pipe; finished = true }
    else trim_loop trim turns (length pipe) pipe
