-- ===== src/Fshare/Stall.antt =====
-- The stall watchdog of `reader_loop` in src/fshare2fifo/fshare2fifo.c.
pub mod Patience
use yi_outdoor_1080p_ptz.Prelude.{
  ℕ, ◌+◌, ◌-◌, Bool, true, false, List, [], ◌∷◌, Option, none, some, leb, ◌==◌, if◌then◌else◌,
}
use yi_outdoor_1080p_ptz.Memory.{Buf}
use yi_outdoor_1080p_ptz.Fshare.Layout.{slot_off, hdr_valid, hdr_seq, hdr_u32, hdr_wr_u32}
use yi_outdoor_1080p_ptz.Fshare.Claim.{Released, release_slot}

abbrev pub stall_secs : ℕ
stall_secs = 15

abbrev pub max_stall_reanchor : ℕ
max_stall_reanchor = 4

-- `last_emit` (0 for none), `last_valid`, `stall_anchors` and `slot_cursor`.
pub record Watch : Type 0 where
  pub last_emit : ℕ
  pub last_valid : ℕ
  pub anchors : ℕ
  pub cursor : ℕ

-- What a look leaves: the memory, the state, and whether the reader gives up.
pub record Watched : Type 0 where
  pub mem : Buf
  pub watch : Watch
  pub exits : Bool

-- The cursor goes to the newest number; the fourth time in a row the slot is released.
unfoldable pub reanchor : ℕ → ℕ → Buf → Watch → Watched
reanchor now k m w =
    let newest = hdr_u32 m hdr_seq in
    let m' = hdr_wr_u32 m (slot_off k + 8) newest in
    if leb max_stall_reanchor (w.anchors + 1)
    then record {
      mem = (release_slot m' (some k)).mem;
      watch = record w { last_emit = now; anchors = w.anchors + 1; cursor = newest };
      exits = true;
    }
    else record {
      mem = m';
      watch = record {
        last_emit = now;
        last_valid = hdr_u32 m hdr_valid;
        anchors = w.anchors + 1;
        cursor = newest;
      };
      exits = false;
    }

-- `if (last_emit)`: the ring flows if the number of valid bytes has changed.
unfoldable pub stall_watch : ℕ → ℕ → Buf → Watch → Watched
stall_watch now k m w =
    if w.last_emit == 0
    then record { mem = m; watch = w; exits = false }
    else if hdr_u32 m hdr_valid == w.last_valid
    then record { mem = m; watch = w; exits = false }
    else if leb stall_secs (now - w.last_emit)
    then reanchor now k m w
    else record { mem = m; watch = record w { last_valid = hdr_u32 m hdr_valid }; exits = false }

-- `if (got)`
unfoldable pub note_got : ℕ → Watch → Watch
note_got now w = record w { last_emit = now; anchors = 0 }

-- Rounds in which nothing was consumed, each with its time and the memory that it finds, up to the
-- one in which the reader gives up: its time.
unfoldable pub idle_rounds : ℕ → List (ℕ × Buf) → Watch → Option ℕ
idle_rounds k [] w = none
idle_rounds k ((now, m) ∷ rest) w =
    let r = stall_watch now k m w in
    let later = idle_rounds k rest r.watch in if r.exits then some now else later
