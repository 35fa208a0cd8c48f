-- ===== src/Ptz/Cgi.antt =====
-- `cgi_mode` of src/ptz/ptz.c, and the sleeper that it leaves behind, which stops a move that is not
-- stopped within ten seconds.
use yi_outdoor_1080p_ptz.Prelude.{
  ℕ, Bool, false, ◌||◌, List, [], ◌∷◌, Option, none, some, ◌==◌, if◌then◌else◌,
}
use yi_outdoor_1080p_ptz.Text.{codes, same, after_first, take_until}
use yi_outdoor_1080p_ptz.Ptz.Message.{Ipc, cmd_move, cmd_stop, cmd_light_mode}
use yi_outdoor_1080p_ptz.Ptz.Command.{dir_value}

-- The queue, the process number in /tmp/ptz_active, whether that file can be written, and the
-- sleepers that have not woken up, by the number of the process that left each.
pub record Cgi : Type 0 where
  pub ipc : Ipc
  pub active : Option ℕ
  pub writable : Bool
  pub sleepers : List ℕ

-- The value of `dir=`, `stop` if there is none, and nothing if it is not a direction.
unfoldable pub direction : Option (List ℕ) → List ℕ
direction none = []
direction (some query) =
    let value : List ℕ = elim (after_first (codes "dir=") query) [
      | none ↦ codes "stop"
      | some p ↦ take_until 31 0x26 p
    ] in
    if same value (codes "up")
      || same value (codes "down")
      || same value (codes "left")
      || same value (codes "right")
    then value
    else []

-- The value of `light=`, if the query has one.
unfoldable pub light : Option (List ℕ) → Option (List ℕ)
light none = none
light (some query) = elim (after_first (codes "light=") query) [
  | none ↦ none
  | some p ↦ some (take_until 7 0x26 p)
]

unfoldable pub set_light : Ipc → List ℕ → Ipc
set_light q value =
    if same value (codes "on")
    then (cmd_light_mode q 1).1
    else if same value (codes "off")
    then (cmd_light_mode q 0).1
    else (cmd_light_mode q 2).1

-- A stop, and a move with its sleeper.
unfoldable pub stop_now : Cgi → Cgi
stop_now c = record c { ipc = (cmd_stop c.ipc).1; active = none }

unfoldable pub move_now : ℕ → Cgi → List ℕ → Cgi
move_now pid c dir = record c {
  ipc = (cmd_move c.ipc (dir_value dir)).1;
  active = if c.writable then some pid else c.active;
  sleepers = pid ∷ c.sleepers;
}

-- The light goes first; without it, no direction is a stop.
unfoldable pub act : ℕ → Cgi → Option (List ℕ) → List ℕ → Cgi
act pid c (some value) dir = record c { ipc = set_light c.ipc value }
act pid c none [] = stop_now c
act pid c none (d ∷ ds) = move_now pid c (d ∷ ds)

-- The request of the process `pid`.
unfoldable pub cgi_mode : ℕ → Option (List ℕ) → Cgi → Cgi
cgi_mode pid query c = act pid c (light query) (direction query)

abbrev pub without : ℕ → List ℕ → List ℕ
without pid [] = []
without pid (p ∷ ps) = if p == pid then ps else p ∷ without pid ps

abbrev pub is_active : ℕ → Option ℕ → Bool
is_active pid none = false
is_active pid (some p) = p == pid

-- The sleeper of `pid` wakes up.
unfoldable pub wake : ℕ → Cgi → Cgi
wake pid c = record c {
  ipc = if is_active pid c.active then (cmd_stop c.ipc).1 else c.ipc;
  sleepers = without pid c.sleepers;
}
