-- ===== src/Ptz/Command.antt =====
-- The command line of src/ptz/ptz.c: `dir_value` and `main`. What `strtoul` and `atoi` make of a text
-- are parameters.
use yi_outdoor_1080p_ptz.Prelude.{ℕ, true, false, not, List, [], ◌∷◌, ◌==◌, if◌then◌else◌}
use yi_outdoor_1080p_ptz.Text.{codes, same}
use yi_outdoor_1080p_ptz.Ptz.Message.{
  Ipc, cmd_move, cmd_stop, cmd_light_toggle, cmd_light_mode, cmd_preset,
}

unfoldable pub dir_value : List ℕ → ℕ
dir_value cmd =
    if same cmd (codes "up")
    then 2
    else if same cmd (codes "down")
    then 1
    else if same cmd (codes "left")
    then 3
    else if same cmd (codes "right")
    then 4
    else 0

-- `light on|off|auto`
unfoldable pub light_command : Ipc → List ℕ → ℕ × Ipc
light_command q m =
    if same m (codes "on")
    then cmd_light_mode q 1
    else if same m (codes "off")
    then cmd_light_mode q 0
    else if same m (codes "auto")
    then cmd_light_mode q 2
    else (2, q)

-- The command word, with the number of the argument behind it.
unfoldable pub simple_command : Ipc → List ℕ → ℕ → ℕ × Ipc
simple_command q cmd arg =
    if not (dir_value cmd == 0)
    then cmd_move q (dir_value cmd)
    else if same cmd (codes "stop")
    then cmd_stop q
    else if same cmd (codes "lighton")
    then cmd_light_toggle q true
    else if same cmd (codes "lightoff")
    then cmd_light_toggle q false
    else if same cmd (codes "lightmode")
    then cmd_light_mode q arg
    else if same cmd (codes "add")
    then cmd_preset q 0x4000 0
    else if same cmd (codes "del")
    then cmd_preset q 0x4001 arg
    else if same cmd (codes "goto")
    then cmd_preset q 0x4002 arg
    else (2, q)

module _ (strtoul atoi : List ℕ → ℕ) where
  -- The command and what stands behind it; none at all is a usage error.
  unfoldable pub command : Ipc → List (List ℕ) → ℕ × Ipc
  unfolding light_command simple_command
  command q [] = (2, q)
  command q (cmd ∷ []) = simple_command q cmd 0
  command q (cmd ∷ m ∷ rest) =
      if same cmd (codes "light") then light_command q m else simple_command q cmd (atoi m)

  -- The options in front of the command: `-q` names another queue, whose answers `opens` and `sends`
  -- already stand for.
  unfoldable pub run : Ipc → List (List ℕ) → ℕ × Ipc
  unfolding command
  run q [] = command q []
  run q (a ∷ []) =
      if same a (codes "-x") then command (record q { dry_run = true }) [] else command q (a ∷ [])
  run q (a ∷ b ∷ rest) =
      let queue = run q rest in
      let kind = run (record q { kind = strtoul b }) rest in
      let dry = run (record q { dry_run = true }) (b ∷ rest) in
      if same a (codes "-q")
      then queue
      else if same a (codes "-t")
      then kind
      else if same a (codes "-x")
      then dry
      else command q (a ∷ b ∷ rest)
