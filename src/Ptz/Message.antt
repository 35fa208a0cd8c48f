-- ===== src/Ptz/Message.antt =====
-- `send_msg` of src/ptz/ptz.c and the commands that it sends.
use yi_outdoor_1080p_ptz.Prelude.{
  ℕ, ◌+◌, Bool, not, List, [], ◌∷◌, ◌++◌, ◌==◌, if◌then◌else◌, length,
}
use yi_outdoor_1080p_ptz.Memory.{Buf, read, write, to_le}

-- `g_type` and `dry_run`; what `mq_open` and `mq_send` answer, which is the system's; the messages
-- that the queue has taken and those that a dry run has printed.
pub record Ipc : Type 0 where
  pub kind : ℕ
  pub dry_run : Bool
  pub opens : Bool
  pub sends : Bool
  pub sent : List (List ℕ)
  pub printed : List (List ℕ)

-- `put32` and `put16`
abbrev pub put32 : Buf → ℕ → ℕ → Buf
put32 p off v = write p off (to_le 4 v)

abbrev pub put16 : Buf → ℕ → ℕ → Buf
put16 p off v = write p off (to_le 2 v)

-- `msg` behind the head, and behind the payload and the extra word; the number of bytes is `n`.
unfoldable pub head : ℕ → ℕ → ℕ → Buf
head kind cmd cmd2 = put16 (put16 (put32 (put32 (λ _. 0) 0 1) 4 kind) 8 cmd) 10 cmd2

unfoldable pub message : ℕ → List ℕ → ℕ → ℕ → ℕ → List ℕ
unfolding head
message kind payload cmd cmd2 extra =
    let m = write (head kind cmd cmd2) 12 payload in
    let n = 12 + length payload in
    if extra == 0 then read m 0 n else read (put32 m n extra) 0 (n + 4)

unfoldable pub send_msg : Ipc → List ℕ → ℕ → ℕ → ℕ → ℕ × Ipc
unfolding message
send_msg q payload cmd cmd2 extra =
    let msg = message q.kind payload cmd cmd2 extra in
    if q.dry_run
    then (0, record q { printed = q.printed ++ (msg ∷ []) })
    else if not q.opens
    then (1, q)
    else if not q.sends
    then (1, q)
    else (0, record q { sent = q.sent ++ (msg ∷ []) })

unfoldable pub cmd_move : Ipc → ℕ → ℕ × Ipc
unfolding send_msg
cmd_move q dir = send_msg q (to_le 4 24 ++ (to_le 4 dir ++ to_le 4 0)) 0x4006 0x4006 0

unfoldable pub cmd_stop : Ipc → ℕ × Ipc
unfolding send_msg
cmd_stop q = send_msg q (0 ∷ 0 ∷ 0 ∷ 0 ∷ []) 0x4007 0x0001 0

unfoldable pub cmd_light_toggle : Ipc → Bool → ℕ × Ipc
unfolding send_msg
cmd_light_toggle q on = send_msg q (0 ∷ 0 ∷ 0 ∷ 0 ∷ []) (if on then 0x0076 else 0x0077) 0x0001 0

-- `mode` and `index` come in as `unsigned`.
unfoldable pub cmd_light_mode : Ipc → ℕ → ℕ × Ipc
unfolding send_msg
cmd_light_mode q mode = send_msg q (to_le 4 4 ++ to_le 4 mode) 0x009c 0x0001 0

unfoldable pub cmd_preset : Ipc → ℕ → ℕ → ℕ × Ipc
unfolding send_msg
cmd_preset q cmd index =
    if cmd == 0x4000
    then send_msg q (0 ∷ 0 ∷ 0 ∷ 0 ∷ []) 0x4000 0x0001 0
    else send_msg q (to_le 4 4 ++ to_le 4 index) cmd 0x0001 0
