-- ===== src/Onvif/Envelope/Layout.antt =====
-- The bytes that src/onvif/onvif.c packs are those of src/ptz/ptz.c.
use yi_outdoor_1080p_ptz.Prelude.{ℕ, ◌+◌, ◌/◌, ◌%◌, ◌^◌, ◌≡◌, List, ◌++◌, arith, refl}
use yi_outdoor_1080p_ptz.Memory.{Buf, poke, read, write, to_le}
use yi_outdoor_1080p_ptz.Ptz.Message.{head, message}
use yi_outdoor_1080p_ptz.Onvif.Envelope.{
  put32, put16, msg_head, env_message, move_payload, preset_payload,
}

put16-write : (p : Buf) (off v : ℕ) → put16 p off v ≡ write p off (to_le 2 v)
unfolding put16 write
put16-write p off v = refl

put32-write : (p : Buf) (off v : ℕ) → put32 p off v ≡ write p off (to_le 4 v)
unfolding put32 write
put32-write p off v =
    let a2 : off + 2 ≡ off + 1 + 1 = omega arith in
    let a3 : off + 3 ≡ off + 1 + 1 + 1 = omega arith in
    let b2 : v / 2 ^ 16 % 256 ≡ v / 256 / 256 % 256 = omega arith in
    let b3 : v / 2 ^ 24 % 256 ≡ v / 256 / 256 / 256 % 256 = omega arith in rw (a2, a3, b2, b3) refl

msg_head-head : (cmd cmd2 : ℕ) → msg_head cmd cmd2 ≡ head 8 cmd cmd2
unfolding msg_head head
msg_head-head cmd cmd2 = rw (put32-write, put32-write, put16-write, put16-write) refl

-- The message is the one that `send_msg` makes with the type 8.
pub env_message-message :
    (payload : List ℕ) (cmd cmd2 extra : ℕ)
    → env_message payload cmd cmd2 extra ≡ message 8 payload cmd cmd2 extra
unfolding env_message message
env_message-message payload cmd cmd2 extra = rw (msg_head-head, put32-write) refl

pub move_payload_lem : (dir : ℕ) → move_payload dir ≡ to_le 4 24 ++ (to_le 4 dir ++ to_le 4 0)
unfolding move_payload read write poke
move_payload_lem dir = rw (put32-write, put32-write, put32-write) refl

pub preset_payload_lem : (index : ℕ) → preset_payload index ≡ to_le 4 4 ++ to_le 4 index
unfolding preset_payload read write poke
preset_payload_lem index = rw (put32-write, put32-write) refl
