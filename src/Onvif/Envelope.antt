-- ===== src/Onvif/Envelope.antt =====
-- How src/onvif/onvif.c packs its messages to the motor, by stores of one byte: its own `put32` and
-- `put16`, the payloads, and the part of `send_env` that fills `msg`.
pub mod Layout
use yi_outdoor_1080p_ptz.Prelude.{ℕ, ◌+◌, ◌/◌, ◌%◌, ◌^◌, List, ◌==◌, if◌then◌else◌, length}
use yi_outdoor_1080p_ptz.Memory.{Buf, poke, read, write}

unfoldable pub put32 : Buf → ℕ → ℕ → Buf
put32 p off v =
    let p1 = poke (poke p off (v % 256)) (off + 1) (v / 2 ^ 8 % 256) in
    poke (poke p1 (off + 2) (v / 2 ^ 16 % 256)) (off + 3) (v / 2 ^ 24 % 256)

unfoldable pub put16 : Buf → ℕ → ℕ → Buf
put16 p off v = poke (poke p off (v % 256)) (off + 1) (v / 2 ^ 8 % 256)

-- `memset` and the four fields of the head
unfoldable pub msg_head : ℕ → ℕ → Buf
msg_head cmd cmd2 = put16 (put16 (put32 (put32 (λ _. 0) 0 1) 4 8) 8 cmd) 10 cmd2

-- The `n` bytes of `msg` that are sent.
unfoldable pub env_message : List ℕ → ℕ → ℕ → ℕ → List ℕ
env_message payload cmd cmd2 extra =
    let m = write (msg_head cmd cmd2) 12 payload in
    let n = 12 + length payload in
    if extra == 0 then read m 0 n else read (put32 m n extra) 0 (n + 4)

-- `p` of a move and of a preset, all of whose bytes are stored
unfoldable pub move_payload : ℕ → List ℕ
move_payload dir = read (put32 (put32 (put32 (λ _. 0) 0 24) 4 dir) 8 0) 0 12

unfoldable pub preset_payload : ℕ → List ℕ
preset_payload index = read (put32 (put32 (λ _. 0) 0 4) 4 index) 0 8
