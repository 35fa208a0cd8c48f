-- ===== src/Tests/Motor.antt =====
-- Runs of the motor program.
use yi_outdoor_1080p_ptz.Prelude.{
  ◌≤◌, ◌≡◌, refl, true, false, [], ◌∷◌, ◌++◌, none, some, arith, length,
}
use yi_outdoor_1080p_ptz.Memory.{to_le}
use yi_outdoor_1080p_ptz.Text.{codes, after_first, take_until}
use yi_outdoor_1080p_ptz.Ptz.Message.{Ipc, message}
use yi_outdoor_1080p_ptz.Ptz.Envelope.{head_bytes, message_envelope}
use yi_outdoor_1080p_ptz.Ptz.Cgi.{Cgi, light, direction, cgi_mode, wake}
use yi_outdoor_1080p_ptz.Ptz.Cap.{wake_stale}

abbrev queue : Ipc
queue = record { kind = 8; dry_run = false; opens = true; sends = true; sent = []; printed = [] }

abbrev idle : Cgi
idle = record { ipc = queue; active = some 40; writable = true; sleepers = 40 ∷ [] }

left_is_light : light (some (codes "dir=left")) ≡ none
unfolding light after_first
left_is_light = refl

left_is_left : direction (some (codes "dir=left")) ≡ codes "left"
unfolding direction after_first take_until
left_is_left = refl

message_envelope_example :
    (message 8 (to_le 4 4 ++ to_le 4 3) 0x4002 1 0
      ≡ head_bytes 8 0x4002 1 ++ (to_le 4 4 ++ to_le 4 3))
    × (length (message 8 (to_le 4 4 ++ to_le 4 3) 0x4002 1 0) ≤ 64)
message_envelope_example = message_envelope 8 (to_le 4 4 ++ to_le 4 3) 0x4002 1 0 (omega arith)

wake_stale_example :
    (wake 40 (cgi_mode 41 (some (codes "dir=left")) idle)).ipc
    ≡ (cgi_mode 41 (some (codes "dir=left")) idle).ipc
wake_stale_example =
    wake_stale 40 41 (some (codes "dir=left")) idle refl left_is_light (λ e. absurd (omega arith))
