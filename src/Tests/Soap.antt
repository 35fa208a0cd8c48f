-- ===== src/Tests/Soap.antt =====
-- Runs of the SOAP server, with whole numbers for the floats.
use yi_outdoor_1080p_ptz.Prelude.{
  ℕ, ◌+◌, ◌-◌, ◌*◌, ◌<◌, ◌≡◌, refl, true, ◌&&◌, List, [], ◌∷◌, ◌++◌, some, leb, if◌then◌else◌,
  length,
}
use yi_outdoor_1080p_ptz.Text.{codes, after_first, c_string}
use yi_outdoor_1080p_ptz.Ptz.Message.{cmd_move, cmd_stop, cmd_preset}
use yi_outdoor_1080p_ptz.Onvif.Request.{Read, chunk, interrupted, ended, read_request, cap}
use yi_outdoor_1080p_ptz.Onvif.Bounds.{read_request_fits}
use yi_outdoor_1080p_ptz.Onvif.Route.{
  ptz_nodes, ptz_move, skip_quotes, take_action, first_method, route, action_of,
}
use yi_outdoor_1080p_ptz.Text.{contains}
use yi_outdoor_1080p_ptz.Onvif.Server.{Server, stop_env, move_env, preset_env}
use yi_outdoor_1080p_ptz.Onvif.Replies.{here, there, envelopes_match}

-- The digits at the head of a text.
abbrev digits_from : ℕ → List ℕ → ℕ
digits_from v [] = v
digits_from v (c ∷ cs) =
    let more = digits_from (v * 10 + (c - 0x30)) cs in if leb 0x30 c && leb c 0x39 then more else v

abbrev pub number : List ℕ → ℕ
number = digits_from 0

abbrev pub idle_server : Server
idle_server = record { queue = here true true []; move_at = 100; replies = [] }

abbrev split_request : List Read
split_request =
    chunk (codes "POST / HTTP/1.1")
    ∷ interrupted
    ∷ chunk (13 ∷ 10 ∷ codes "Content-Length:2" ++ (13 ∷ 10 ∷ 13 ∷ 10 ∷ codes "ab"))
    ∷ ended
    ∷ []

read_request_fits_example : length (read_request number split_request).req < cap
read_request_fits_example = read_request_fits number split_request

-- The longer name is tested first.
nodes_routed : route (some (codes "http://www.onvif.org/ver20/ptz/wsdl/GetNodes")) ≡ some ptz_nodes
unfolding route first_method contains after_first
nodes_routed = refl

abbrev pub move_request : List ℕ
move_request =
    codes "SOAPAction: http://www.onvif.org/ver20/ptz/wsdl/ContinuousMove"
    ++ (13 ∷ 10 ∷ 13 ∷ 10 ∷ codes "<tt:PanTilt x='1'/>")

-- The request has a body and names a method that is known, so that its reply is no fault.
move_routed : route (action_of (c_string (0x58 ∷ 0x2D ∷ move_request))) ≡ some ptz_move
unfolding route action_of first_method contains after_first c_string skip_quotes take_action
move_routed = refl

envelopes_match_example :
    ((dir : ℕ)
      → (move_env (here true true []) dir).sent ≡ (cmd_move (there true true []) dir).1.sent)
    × ((stop_env (here true true [])).sent ≡ (cmd_stop (there true true [])).1.sent)
    × ((index : ℕ)
        → (preset_env (here true true []) 0x4002 index).sent
          ≡ (cmd_preset (there true true []) 0x4002 index).1.sent)
envelopes_match_example = envelopes_match true true []
