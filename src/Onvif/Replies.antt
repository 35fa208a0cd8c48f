-- ===== src/Onvif/Replies.antt =====
-- The replies, the messages to the motor and the cap of src/onvif/onvif.c.
use yi_outdoor_1080p_ptz.Prelude.{
  ℕ, ◌+◌, ◌-◌, ◌<◌, ◌≡◌, ◌≢◌, refl, ap, Bool, true, false, not, ◌&&◌, List, [], ◌∷◌, ◌++◌, Option,
  none, some, arith, ltb, ◌==◌,
}
use yi_outdoor_1080p_ptz.Text.{codes}
use yi_outdoor_1080p_ptz.Ptz.Message.{Ipc, send_msg, cmd_move, cmd_stop, cmd_preset}
use yi_outdoor_1080p_ptz.Onvif.Route.{Method, ptz_move, ptz_stop, ptz_set_preset, ptz_goto_preset}
use yi_outdoor_1080p_ptz.Onvif.Envelope.Layout.{
  env_message-message, move_payload_lem, preset_payload_lem,
}
use yi_outdoor_1080p_ptz.Onvif.Server.{
  Queue, Reply, answer, fault, xml_find, Server, send_env, move_env, stop_env, preset_env, perform,
  handle_request, idle_tick,
}

-- The motor is left alone.
abbrev pub Idles : Server → Server → Type 0
Idles s s' = (s'.queue ≡ s.queue) × (s'.move_at ≡ s.move_at)

-- What a request does to the motor at the time `now`, by its body and the method that it names.
abbrev pub Drives : ℕ → Server → Option (List ℕ) → Option Method → Server → Type 0
Drives now s none m s' = Idles s s'
Drives now s (some body) none s' = Idles s s'
Drives now s (some body) (some ptz_move) s' = s'.move_at ≡ now
Drives now s (some body) (some ptz_stop) s' = (s'.queue ≡ stop_env s.queue) × (s'.move_at ≡ 0)
Drives now s (some body) (some ptz_set_preset) s' =
    (s'.queue ≡ preset_env s.queue 0x4000 0) × (s'.move_at ≡ s.move_at)
Drives now s (some body) (some ptz_goto_preset) s' = s'.move_at ≡ s.move_at
Drives now s (some body) (some m) s' = Idles s s'

-- The preset token of a body, "preset_1" if it has none.
abbrev pub token_in : List ℕ → List ℕ
token_in body = elim (xml_find body (codes "tt:PresetToken")) [
  | none ↦ codes "preset_1"
  | some t ↦ t
]

-- The reply that is due: a fault where there is no body or no method that is known.
abbrev pub reply_due : Option (List ℕ) → Option Method → Reply
reply_due none m = fault (codes "no body")
reply_due (some body) none = fault (codes "method not implemented")
reply_due (some body) (some ptz_set_preset) = answer ptz_set_preset (token_in body)
reply_due (some body) (some m) = answer m []

-- One reply more than before, the one that is due, and what it does to the motor.
abbrev pub AnsweredOnce : ℕ → Server → Option (List ℕ) → Option Method → Server → Type 0
AnsweredOnce now s b m s' = (s'.replies ≡ s.replies ++ (reply_due b m ∷ [])) × Drives now s b m s'

module _ {F : Type 0} (zero_f : F) (is_zero positive : F → Bool) (steeper : F → F → Bool)
    (strtof : List ℕ → F) (sscanf_d : List ℕ → Option ℕ) where
  abbrev handle : ℕ → Server → List ℕ → Server
  handle = handle_request zero_f is_zero positive steeper strtof sscanf_d

  abbrev do_method : ℕ → Server → List ℕ → Method → Server
  do_method = perform zero_f is_zero positive steeper strtof sscanf_d

-- The queue as this server sees it and as the other program does, with its default message type.
abbrev pub here : Bool → Bool → List (List ℕ) → Queue
here opens sends sent = record { mq_ok = true; opens = opens; sends = sends; sent = sent }

abbrev pub there : Bool → Bool → List (List ℕ) → Ipc
there opens sends sent = record {
  kind = 8;
  dry_run = false;
  opens = opens;
  sends = sends;
  sent = sent;
  printed = [];
}

send_alike :
    (opens sends : Bool) (sent : List (List ℕ)) (payload : List ℕ) (cmd cmd2 : ℕ)
    → (send_env (here opens sends sent) payload cmd cmd2 0).sent
      ≡ (send_msg (there opens sends sent) payload cmd cmd2 0).1.sent
unfolding send_env send_msg
send_alike true true sent payload cmd cmd2 =
    ap (λ m. sent ++ (m ∷ [])) (env_message-message payload cmd cmd2 0)
send_alike true false sent payload cmd cmd2 = refl
send_alike false sends sent payload cmd cmd2 = refl

-- From the same state of the queue, a move, a stop and a call of a preset leave the same messages
-- in it as in src/ptz/ptz.c with its default message type, also where the queue fails.
pub envelopes_match :
    (opens sends : Bool) (sent : List (List ℕ))
    → ((dir : ℕ)
        → (move_env (here opens sends sent) dir).sent
          ≡ (cmd_move (there opens sends sent) dir).1.sent)
      × ((stop_env (here opens sends sent)).sent ≡ (cmd_stop (there opens sends sent)).1.sent)
      × ((index : ℕ)
          → (preset_env (here opens sends sent) 0x4002 index).sent
            ≡ (cmd_preset (there opens sends sent) 0x4002 index).1.sent)
unfolding move_env stop_env preset_env cmd_preset cmd_move cmd_stop
envelopes_match opens sends sent = (
  λ dir. rw (move_payload_lem dir) (send_alike opens sends sent _ 0x4006 0x4006),
  send_alike opens sends sent _ 0x4007 1,
  λ index. rw (preset_payload_lem index) (send_alike opens sends sent _ 0x4002 1),
)

-- The cap: a move that began more than ten seconds ago is stopped in the first idle second, and
-- only once. The clock does not stand at 0 when the move begins.
pub idle_tick_stops :
    (now later : ℕ) (s : Server)
    → s.move_at ≢ 0
    → s.move_at + 10 < now
    → ((idle_tick now s).queue ≡ stop_env s.queue)
      × (idle_tick later (idle_tick now s) ≡ idle_tick now s)
unfolding idle_tick
idle_tick_stops now later s set long = rw fires (refl, refl)
  where
    fires : (not (s.move_at == 0) && ltb 10 (now - s.move_at)) ≡ true
    fires = ground arith
