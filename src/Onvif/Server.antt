-- ===== src/Onvif/Server.antt =====
-- The handlers of src/onvif/onvif.c that act on the motor, `handle_request` and the cap of the main
-- loop. What `strtof`, `sscanf` and the tests on floats make of their arguments are parameters, and
-- so are the results of the message queue, in `Queue`.
use yi_outdoor_1080p_ptz.Prelude.{
  ℕ, ◌-◌, Bool, false, not, ◌&&◌, List, [], ◌∷◌, ◌++◌, Option, none, some, ltb, leb, ◌==◌,
  if◌then◌else◌, length, take,
}
use yi_outdoor_1080p_ptz.Text.{codes, after_first, before_first, from_first, after_last, c_string}
use yi_outdoor_1080p_ptz.Onvif.Envelope.{env_message, move_payload, preset_payload}
use yi_outdoor_1080p_ptz.Onvif.Route.{
  Method, ptz_move, ptz_stop, ptz_set_preset, ptz_goto_preset, action_of, route, body_of,
}

-- `g_mq_ok`, what `mq_open` and `mq_send` answer, and the messages that the queue has taken.
pub record Queue : Type 0 where
  pub mq_ok : Bool
  pub opens : Bool
  pub sends : Bool
  pub sent : List (List ℕ)

-- A reply: that of a method, with the preset token that it carries, or a fault with its reason.
pub data Reply : Type 0 where
  answer : Method → List ℕ → Reply
  fault : List ℕ → Reply

-- The queue, `g_move_at` (0 for none) and the replies.
pub record Server : Type 0 where
  pub queue : Queue
  pub move_at : ℕ
  pub replies : List Reply

-- A queue that does not open is given up.
unfoldable pub send_env : Queue → List ℕ → ℕ → ℕ → ℕ → Queue
send_env q payload cmd cmd2 extra =
    let msg = env_message payload cmd cmd2 extra in
    if not q.mq_ok
    then q
    else if not q.opens
    then record q { mq_ok = false }
    else if not q.sends
    then q
    else record q { sent = q.sent ++ (msg ∷ []) }

unfoldable pub move_env : Queue → ℕ → Queue
move_env q dir = send_env q (move_payload dir) 0x4006 0x4006 0

unfoldable pub stop_env : Queue → Queue
stop_env q = send_env q (0 ∷ 0 ∷ 0 ∷ 0 ∷ []) 0x4007 0x0001 0

unfoldable pub preset_env : Queue → ℕ → ℕ → Queue
preset_env q cmd index = send_env q (preset_payload index) cmd 0x0001 0

-- `open` and `close` are cut at 63 characters, and the value at 255.
unfoldable pub xml_find : List ℕ → List ℕ → Option (List ℕ)
xml_find body tag = elim (after_first (take 63 (codes "<" ++ (tag ++ codes ">"))) body) [
  | none ↦ none
  | some p ↦ elim (before_first (take 63 (codes "</" ++ (tag ++ codes ">"))) p) [
    | none ↦ none
    | some value ↦ some (take 255 value)
  ]
]

unfoldable pub xml_attr : List ℕ → List ℕ → Option (List ℕ)
xml_attr body attr = elim (after_first (take 63 (attr ++ (0x3D ∷ 0x22 ∷ []))) body) [
  | none ↦ none
  | some p ↦ elim (before_first (0x22 ∷ []) p) [
    | none ↦ none
    | some value ↦ if ltb 63 (length value) then none else some value
  ]
]

module _ {F : Type 0} (zero_f : F) (is_zero positive : F → Bool) (steeper : F → F → Bool)
    (strtof : List ℕ → F) (sscanf_d : List ℕ → Option ℕ) where
  -- `x == 0 && y == 0`, `x * x > y * y` (`steeper x y`), and the signs.
  unfoldable pub move_or_stop : Queue → F → F → Queue
  move_or_stop q x y =
      if is_zero x && is_zero y
      then stop_env q
      else if steeper x y
      then move_env q (if positive x then 4 else 3)
      else move_env q (if positive y then 2 else 1)

  -- One coordinate of the velocity, 0 if the request has none.
  unfoldable pub velocity : List ℕ → List ℕ → F
  velocity body attr = elim (from_first (codes "PanTilt") body) [
    | none ↦ zero_f
    | some pt ↦ elim (xml_attr pt attr) [ none ↦ zero_f | some v ↦ strtof v ]
  ]

  unfoldable pub rsp_ptz_move : ℕ → Server → List ℕ → Server
  rsp_ptz_move now s body = record {
    queue = move_or_stop s.queue (velocity body (codes "x")) (velocity body (codes "y"));
    move_at = now;
    replies = s.replies ++ (answer ptz_move [] ∷ []);
  }

  unfoldable pub rsp_ptz_stop : Server → Server
  rsp_ptz_stop s = record {
    queue = stop_env s.queue;
    move_at = 0;
    replies = s.replies ++ (answer ptz_stop [] ∷ []);
  }

  -- 1 to 4; anything else is 1.
  unfoldable pub preset_index : List ℕ → ℕ
  preset_index token = elim (after_last 0x5F token) [
    | none ↦ 1
    | some t ↦ elim (sscanf_d t) [ none ↦ 1 | some i ↦ if leb 1 i && leb i 4 then i else 1 ]
  ]

  abbrev pub token_of : List ℕ → List ℕ
  token_of body = elim (xml_find body (codes "tt:PresetToken")) [
    | none ↦ codes "preset_1"
    | some t ↦ t
  ]

  unfoldable pub rsp_ptz_set_preset : Server → List ℕ → Server
  rsp_ptz_set_preset s body = record s {
    queue = preset_env s.queue 0x4000 0;
    replies = s.replies ++ (answer ptz_set_preset (token_of body) ∷ []);
  }

  unfoldable pub rsp_ptz_goto_preset : Server → List ℕ → Server
  rsp_ptz_goto_preset s body = record s {
    queue = preset_env s.queue 0x4002 (preset_index (token_of body));
    replies = s.replies ++ (answer ptz_goto_preset [] ∷ []);
  }

  -- The handlers that only reply leave the motor alone.
  unfoldable pub perform : ℕ → Server → List ℕ → Method → Server
  perform now s body ptz_move = rsp_ptz_move now s body
  perform now s body ptz_stop = rsp_ptz_stop s
  perform now s body ptz_set_preset = rsp_ptz_set_preset s body
  perform now s body ptz_goto_preset = rsp_ptz_goto_preset s body
  perform now s body m = record s { replies = s.replies ++ (answer m [] ∷ []) }

  -- By the body of the request and the method that it names.
  unfoldable pub dispatch : ℕ → Server → Option (List ℕ) → Option Method → Server
  dispatch now s none m = record s { replies = s.replies ++ (fault (codes "no body") ∷ []) }
  dispatch now s (some body) none = record s {
    replies = s.replies ++ (fault (codes "method not implemented") ∷ []);
  }
  dispatch now s (some body) (some m) = perform now s body m

  -- The request as it was read; an empty one is dropped.
  unfoldable pub handle_request : ℕ → Server → List ℕ → Server
  handle_request now s [] = s
  handle_request now s (c ∷ cs) =
      let req = c_string (c ∷ cs) in dispatch now s (body_of req) (route (action_of req))

-- The branch of the main loop in which no client came within a second.
unfoldable pub idle_tick : ℕ → Server → Server
idle_tick now s =
    if not (s.move_at == 0) && ltb 10 (now - s.move_at)
    then record s { queue = stop_env s.queue; move_at = 0 }
    else s
