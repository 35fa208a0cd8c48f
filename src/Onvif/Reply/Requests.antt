-- ===== src/Onvif/Reply/Requests.antt =====
-- What the requests to src/onvif/onvif.c put into the replies: a token is cut by `xml_find`.
use yi_outdoor_1080p_ptz.Prelude.{
  ℕ, ◌≤◌, ◌≡◌, arith, Bool, List, [], ◌∷◌, ◌++◌, Option, none, some, length, take,
}
use yi_outdoor_1080p_ptz.Text.{codes, after_first, before_first, c_string}
use yi_outdoor_1080p_ptz.Onvif.Bounds.{length-take}
use yi_outdoor_1080p_ptz.Onvif.Route.{Method, ptz_move, ptz_set_preset, route, action_of, body_of}
use yi_outdoor_1080p_ptz.Onvif.Server.{
  Reply, Server, xml_find, rsp_ptz_move, rsp_ptz_stop, rsp_ptz_set_preset, rsp_ptz_goto_preset,
  token_of, perform, dispatch, handle_request,
}
use yi_outdoor_1080p_ptz.Onvif.Reply.{reply_text, reply_size}
use yi_outdoor_1080p_ptz.Onvif.Reply.Pieces.{snprintf, print}
use yi_outdoor_1080p_ptz.Onvif.Reply.Device.{Site, Clock}
use yi_outdoor_1080p_ptz.Onvif.Reply.Lengths.{FitsSite, FitsReply, reply_uncut}

-- Each reply goes out whole.
abbrev pub AllUncut : Site → Clock → List Reply → Type 0
AllUncut s t [] = Unit
AllUncut s t (r ∷ rs) =
    (snprintf (reply_size r) (reply_text s t r) ≡ print (reply_text s t r)) × AllUncut s t rs

AllUncut-append :
    (s : Site) (t : Clock) (rs qs : List Reply)
    → AllUncut s t rs
    → AllUncut s t qs
    → AllUncut s t (rs ++ qs)
AllUncut-append s t [] qs u v = v
AllUncut-append s t (r ∷ rs) qs (w, u) v = (w, AllUncut-append s t rs qs u v)

abbrev IsShort : Option (List ℕ) → Type 0
IsShort none = Unit
IsShort (some v) = length v ≤ 255

cut_value :
    (o : Option (List ℕ)) → IsShort (elim o [ none ↦ none | some value ↦ some (take 255 value) ])
cut_value none = tt
cut_value (some value) = length-take 255 value

xml_find-IsShort : (body tag : List ℕ) → IsShort (xml_find body tag)
unfolding xml_find
xml_find-IsShort body tag =
    elim (after_first (take 63 (codes "<" ++ (tag ++ codes ">"))) body)
      as (λ o. IsShort (elim o [
        | none ↦ none
        | some p ↦ elim (before_first (take 63 (codes "</" ++ (tag ++ codes ">"))) p) [
          | none ↦ none
          | some value ↦ some (take 255 value)
        ]
      ])) [
        | none ↦ tt
        | some p ↦ cut_value (before_first (take 63 (codes "</" ++ (tag ++ codes ">"))) p)
      ]

length-token :
    (o : Option (List ℕ))
    → IsShort o
    → length (elim o [ none ↦ codes "preset_1" | some t ↦ t ]) ≤ 255
length-token none h = omega arith
length-token (some v) h = h

module _ {F : Type 0} (zero_f : F) (is_zero positive : F → Bool) (steeper : F → F → Bool)
    (strtof : List ℕ → F) (sscanf_d : List ℕ → Option ℕ) (s : Site) (t : Clock)
    (w : FitsSite s) where
  length-token_of :
      (body : List ℕ) → length (token_of zero_f is_zero positive steeper strtof sscanf_d body) ≤ 255
  length-token_of body = length-token _ (xml_find-IsShort body (codes "tt:PresetToken"))

  added :
      (rs : List Reply) (r : Reply) → AllUncut s t rs → FitsReply r → AllUncut s t (rs ++ (r ∷ []))
  added rs r u f = AllUncut-append s t rs (r ∷ []) u (reply_uncut s t r w f, tt)

  perform_uncut :
      (now : ℕ) (v : Server) (body : List ℕ) (m : Method)
      → AllUncut s t v.replies
      → AllUncut s t (perform zero_f is_zero positive steeper strtof sscanf_d now v body m).replies
  unfolding perform rsp_ptz_move rsp_ptz_stop rsp_ptz_set_preset rsp_ptz_goto_preset
  perform_uncut now v body m u =
      elim m
        as (λ k.
          AllUncut s t
            (perform zero_f is_zero positive steeper strtof sscanf_d now v body k).replies) [
              | ptz_set_preset ↦ added v.replies _ u (length-token_of body)
              | ptz_move ↦ added v.replies _ u (omega arith)
              | _ ↦ added v.replies _ u (omega arith)
            ]

  dispatch_uncut :
      (now : ℕ) (v : Server) (b : Option (List ℕ)) (m : Option Method)
      → AllUncut s t v.replies
      → AllUncut s t (dispatch zero_f is_zero positive steeper strtof sscanf_d now v b m).replies
  unfolding dispatch
  dispatch_uncut now v none m u = added v.replies _ u (omega arith)
  dispatch_uncut now v (some body) none u = added v.replies _ u (omega arith)
  dispatch_uncut now v (some body) (some m) u = perform_uncut now v body m u

  -- Whatever a request holds, the reply to it goes out whole, if those before it did: also the token
  -- of a preset that the request names. The addresses fit their buffers.
  pub handle_request_uncut :
      (now : ℕ) (v : Server) (req : List ℕ)
      → AllUncut s t v.replies
      → AllUncut s t
          (handle_request zero_f is_zero positive steeper strtof sscanf_d now v req).replies
  unfolding handle_request
  handle_request_uncut now v [] u = u
  handle_request_uncut now v (c ∷ cs) u =
      dispatch_uncut now v (body_of (c_string (c ∷ cs))) (route (action_of (c_string (c ∷ cs)))) u
