-- ===== src/Onvif/Reply/Lengths.antt =====
-- The buffers of the replies in src/onvif/onvif.c are large enough.
use yi_outdoor_1080p_ptz.Prelude.{
  ℕ, ◌+◌, ◌-◌, ◌≤◌, ◌<◌, ◌≡◌, refl, arith, List, [], ◌∷◌, length, length-append, take_all,
}
use yi_outdoor_1080p_ptz.Text.{codes}
use yi_outdoor_1080p_ptz.Onvif.Route.{
  Method, device_information, capabilities, scopes, datetime, profiles, stream_uri, ptz_move,
  ptz_stop, ptz_set_preset, ptz_goto_preset, ptz_get_presets, ptz_status, ptz_nodes, ptz_node,
  ptz_configurations, ptz_svc_caps, media_svc_caps, device_svc_caps, services, network_interfaces,
}
use yi_outdoor_1080p_ptz.Onvif.Server.{Reply, answer, fault}
use yi_outdoor_1080p_ptz.Onvif.Reply.{method_text, fault_text, reply_text, reply_size}
use yi_outdoor_1080p_ptz.Onvif.Reply.Digits.{length-decimal}
use yi_outdoor_1080p_ptz.Onvif.Reply.Pieces.{Piece, lit, sub, snprintf, print, envelope}
use yi_outdoor_1080p_ptz.Onvif.Reply.Device.{Site, Clock}
use yi_outdoor_1080p_ptz.Onvif.Reply.Ptz.{ptz_node_xml}
use yi_outdoor_1080p_ptz.Onvif.Bounds.{length-take}

-- The literals of a format, and what is put in.
abbrev pub literals : List Piece → ℕ
literals [] = 0
literals (lit s ∷ ps) = length (codes s) + literals ps
literals (sub t ∷ ps) = literals ps

abbrev pub put_in : List Piece → ℕ
put_in [] = 0
put_in (lit s ∷ ps) = put_in ps
put_in (sub t ∷ ps) = length t + put_in ps

pub length-print : (ps : List Piece) → length (print ps) ≡ literals ps + put_in ps
unfolding print
length-print [] = refl
length-print (lit s ∷ ps) = omega (arith, length-append (codes s) (print ps), length-print ps)
length-print (sub t ∷ ps) = omega (arith, length-append t (print ps), length-print ps)

-- The buffers that hold what is put in: `g_ip`, `g_mac` and `g_xaddr`.
pub record FitsSite (s : Site) : Type 0 where
  pub ip : length s.ip ≤ 15
  pub mac : length s.mac ≤ 17
  pub xaddr : length s.xaddr ≤ 127

-- A token is a value of `xml_find`, and a reason is one of two.
abbrev pub FitsReply : Reply → Type 0
FitsReply (answer m token) = length token ≤ 255
FitsReply (fault reason) = length reason ≤ 255

few_literals :
    (s : Site) (t : Clock) (token : List ℕ) (m : Method)
    → literals (envelope (method_text s t token m)) ≤ 4000
few_literals s t token device_information = omega arith
few_literals s t token capabilities = omega arith
few_literals s t token scopes = omega arith
few_literals s t token datetime = omega arith
few_literals s t token profiles = omega arith
few_literals s t token stream_uri = omega arith
few_literals s t token ptz_move = omega arith
few_literals s t token ptz_stop = omega arith
few_literals s t token ptz_set_preset = omega arith
few_literals s t token ptz_goto_preset = omega arith
few_literals s t token ptz_get_presets = omega arith
few_literals s t token ptz_status = omega arith
few_literals s t token ptz_nodes = omega arith
few_literals s t token ptz_node = omega arith
few_literals s t token ptz_configurations = omega arith
few_literals s t token ptz_svc_caps = omega arith
few_literals s t token media_svc_caps = omega arith
few_literals s t token device_svc_caps = omega arith
few_literals s t token services = omega arith
few_literals s t token network_interfaces = omega arith

little_put_in :
    (s : Site) (t : Clock) (token : List ℕ) (m : Method)
    → FitsSite s
    → length token ≤ 255
    → put_in (envelope (method_text s t token m)) ≤ 2048
little_put_in s t token device_information w f = omega arith
little_put_in s t token capabilities w f = let x = w.xaddr in omega arith
little_put_in s t token scopes w f = omega arith
little_put_in s t token datetime w f = omega (
  arith,
  length-decimal t.hour,
  length-decimal t.minute,
  length-decimal t.second,
  length-decimal (t.year + 1900),
  length-decimal (t.month + 1),
  length-decimal t.day,
)
little_put_in s t token profiles w f = omega arith
little_put_in s t token stream_uri w f = let x = w.ip in omega arith
little_put_in s t token ptz_move w f = omega arith
little_put_in s t token ptz_stop w f = omega arith
little_put_in s t token ptz_set_preset w f = omega arith
little_put_in s t token ptz_goto_preset w f = omega arith
little_put_in s t token ptz_get_presets w f = omega arith
little_put_in s t token ptz_status w f = omega arith
little_put_in s t token ptz_nodes w f = omega (arith, length-take 2047 (print ptz_node_xml))
little_put_in s t token ptz_node w f = omega (arith, length-take 2047 (print ptz_node_xml))
little_put_in s t token ptz_configurations w f = omega arith
little_put_in s t token ptz_svc_caps w f = omega arith
little_put_in s t token media_svc_caps w f = omega arith
little_put_in s t token device_svc_caps w f = omega arith
little_put_in s t token services w f = let x = w.xaddr in omega arith
little_put_in s t token network_interfaces w f = let x = w.ip in let y = w.mac in omega arith

fault_literals :
    (reason : List ℕ)
    → literals (envelope (fault_text reason)) + put_in (envelope (fault_text reason))
      < 769 + length reason
fault_literals reason = omega arith

length-reply_text :
    (s : Site) (t : Clock) (r : Reply)
    → FitsSite s
    → FitsReply r
    → length (print (reply_text s t r)) < reply_size r
length-reply_text s t (answer m token) w f = omega (
  arith,
  length-print (envelope (method_text s t token m)),
  few_literals s t token m,
  little_put_in s t token m w f,
)
length-reply_text s t (fault reason) w f =
    omega (arith, length-print (envelope (fault_text reason)), fault_literals reason)

-- No reply is cut: the text of every method and of every fault, with its final NUL, fits the buffer
-- that it is printed to, `g_resp` or the `body` of `http_fault`. The addresses fit their buffers, and
-- the token or the reason has at most 255 characters.
pub reply_uncut :
    (s : Site) (t : Clock) (r : Reply)
    → FitsSite s
    → FitsReply r
    → snprintf (reply_size r) (reply_text s t r) ≡ print (reply_text s t r)
reply_uncut s t r w f =
    take_all (print (reply_text s t r)) (reply_size r - 1)
      (omega (arith, length-reply_text s t r w f))
