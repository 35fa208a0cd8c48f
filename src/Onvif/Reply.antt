-- ===== src/Onvif/Reply.antt =====
-- The replies of src/onvif/onvif.c as they go out: `http_reply`, `http_fault` and the text of each
-- method.
pub mod Pieces
pub mod Device
pub mod Media
pub mod Ptz
pub mod Digits
pub mod Xml
pub mod Documents
pub mod Lengths
pub mod Framing
pub mod Requests
use yi_outdoor_1080p_ptz.Prelude.{ℕ, List, [], ◌∷◌, ◌++◌, length, take}
use yi_outdoor_1080p_ptz.Text.{codes}
use yi_outdoor_1080p_ptz.Onvif.Route.{
  Method, device_information, capabilities, scopes, datetime, profiles, stream_uri, ptz_move,
  ptz_stop, ptz_set_preset, ptz_goto_preset, ptz_get_presets, ptz_status, ptz_nodes, ptz_node,
  ptz_configurations, ptz_svc_caps, media_svc_caps, device_svc_caps, services, network_interfaces,
}
use yi_outdoor_1080p_ptz.Onvif.Server.{Reply, answer, fault}
use yi_outdoor_1080p_ptz.Onvif.Reply.Pieces.{Piece, lit, sub, snprintf, decimal, envelope}
use yi_outdoor_1080p_ptz.Onvif.Reply.Device.{
  Site, Clock, device_information_text, capabilities_text, scopes_text, datetime_text,
  device_svc_caps_text, services_text, network_interfaces_text,
}
use yi_outdoor_1080p_ptz.Onvif.Reply.Media.{profiles_text, stream_uri_text, media_svc_caps_text}
use yi_outdoor_1080p_ptz.Onvif.Reply.Ptz.{
  move_text, stop_text, set_preset_text, goto_preset_text, get_presets_text, status_text,
  nodes_text, node_text, configurations_text, ptz_svc_caps_text,
}

-- `mk_xaddr`, whose buffer has 128 bytes.
abbrev pub xaddr_of : List ℕ → ℕ → List ℕ
xaddr_of ip port = snprintf 128 (lit "http://" ∷ sub ip ∷ lit ":" ∷ sub (decimal port) ∷ [])

-- What the handler of a method prints between the head and the tail of the envelope.
abbrev pub method_text : Site → Clock → List ℕ → Method → List Piece
method_text s t token device_information = device_information_text
method_text s t token capabilities = capabilities_text s
method_text s t token scopes = scopes_text
method_text s t token datetime = datetime_text t
method_text s t token profiles = profiles_text
method_text s t token stream_uri = stream_uri_text s
method_text s t token ptz_move = move_text
method_text s t token ptz_stop = stop_text
method_text s t token ptz_set_preset = set_preset_text token
method_text s t token ptz_goto_preset = goto_preset_text
method_text s t token ptz_get_presets = get_presets_text
method_text s t token ptz_status = status_text
method_text s t token ptz_nodes = nodes_text
method_text s t token ptz_node = node_text
method_text s t token ptz_configurations = configurations_text
method_text s t token ptz_svc_caps = ptz_svc_caps_text
method_text s t token media_svc_caps = media_svc_caps_text
method_text s t token device_svc_caps = device_svc_caps_text
method_text s t token services = services_text s
method_text s t token network_interfaces = network_interfaces_text s

-- `http_fault`
abbrev pub fault_text : List ℕ → List Piece
fault_text reason =
    lit "<SOAP-ENV:Fault><SOAP-ENV:Code>"
    ∷ lit "<SOAP-ENV:Value>SOAP-ENV:Receiver</SOAP-ENV:Value>"
    ∷ lit "</SOAP-ENV:Code><SOAP-ENV:Reason>"
    ∷ lit "<SOAP-ENV:Text xml:lang=\"en\">"
    ∷ sub reason
    ∷ lit "</SOAP-ENV:Text>"
    ∷ lit "</SOAP-ENV:Reason></SOAP-ENV:Fault>"
    ∷ []

-- The text of a reply before it is cut to its buffer, and the size of that buffer.
abbrev pub reply_text : Site → Clock → Reply → List Piece
reply_text s t (answer m token) = envelope (method_text s t token m)
reply_text s t (fault reason) = envelope (fault_text reason)

abbrev pub reply_size : Reply → ℕ
reply_size (answer m token) = 8192
reply_size (fault reason) = 1024

-- The header that `http_reply` writes before a body of `len` bytes.
abbrev pub reply_head : ℕ → List Piece
reply_head len =
    lit "HTTP/1.1 200 OK\r\n"
    ∷ lit "Content-Type: application/soap+xml; charset=utf-8\r\n"
    ∷ lit "Content-Length: "
    ∷ sub (decimal len)
    ∷ lit "\r\n"
    ∷ lit "Connection: close\r\n\r\n"
    ∷ []

unfoldable pub http_reply : List ℕ → List ℕ
http_reply body = snprintf 256 (reply_head (length body)) ++ body
