-- ===== src/Onvif/Reply/Documents.antt =====
-- The replies of src/onvif/onvif.c are well-formed documents.
use yi_outdoor_1080p_ptz.Prelude.{ℕ, ◌+◌, ◌≡◌, refl, List, []}
use yi_outdoor_1080p_ptz.Onvif.Route.{
  Method, device_information, capabilities, scopes, datetime, profiles, stream_uri, ptz_move,
  ptz_stop, ptz_set_preset, ptz_goto_preset, ptz_get_presets, ptz_status, ptz_nodes, ptz_node,
  ptz_configurations, ptz_svc_caps, media_svc_caps, device_svc_caps, services, network_interfaces,
}
use yi_outdoor_1080p_ptz.Onvif.Server.{Reply, answer, fault}
use yi_outdoor_1080p_ptz.Onvif.Reply.{method_text, fault_text, reply_text, reply_size}
use yi_outdoor_1080p_ptz.Onvif.Reply.Pieces.{snprintf, print, decimal, envelope}
use yi_outdoor_1080p_ptz.Onvif.Reply.Device.{Site, Clock}
use yi_outdoor_1080p_ptz.Onvif.Reply.Ptz.{ptz_node_xml}
use yi_outdoor_1080p_ptz.Onvif.Reply.Lengths.{FitsSite, FitsReply, reply_uncut}
use yi_outdoor_1080p_ptz.Onvif.Reply.Xml.{
  content, scan, scan_format, scan_format_sound, IsDocument, IsInline, AllInline, decimal-IsInline,
}

-- The method's text closes what it opens.
method_closes :
    (s : Site) (t : Clock) (token : List ℕ) (m : Method)
    → scan_format (content []) (envelope (method_text s t token m)) ≡ content []
unfolding scan_format scan
method_closes s t token device_information = refl
method_closes s t token capabilities = refl
method_closes s t token scopes = refl
method_closes s t token datetime = refl
method_closes s t token profiles = refl
method_closes s t token stream_uri = refl
method_closes s t token ptz_move = refl
method_closes s t token ptz_stop = refl
method_closes s t token ptz_set_preset = refl
method_closes s t token ptz_goto_preset = refl
method_closes s t token ptz_get_presets = refl
method_closes s t token ptz_status = refl
method_closes s t token ptz_nodes = refl
method_closes s t token ptz_node = refl
method_closes s t token ptz_configurations = refl
method_closes s t token ptz_svc_caps = refl
method_closes s t token media_svc_caps = refl
method_closes s t token device_svc_caps = refl
method_closes s t token services = refl
method_closes s t token network_interfaces = refl

-- What the requests and the camera put into a reply closes what it opens.
pub record IsCleanSite (s : Site) : Type 0 where
  pub ip : IsInline s.ip
  pub mac : IsInline s.mac
  pub xaddr : IsInline s.xaddr

abbrev pub IsCleanReply : Reply → Type 0
IsCleanReply (answer m token) = IsInline token
IsCleanReply (fault reason) = IsInline reason

node-IsInline : IsInline (snprintf 2048 ptz_node_xml)
unfolding scan print
node-IsInline os = refl

method-AllInline :
    (s : Site) (t : Clock) (token : List ℕ) (m : Method)
    → IsCleanSite s
    → IsInline token
    → AllInline (envelope (method_text s t token m))
method-AllInline s t token device_information c u = tt
method-AllInline s t token capabilities c u = (c.xaddr, (c.xaddr, (c.xaddr, tt)))
method-AllInline s t token scopes c u = tt
method-AllInline s t token datetime c u =
    (n t.hour, (n t.minute, (n t.second, (n (t.year + 1900), (n (t.month + 1), (n t.day, tt))))))
  where
    n : (k : ℕ) → IsInline (decimal k)
    n k = decimal-IsInline k
method-AllInline s t token profiles c u = tt
method-AllInline s t token stream_uri c u = (c.ip, tt)
method-AllInline s t token ptz_move c u = tt
method-AllInline s t token ptz_stop c u = tt
method-AllInline s t token ptz_set_preset c u = (u, tt)
method-AllInline s t token ptz_goto_preset c u = tt
method-AllInline s t token ptz_get_presets c u = tt
method-AllInline s t token ptz_status c u = tt
method-AllInline s t token ptz_nodes c u = (node-IsInline, tt)
method-AllInline s t token ptz_node c u = (node-IsInline, tt)
method-AllInline s t token ptz_configurations c u = tt
method-AllInline s t token ptz_svc_caps c u = tt
method-AllInline s t token media_svc_caps c u = tt
method-AllInline s t token device_svc_caps c u = tt
method-AllInline s t token services c u = (c.xaddr, (c.xaddr, (c.xaddr, tt)))
method-AllInline s t token network_interfaces c u = (c.mac, (c.ip, tt))

reply_text-IsDocument :
    (s : Site) (t : Clock) (r : Reply)
    → IsCleanSite s
    → IsCleanReply r
    → IsDocument (print (reply_text s t r))
unfolding scan_format scan
reply_text-IsDocument s t (answer m token) c u =
    scan_format_sound (content []) (envelope (method_text s t token m)) []
      (method-AllInline s t token m c u) (method_closes s t token m)
reply_text-IsDocument s t (fault reason) c u =
    scan_format_sound (content []) (envelope (fault_text reason)) [] (u, tt) refl

-- The body of every reply is a whole document in which each element is closed by a tag of its name,
-- innermost first, whatever the clock says: the node's own text, put into two of the replies, too.
-- The addresses fit their buffers, the token or the reason has at most 255 characters, and these
-- texts close what they open, as a text without `<` does.
pub reply-IsDocument :
    (s : Site) (t : Clock) (r : Reply)
    → FitsSite s
    → FitsReply r
    → IsCleanSite s
    → IsCleanReply r
    → IsDocument (snprintf (reply_size r) (reply_text s t r))
reply-IsDocument s t r w f c u = rw (reply_uncut s t r w f) (reply_text-IsDocument s t r c u)
