-- ===== src/Tests/Replies.antt =====
-- The replies of the SOAP server, for one camera.
use yi_outdoor_1080p_ptz.Prelude.{ℕ, ◌*◌, ◌≡◌, refl, List, [], ◌∷◌, some, arith, ltb, ◌==◌}
use yi_outdoor_1080p_ptz.Text.{codes}
use yi_outdoor_1080p_ptz.Onvif.Request.{note_header, note_length}
use yi_outdoor_1080p_ptz.Onvif.Route.{services}
use yi_outdoor_1080p_ptz.Onvif.Server.{answer, handle_request}
use yi_outdoor_1080p_ptz.Onvif.Reply.{xaddr_of, reply_text, http_reply}
use yi_outdoor_1080p_ptz.Onvif.Reply.Pieces.{snprintf, print, digits}
use yi_outdoor_1080p_ptz.Onvif.Reply.Device.{Site, Clock}
use yi_outdoor_1080p_ptz.Onvif.Reply.Lengths.{FitsSite}
use yi_outdoor_1080p_ptz.Onvif.Reply.Xml.{scan, IsDocument}
use yi_outdoor_1080p_ptz.Onvif.Reply.Documents.{IsCleanSite, reply-IsDocument}
use yi_outdoor_1080p_ptz.Onvif.Reply.Framing.{IsFramed, arrived, http_reply-IsFramed}
use yi_outdoor_1080p_ptz.Onvif.Reply.Requests.{AllUncut, handle_request_uncut}
use yi_outdoor_1080p_ptz.Tests.Soap.{number, idle_server, move_request}

abbrev camera : Site
camera = record {
  ip = codes "192.168.1.7";
  mac = codes "00:00:00:00:00:01";
  xaddr = xaddr_of (codes "192.168.1.7") 8080;
}

abbrev noon : Clock
noon = record { hour = 12; minute = 0; second = 0; year = 124; month = 0; day = 1 }

base_address : camera.xaddr ≡ codes "http://192.168.1.7:8080"
unfolding print digits
base_address = refl

camera-FitsSite : FitsSite camera
camera-FitsSite = rw_site
  where
    rw_site : FitsSite camera
    rw_site = record { ip = omega arith; mac = omega arith; xaddr = rw base_address (omega arith) }

camera-IsCleanSite : IsCleanSite camera
unfolding scan print digits
camera-IsCleanSite = record { ip = λ os. refl; mac = λ os. refl; xaddr = λ os. refl }

reply-IsDocument_example : IsDocument (snprintf 8192 (reply_text camera noon (answer services [])))
unfolding scan
reply-IsDocument_example =
    reply-IsDocument camera noon (answer services []) camera-FitsSite (omega arith)
      camera-IsCleanSite (λ os. refl)

-- A space, then digits.
abbrev spaced_number : List ℕ → ℕ
spaced_number [] = 0
spaced_number (c ∷ cs) = number cs

http_reply-IsFramed_example :
    IsFramed
      (codes "<a/>")
      (note_length spaced_number (note_header (arrived (http_reply (codes "<a/>")))))
unfolding digits
http_reply-IsFramed_example =
    http_reply-IsFramed spaced_number (codes "<a/>") (omega arith) (λ t. refl)

handle_request_uncut_example :
    AllUncut camera noon
      (handle_request 0
        (λ a. a == 0)
        (λ a. ltb 0 a)
        (λ a b. ltb (b * b) (a * a))
        number
        (λ s. some (number s))
        7
        idle_server
        move_request).replies
handle_request_uncut_example =
    handle_request_uncut 0 (λ a. a == 0) (λ a. ltb 0 a) (λ a b. ltb (b * b) (a * a)) number
      (λ s. some (number s)) camera noon camera-FitsSite 7 idle_server move_request tt
