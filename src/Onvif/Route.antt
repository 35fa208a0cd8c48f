-- ===== src/Onvif/Route.antt =====
-- The routing of `handle_request` in src/onvif/onvif.c: the text of the SOAPAction header, and the
-- method that it names.
use Prim.Native.String.{String}
use yi_outdoor_1080p_ptz.Prelude.{
  ℕ, zero, suc, ◌||◌, List, [], ◌∷◌, Option, none, some, ◌==◌, if◌then◌else◌,
}
use yi_outdoor_1080p_ptz.Text.{codes, after_first, contains}

-- One for each handler.
pub data Method : Type 0 where
  device_information : Method
  capabilities : Method
  scopes : Method
  datetime : Method
  profiles : Method
  stream_uri : Method
  ptz_move : Method
  ptz_stop : Method
  ptz_set_preset : Method
  ptz_goto_preset : Method
  ptz_get_presets : Method
  ptz_status : Method
  ptz_nodes : Method
  ptz_node : Method
  ptz_configurations : Method
  ptz_svc_caps : Method
  media_svc_caps : Method
  device_svc_caps : Method
  services : Method
  network_interfaces : Method

-- The tests, in their order.
abbrev pub methods : List (String × Method)
methods =
    ("/device/wsdl/GetDeviceInformation", device_information)
    ∷ ("/device/wsdl/GetCapabilities", capabilities)
    ∷ ("/device/wsdl/GetScopes", scopes)
    ∷ ("/device/wsdl/GetSystemDateAndTime", datetime)
    ∷ ("/media/wsdl/GetProfiles", profiles)
    ∷ ("/media/wsdl/GetStreamUri", stream_uri)
    ∷ ("/ptz/wsdl/ContinuousMove", ptz_move)
    ∷ ("/ptz/wsdl/Stop", ptz_stop)
    ∷ ("/ptz/wsdl/SetPreset", ptz_set_preset)
    ∷ ("/ptz/wsdl/GotoPreset", ptz_goto_preset)
    ∷ ("/ptz/wsdl/GetPresets", ptz_get_presets)
    ∷ ("/ptz/wsdl/GetStatus", ptz_status)
    ∷ ("/ptz/wsdl/GetNodes", ptz_nodes)
    ∷ ("/ptz/wsdl/GetNode", ptz_node)
    ∷ ("/ptz/wsdl/GetConfigurations", ptz_configurations)
    ∷ ("/ptz/wsdl/GetServiceCapabilities", ptz_svc_caps)
    ∷ ("/media/wsdl/GetServiceCapabilities", media_svc_caps)
    ∷ ("/device/wsdl/GetServiceCapabilities", device_svc_caps)
    ∷ ("/device/wsdl/GetServices", services)
    ∷ ("/device/wsdl/GetNetworkInterfaces", network_interfaces)
    ∷ []

unfoldable pub first_method : List ℕ → List (String × Method) → Option Method
first_method action [] = none
first_method action ((name, method) ∷ rest) =
    if contains (codes name) action then some method else first_method action rest

-- `while (*a == ' ' || *a == '"')`
unfoldable pub skip_quotes : List ℕ → List ℕ
skip_quotes [] = []
skip_quotes (c ∷ cs) = let rest = skip_quotes cs in if c == 0x20 || c == 0x22 then rest else c ∷ cs

-- `while (a[i] && a[i] != '"' && a[i] != '\r' && i < 127)`
unfoldable pub take_action : ℕ → List ℕ → List ℕ
take_action zero s = []
take_action (suc n) [] = []
take_action (suc n) (c ∷ cs) =
    let rest = take_action n cs in if c == 0 || c == 0x22 || c == 13 then [] else c ∷ rest

-- The action of a request, if it has the header.
unfoldable pub action_of : List ℕ → Option (List ℕ)
unfolding skip_quotes take_action
action_of req = elim (after_first (codes "SOAPAction:") req) [
  | none ↦ none
  | some a ↦ some (take_action 127 (skip_quotes a))
]

unfoldable pub route : Option (List ℕ) → Option Method
route none = none
route (some action) = first_method action methods

-- What follows the first empty line.
unfoldable pub body_of : List ℕ → Option (List ℕ)
body_of req = elim (after_first (13 ∷ 10 ∷ 13 ∷ 10 ∷ []) req) [
  | some b ↦ some b
  | none ↦ after_first (10 ∷ 10 ∷ []) req
]
