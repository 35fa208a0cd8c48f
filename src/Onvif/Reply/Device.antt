-- ===== src/Onvif/Reply/Device.antt =====
-- The texts of the device service in src/onvif/onvif.c, without the envelope.
use yi_outdoor_1080p_ptz.Prelude.{ℕ, ◌+◌, List, [], ◌∷◌}
use yi_outdoor_1080p_ptz.Onvif.Reply.Pieces.{Piece, lit, sub, decimal}

-- `g_ip`, `g_mac` and `g_xaddr`.
pub record Site : Type 0 where
  pub ip : List ℕ
  pub mac : List ℕ
  pub xaddr : List ℕ

-- What `gmtime_r` gives: `tm_year` counts from 1900 and `tm_mon` from 0.
pub record Clock : Type 0 where
  pub hour : ℕ
  pub minute : ℕ
  pub second : ℕ
  pub year : ℕ
  pub month : ℕ
  pub day : ℕ

abbrev pub device_information_text : List Piece
device_information_text =
    lit "<tds:GetDeviceInformationResponse>"
    ∷ lit "<tds:Manufacturer>YI Technology</tds:Manufacturer>"
    ∷ lit "<tds:Model>YI Outdoor Camera 1080p</tds:Model>"
    ∷ lit "<tds:FirmwareVersion>5.0.00.00_202204281015</tds:FirmwareVersion>"
    ∷ lit "<tds:SerialNumber>b221fp</tds:SerialNumber>"
    ∷ lit "<tds:HardwareId>b221fp</tds:HardwareId>"
    ∷ lit "</tds:GetDeviceInformationResponse>"
    ∷ []

abbrev pub capabilities_text : Site → List Piece
capabilities_text s =
    lit "<tds:GetCapabilitiesResponse><tds:Capabilities>"
    ∷ lit "<tt:Device><tt:XAddr>"
    ∷ sub s.xaddr
    ∷ lit "/onvif/device_service</tt:XAddr>"
    ∷ lit "<tt:Network><tt:IPFilter>false</tt:IPFilter>"
    ∷ lit "<tt:ZeroConfiguration>false</tt:ZeroConfiguration>"
    ∷ lit "</tt:Network></tt:Device>"
    ∷ lit "<tt:Media><tt:XAddr>"
    ∷ sub s.xaddr
    ∷ lit "/onvif/media_service</tt:XAddr>"
    ∷ lit "<tt:StreamingCapabilities><tt:RTSPStreaming>true</tt:RTSPStreaming>"
    ∷ lit "</tt:StreamingCapabilities></tt:Media>"
    ∷ lit "<tt:PTZ><tt:XAddr>"
    ∷ sub s.xaddr
    ∷ lit "/onvif/ptz_service</tt:XAddr></tt:PTZ>"
    ∷ lit "</tds:Capabilities></tds:GetCapabilitiesResponse>"
    ∷ []

abbrev pub scopes_text : List Piece
scopes_text =
    lit "<tds:GetScopesResponse><tds:Scopes>"
    ∷ lit "<tt:ScopeDef>Fixed</tt:ScopeDef>"
    ∷ lit "<tt:ScopeItem>onvif://www.onvif.org/name/YI-Outdoor</tt:ScopeItem>"
    ∷ lit "</tds:Scopes></tds:GetScopesResponse>"
    ∷ []

abbrev pub datetime_text : Clock → List Piece
datetime_text t =
    lit "<tds:GetSystemDateAndTimeResponse><tds:SystemDateAndTime>"
    ∷ lit "<tt:DateTimeType>Manual</tt:DateTimeType>"
    ∷ lit "<tt:DaylightSavings>false</tt:DaylightSavings>"
    ∷ lit "<tt:TimeZone><tt:TZ>GMT0</tt:TZ></tt:TimeZone>"
    ∷ lit "<tt:UTCDateTime><tt:Time><tt:Hour>"
    ∷ sub (decimal t.hour)
    ∷ lit "</tt:Hour>"
    ∷ lit "<tt:Minute>"
    ∷ sub (decimal t.minute)
    ∷ lit "</tt:Minute><tt:Second>"
    ∷ sub (decimal t.second)
    ∷ lit "</tt:Second>"
    ∷ lit "</tt:Time><tt:Date><tt:Year>"
    ∷ sub (decimal (t.year + 1900))
    ∷ lit "</tt:Year>"
    ∷ lit "<tt:Month>"
    ∷ sub (decimal (t.month + 1))
    ∷ lit "</tt:Month><tt:Day>"
    ∷ sub (decimal t.day)
    ∷ lit "</tt:Day></tt:Date>"
    ∷ lit "</tt:UTCDateTime></tds:SystemDateAndTime>"
    ∷ lit "</tds:GetSystemDateAndTimeResponse>"
    ∷ []

abbrev pub device_svc_caps_text : List Piece
device_svc_caps_text =
    lit "<tds:GetServiceCapabilitiesResponse><tds:Capabilities>"
    ∷ lit "<tds:Network><tt:IPFilter>false</tt:IPFilter>"
    ∷ lit "<tt:ZeroConfiguration>false</tt:ZeroConfiguration>"
    ∷ lit "<tt:IPVersion6>false</tt:IPVersion6>"
    ∷ lit "<tt:DynDNS>false</tt:DynDNS></tds:Network>"
    ∷ lit "<tds:System><tt:DiscoveryResolve>false</tt:DiscoveryResolve>"
    ∷ lit "<tt:DiscoveryBye>false</tt:DiscoveryBye>"
    ∷ lit "<tt:RemoteDiscovery>false</tt:RemoteDiscovery>"
    ∷ lit "<tt:SystemBackup>false</tt:SystemBackup>"
    ∷ lit "<tt:SystemLogging>false</tt:SystemLogging>"
    ∷ lit "<tt:FirmwareUpgrade>false</tt:FirmwareUpgrade>"
    ∷ lit "</tds:System>"
    ∷ lit "</tds:Capabilities></tds:GetServiceCapabilitiesResponse>"
    ∷ []

abbrev pub services_text : Site → List Piece
services_text s =
    lit "<tds:GetServicesResponse>"
    ∷ lit "<tds:Service>"
    ∷ lit "<tds:Namespace>http://www.onvif.org/ver10/device/wsdl</tds:Namespace>"
    ∷ lit "<tds:XAddr>"
    ∷ sub s.xaddr
    ∷ lit "/onvif/device_service</tds:XAddr>"
    ∷ lit "<tds:Version><tt:Major>2</tt:Major><tt:Minor>6</tt:Minor></tds:Version>"
    ∷ lit "</tds:Service>"
    ∷ lit "<tds:Service>"
    ∷ lit "<tds:Namespace>http://www.onvif.org/ver10/media/wsdl</tds:Namespace>"
    ∷ lit "<tds:XAddr>"
    ∷ sub s.xaddr
    ∷ lit "/onvif/media_service</tds:XAddr>"
    ∷ lit "<tds:Version><tt:Major>2</tt:Major><tt:Minor>6</tt:Minor></tds:Version>"
    ∷ lit "</tds:Service>"
    ∷ lit "<tds:Service>"
    ∷ lit "<tds:Namespace>http://www.onvif.org/ver20/ptz/wsdl</tds:Namespace>"
    ∷ lit "<tds:XAddr>"
    ∷ sub s.xaddr
    ∷ lit "/onvif/ptz_service</tds:XAddr>"
    ∷ lit "<tds:Version><tt:Major>2</tt:Major><tt:Minor>6</tt:Minor></tds:Version>"
    ∷ lit "</tds:Service>"
    ∷ lit "</tds:GetServicesResponse>"
    ∷ []

abbrev pub network_interfaces_text : Site → List Piece
network_interfaces_text s =
    lit "<tds:GetNetworkInterfacesResponse><tds:NetworkInterfaces "
    ∷ lit "token=\"eth0\">"
    ∷ lit "<tt:Enabled>true</tt:Enabled>"
    ∷ lit "<tt:Info><tt:Name>eth0</tt:Name>"
    ∷ lit "<tt:HwAddress>"
    ∷ sub s.mac
    ∷ lit "</tt:HwAddress>"
    ∷ lit "<tt:MTU>1500</tt:MTU></tt:Info>"
    ∷ lit "<tt:IPv4><tt:Enabled>true</tt:Enabled>"
    ∷ lit "<tt:Config><tt:Manual>"
    ∷ lit "<tt:Address>"
    ∷ sub s.ip
    ∷ lit "</tt:Address>"
    ∷ lit "<tt:PrefixLength>24</tt:PrefixLength>"
    ∷ lit "</tt:Manual></tt:Config></tt:IPv4>"
    ∷ lit "</tds:NetworkInterfaces></tds:GetNetworkInterfacesResponse>"
    ∷ []
