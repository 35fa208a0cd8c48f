-- ===== src/Onvif/Reply/Ptz.antt =====
-- The texts of the motor's service in src/onvif/onvif.c, without the envelope.
use yi_outdoor_1080p_ptz.Prelude.{ℕ, List, [], ◌∷◌}
use yi_outdoor_1080p_ptz.Onvif.Reply.Pieces.{Piece, lit, sub, snprintf}

abbrev pub move_text : List Piece
move_text = lit "<tptz:ContinuousMoveResponse/>" ∷ []

abbrev pub stop_text : List Piece
stop_text = lit "<tptz:StopResponse/>" ∷ []

abbrev pub set_preset_text : List ℕ → List Piece
set_preset_text token =
    lit "<tptz:SetPresetResponse><tptz:PresetToken>"
    ∷ sub token
    ∷ lit "</tptz:PresetToken></tptz:SetPresetResponse>"
    ∷ []

abbrev pub goto_preset_text : List Piece
goto_preset_text = lit "<tptz:GotoPresetResponse/>" ∷ []

abbrev pub get_presets_text : List Piece
get_presets_text = lit "<tptz:GetPresetsResponse/>" ∷ []

abbrev pub status_text : List Piece
status_text =
    lit "<tptz:GetStatusResponse><tptz:PTZStatus>"
    ∷ lit "<tt:Position><tt:PanTilt x=\"0\" y=\"0\"/></tt:Position>"
    ∷ lit "<tt:MoveStatus><tt:PanTilt>IDLE</tt:PanTilt></tt:MoveStatus>"
    ∷ lit "<tt:UtcTime>1970-01-01T00:00:00Z</tt:UtcTime>"
    ∷ lit "</tptz:PTZStatus></tptz:GetStatusResponse>"
    ∷ []

abbrev pub ptz_node_xml : List Piece
ptz_node_xml =
    lit "<tptz:PTZNode token=\"ptz_node\" FixedHomePosition=\"false\">"
    ∷ lit "<tt:Name>ptz_node</tt:Name>"
    ∷ lit "<tt:SupportedPTZSpaces>"
    ∷ lit "<tt:ContinuousPanTiltVelocitySpace>"
    ∷ lit "<tt:URI>http://www.onvif.org/ver10/tptz/PanTiltSpaces/"
    ∷ lit "VelocityGenericSpace</tt:URI>"
    ∷ lit "<tt:XRange><tt:Min>-1</tt:Min><tt:Max>1</tt:Max></tt:XRange>"
    ∷ lit "<tt:YRange><tt:Min>-1</tt:Min><tt:Max>1</tt:Max></tt:YRange>"
    ∷ lit "</tt:ContinuousPanTiltVelocitySpace>"
    ∷ lit "</tt:SupportedPTZSpaces>"
    ∷ lit "<tt:MaximumNumberOfPresets>4</tt:MaximumNumberOfPresets>"
    ∷ lit "<tt:HomeSupported>false</tt:HomeSupported>"
    ∷ lit "</tptz:PTZNode>"
    ∷ []

abbrev pub nodes_text : List Piece
nodes_text =
    lit "<tptz:GetNodesResponse>"
    ∷ sub (snprintf 2048 ptz_node_xml)
    ∷ lit "</tptz:GetNodesResponse>"
    ∷ []

abbrev pub node_text : List Piece
node_text =
    lit "<tptz:GetNodeResponse>"
    ∷ sub (snprintf 2048 ptz_node_xml)
    ∷ lit "</tptz:GetNodeResponse>"
    ∷ []

abbrev pub configurations_text : List Piece
configurations_text =
    lit "<tptz:GetConfigurationsResponse>"
    ∷ lit "<tptz:PTZConfiguration token=\"ptz\">"
    ∷ lit "<tt:Name>ptz</tt:Name>"
    ∷ lit "<tt:UseCount>1</tt:UseCount>"
    ∷ lit "<tt:NodeToken>ptz_node</tt:NodeToken>"
    ∷ lit "<tt:DefaultAbsolutePantTiltPositionSpace>"
    ∷ lit "http://www.onvif.org/ver10/tptz/PanTiltSpaces/PositionGenericSpace"
    ∷ lit "</tt:DefaultAbsolutePantTiltPositionSpace>"
    ∷ lit "<tt:DefaultRelativePanTiltTranslationSpace>"
    ∷ lit "http://www.onvif.org/ver10/tptz/PanTiltSpaces/TranslationGenericSpace"
    ∷ lit "</tt:DefaultRelativePanTiltTranslationSpace>"
    ∷ lit "<tt:DefaultContinuousPanTiltVelocitySpace>"
    ∷ lit "http://www.onvif.org/ver10/tptz/PanTiltSpaces/VelocityGenericSpace"
    ∷ lit "</tt:DefaultContinuousPanTiltVelocitySpace>"
    ∷ lit "</tptz:PTZConfiguration>"
    ∷ lit "</tptz:GetConfigurationsResponse>"
    ∷ []

abbrev pub ptz_svc_caps_text : List Piece
ptz_svc_caps_text =
    lit "<tptz:GetServiceCapabilitiesResponse><tptz:Capabilities>"
    ∷ lit "<tt:GetCompatibleConfigurations>false</tt:GetCompatibleConfigurations>"
    ∷ lit "<tt:MoveStatus>false</tt:MoveStatus>"
    ∷ lit "<tt:StatusPosition>false</tt:StatusPosition>"
    ∷ lit "</tptz:Capabilities></tptz:GetServiceCapabilitiesResponse>"
    ∷ []
