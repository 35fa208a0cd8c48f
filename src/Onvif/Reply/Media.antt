-- ===== src/Onvif/Reply/Media.antt =====
-- The texts of the media service in src/onvif/onvif.c, without the envelope.
use yi_outdoor_1080p_ptz.Prelude.{List, [], ◌∷◌}
use yi_outdoor_1080p_ptz.Onvif.Reply.Pieces.{Piece, lit, sub}
use yi_outdoor_1080p_ptz.Onvif.Reply.Device.{Site}

abbrev pub profiles_text : List Piece
profiles_text =
    lit "<trt:GetProfilesResponse>"
    ∷ lit "<trt:Profiles token=\"main_stream\" fixed=\"true\">"
    ∷ lit "<tt:Name>main_stream</tt:Name>"
    ∷ lit "<tt:VideoSourceConfiguration token=\"video_src\">"
    ∷ lit "<tt:Name>video_src</tt:Name>"
    ∷ lit "<tt:UseCount>1</tt:UseCount>"
    ∷ lit "<tt:SourceToken>video_src</tt:SourceToken>"
    ∷ lit "<tt:Bounds x=\"0\" y=\"0\" width=\"1920\" height=\"1088\"/>"
    ∷ lit "</tt:VideoSourceConfiguration>"
    ∷ lit "<tt:AudioSourceConfiguration token=\"audio_src\">"
    ∷ lit "<tt:Name>audio_src</tt:Name>"
    ∷ lit "<tt:UseCount>1</tt:UseCount>"
    ∷ lit "<tt:SourceToken>audio_src</tt:SourceToken>"
    ∷ lit "</tt:AudioSourceConfiguration>"
    ∷ lit "<tt:VideoEncoderConfiguration token=\"video_enc\">"
    ∷ lit "<tt:Name>video_enc</tt:Name>"
    ∷ lit "<tt:UseCount>1</tt:UseCount>"
    ∷ lit "<tt:Encoding>H264</tt:Encoding>"
    ∷ lit "<tt:Resolution><tt:Width>1920</tt:Width>"
    ∷ lit "<tt:Height>1088</tt:Height></tt:Resolution>"
    ∷ lit "<tt:Quality>4</tt:Quality>"
    ∷ lit "<tt:RateControl><tt:FrameRateLimit>20</tt:FrameRateLimit>"
    ∷ lit "<tt:EncodingInterval>1</tt:EncodingInterval>"
    ∷ lit "<tt:BitrateLimit>2000</tt:BitrateLimit></tt:RateControl>"
    ∷ lit "<tt:H264><tt:GovLength>30</tt:GovLength>"
    ∷ lit "<tt:H264Profile>High</tt:H264Profile></tt:H264>"
    ∷ lit "<tt:SessionTimeout>PT10S</tt:SessionTimeout>"
    ∷ lit "</tt:VideoEncoderConfiguration>"
    ∷ lit "<tt:AudioEncoderConfiguration token=\"audio_enc\">"
    ∷ lit "<tt:Name>audio_enc</tt:Name>"
    ∷ lit "<tt:UseCount>1</tt:UseCount>"
    ∷ lit "<tt:Encoding>AAC</tt:Encoding>"
    ∷ lit "<tt:Bitrate>22</tt:Bitrate>"
    ∷ lit "<tt:SampleRate>16000</tt:SampleRate>"
    ∷ lit "</tt:AudioEncoderConfiguration>"
    ∷ lit "<tt:PTZConfiguration token=\"ptz\">"
    ∷ lit "<tt:Name>ptz</tt:Name>"
    ∷ lit "<tt:UseCount>1</tt:UseCount>"
    ∷ lit "<tt:NodeToken>ptz_node</tt:NodeToken>"
    ∷ lit "<tt:DefaultAbsolutePantTiltPositionSpace>"
    ∷ lit "http://www.onvif.org/ver10/tptz/PanTiltSpaces/PositionGenericSpace"
    ∷ lit "</tt:DefaultAbsolutePantTiltPositionSpace>"
    ∷ lit "<tt:DefaultRelativePanTiltTranslationSpace>"
    ∷ lit "http://www.onvif.org/ver10/tptz/PanTiltSpaces/TranslationGenericSpace"
    ∷ lit "</tt:DefaultRelativePanTiltTranslationSpace>"
    ∷ lit "<tt:DefaultContinuousPanTiltVelocitySpace>"
    ∷ lit "http://www.onvif.org/ver10/tptz/PanTiltSpaces/VelocityGenericSpace"
    ∷ lit "</tt:DefaultContinuousPanTiltVelocitySpace>"
    ∷ lit "</tt:PTZConfiguration>"
    ∷ lit "</trt:Profiles>"
    ∷ lit "</trt:GetProfilesResponse>"
    ∷ []

abbrev pub stream_uri_text : Site → List Piece
stream_uri_text s =
    lit "<trt:GetStreamUriResponse><trt:MediaUri>"
    ∷ lit "<tt:Uri>rtsp://"
    ∷ sub s.ip
    ∷ lit ":554/ch0_0.h264</tt:Uri>"
    ∷ lit "<tt:InvalidAfterConnect>false</tt:InvalidAfterConnect>"
    ∷ lit "<tt:InvalidAfterReboot>false</tt:InvalidAfterReboot>"
    ∷ lit "<tt:Timeout>PT10S</tt:Timeout>"
    ∷ lit "</trt:MediaUri></trt:GetStreamUriResponse>"
    ∷ []

abbrev pub media_svc_caps_text : List Piece
media_svc_caps_text =
    lit "<trt:GetServiceCapabilitiesResponse><trt:Capabilities>"
    ∷ lit "<tt:ProfileCapabilities><tt:MaximumNumberOfProfiles>1"
    ∷ lit "</tt:MaximumNumberOfProfiles></tt:ProfileCapabilities>"
    ∷ lit "<tt:StreamingCapabilities><tt:RTPMulticast>false"
    ∷ lit "</tt:RTPMulticast><tt:RTP_TCP>true</tt:RTP_TCP>"
    ∷ lit "<tt:RTP_RTSP_TCP>true</tt:RTP_RTSP_TCP></tt:StreamingCapabilities>"
    ∷ lit "</trt:Capabilities></trt:GetServiceCapabilitiesResponse>"
    ∷ []
