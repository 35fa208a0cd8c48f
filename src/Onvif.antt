-- ===== src/Onvif.antt =====
-- src/onvif/onvif.c, the SOAP server in front of the motor.
pub mod Request
pub mod Bounds
pub mod Route
pub mod Envelope
pub mod Server
pub mod Reply
pub mod Replies
