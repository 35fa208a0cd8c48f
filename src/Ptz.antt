-- ===== src/Ptz.antt =====
-- src/ptz/ptz.c, the program that drives the motor and the light through the message queue of the
-- camera's own application.
pub mod Message
pub mod Envelope
pub mod Command
pub mod Cgi
pub mod Cap
