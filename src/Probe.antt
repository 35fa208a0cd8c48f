-- ===== src/Probe.antt =====
-- The development probes of src/ring-capture, which watch the shared memory of the camera.
pub mod Slots
pub mod Scan
pub mod Ends
pub mod Peek
pub mod Timeline
