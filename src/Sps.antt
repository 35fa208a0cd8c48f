-- ===== src/Sps.antt =====
-- The sequence parameter sets of src/fshare2fifo/fshare2fifo.c: the bit reader, the parser
-- (`parse_sps_full`), the bit writer and the synthesis (`build_sps`).
pub mod Reader
pub mod Info
pub mod Parse
pub mod Writer
pub mod Codes
pub mod Build
pub mod RoundTrip
