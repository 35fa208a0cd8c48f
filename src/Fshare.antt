-- ===== src/Fshare.antt =====
-- The reader of the shared frame buffer, src/fshare2fifo/fshare2fifo.c: the layout of the mapping,
-- the record walk, the slot claim and the polling loop.
pub mod Layout
pub mod Record
pub mod Walk
pub mod Poll
pub mod Claim
pub mod Stall
