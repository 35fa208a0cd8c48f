-- ===== src/Tests.antt =====
-- Concrete runs of the models, and the theorems applied to them.
pub mod Image
pub mod Ring
pub mod Drain
pub mod ParameterSets
pub mod Emission
pub mod Loop
pub mod Replies
pub mod Background
pub mod Probes
pub mod Motor
pub mod Soap
