-- ===== src/Tests.antt =====
-- Runs of the program on small inputs, and the theorems at concrete inputs.
pub mod Runs
pub mod Passes
pub mod Objects
pub mod Machine
pub mod Files
pub mod Whole
pub mod Sections
