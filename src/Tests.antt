-- ===== src/Tests.antt =====
-- Samples, and the definitions and theorems of the library on them.
pub mod Samples
pub mod Plans
pub mod Runs
pub mod Calls
pub mod Replans
pub mod States
pub mod Graphs
pub mod Policies
pub mod Compiles
