-- ===== src/Tests.antt =====
-- Runs of the definitions, and the theorems at concrete inputs.
pub mod World
pub mod Discovery
pub mod Velero
pub mod Sshd
pub mod Names
pub mod FileRestore
pub mod FileRestores
