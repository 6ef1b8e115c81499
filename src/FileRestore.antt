-- ===== src/FileRestore.antt =====
-- internal/controller/virtualmachinefilerestore_controller.go: the controller of file restores.
pub mod Types
pub mod Restores
pub mod Selection
pub mod Groups
pub mod Availability
pub mod Client
pub mod Extract
pub mod Status
pub mod Validation
pub mod Monitor
pub mod Restored
pub mod Workflow
pub mod Reconcile
pub mod Stage
