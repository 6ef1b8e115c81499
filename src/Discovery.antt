-- ===== src/Discovery.antt =====
-- The controller of VirtualMachineBackupsDiscovery.
pub mod Cluster
pub mod TimeRange
pub mod Select
pub mod Batch
pub mod Finalize
pub mod Controller
pub mod Invariant
pub mod Reconcile
