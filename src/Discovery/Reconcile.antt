-- ===== src/Discovery/Reconcile.antt =====
-- internal/controller/virtualmachinebackupsdiscovery_controller.go: what a handler keeps of the
-- statuses that the server stores, whatever the server answers and however late its reads are.
pub mod Triple
pub mod Sound
pub mod Settled
pub mod Update
