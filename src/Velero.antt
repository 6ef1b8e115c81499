-- ===== src/Velero.antt =====
-- internal/velerohelpers: what a Velero backup says of itself (Spec), the texts of Velero's
-- resource lists (Resource), and the reader of a backup's contents (Contents).
pub mod Spec
pub mod Resource
pub mod Contents
