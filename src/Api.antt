-- ===== src/Api.antt =====
-- The resource types of api/v1alpha1: virtualmachinebackupsdiscovery_types.go,
-- types/backup_discovery.go and types/pvc.go, with the fields of Velero's Backup that the
-- controllers read. A point of time (metav1.Time) is the number of nanoseconds since the zero
-- time of Go, year 1; a pointer that may be nil is an Option.
use oadp_vm_file_restore.Prelude.{ℕ, ℤ, String, List, Option, Bool, true, false}

pub record PvcInfo : Type 0 where
  pub pvc_name : String
  pub pvc_namespace : String
  pub pvc_uid : String
  pub size : String

pub record VeleroBackupInfo : Type 0 where
  pub name : String
  pub namespace : String
  pub created_at : Option ℕ
  pub pvcs : List PvcInfo

pub record InvalidBackupInfo : Type 0 where
  pub info : VeleroBackupInfo
  pub open info use *
  pub reason : String

-- BackupDiscoveryStatus; `unset` is the empty string, the zero value of the type.
pub data DiscoveryStatus : Type 0 where
  unset new in_progress completed skipped failed : DiscoveryStatus

abbrev pub is_new : DiscoveryStatus → Bool
is_new DiscoveryStatus.new = true
is_new _ = false

abbrev pub is_in_progress : DiscoveryStatus → Bool
is_in_progress DiscoveryStatus.in_progress = true
is_in_progress _ = false

abbrev pub is_completed : DiscoveryStatus → Bool
is_completed DiscoveryStatus.completed = true
is_completed _ = false

pub record BackupDiscoveryProgress : Type 0 where
  pub info : VeleroBackupInfo
  pub open info use *
  pub status : DiscoveryStatus
  pub message : String
  pub last_updated : Option ℕ

pub record DiscoveryStatistics : Type 0 where
  pub total_candidates : ℤ
  pub start_time : Option ℕ
  pub completion_time : Option ℕ
  pub pending : ℤ
  pub in_progress : ℤ
  pub completed : ℤ
  pub skipped : ℤ
  pub failed : ℤ

-- The spec; a FlexibleTime is a text.
pub record DiscoverySpec : Type 0 where
  pub virtual_machine_name : String
  pub virtual_machine_namespace : String
  pub start_time : Option String
  pub end_time : Option String
  pub requested_backups : List String

-- VirtualMachineBackupsDiscoveryPhase; `unset` is the empty string.
pub data DiscoveryPhase : Type 0 where
  unset new in_progress completed partially_failed failed : DiscoveryPhase

abbrev pub is_unset_phase : DiscoveryPhase → Bool
is_unset_phase DiscoveryPhase.unset = true
is_unset_phase _ = false

abbrev pub is_completed_phase : DiscoveryPhase → Bool
is_completed_phase DiscoveryPhase.completed = true
is_completed_phase _ = false

-- metav1.Condition, as far as the controllers fill it in.
pub record Condition : Type 0 where
  pub type : String
  pub status : Bool
  pub reason : String
  pub message : String
  pub last_transition_time : ℕ

pub record DiscoveryStatusOf : Type 0 where
  pub phase : DiscoveryPhase
  pub observed_generation : ℕ
  pub conditions : List Condition
  pub valid_backups : List VeleroBackupInfo
  pub invalid_backups : List InvalidBackupInfo
  pub backup_discovery_progress : List BackupDiscoveryProgress
  pub discovery_stats : Option DiscoveryStatistics

-- The resource: what the reconciler reads of its metadata, the spec and the status.
pub record BackupsDiscovery : Type 0 where
  pub name : String
  pub namespace : String
  pub generation : ℕ
  pub resource_version : ℕ
  pub spec : DiscoverySpec
  pub status : DiscoveryStatusOf

-- Velero's BackupPhase, as far as the controllers tell its values apart.
pub data BackupPhase : Type 0 where
  completed other : BackupPhase

abbrev pub is_completed_backup : BackupPhase → Bool
is_completed_backup BackupPhase.completed = true
is_completed_backup BackupPhase.other = false

-- Velero's Backup.
pub record Backup : Type 0 where
  pub name : String
  pub namespace : String
  pub creation_timestamp : ℕ
  pub included_namespaces : List String
  pub excluded_namespaces : List String
  pub phase : BackupPhase
  pub completion_timestamp : Option ℕ
  pub operations_attempted : ℤ
  pub operations_completed : ℤ
  pub operations_failed : ℤ
