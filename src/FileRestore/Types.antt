-- ===== src/FileRestore/Types.antt =====
-- The resource types of api/v1alpha1/virtualmachinefilerestore_types.go, the names of
-- types/conditions.go and the states of types/backup_discovery.go.
use oadp_vm_file_restore.Prelude.{ℕ, String, str_eq, List, Option, Bool, true, if◌then◌else◌}
use oadp_vm_file_restore.Api.{Condition, PvcInfo}

-- VirtualMachineFileRestorePhase; `unset` is the empty string.
pub data FileRestorePhase : Type 0 where
  unset new in_progress completed partially_failed failed deleting : FileRestorePhase

pub record SecretReference : Type 0 where
  pub name : String
  pub namespace : String

pub record SshAccessSpec : Type 0 where
  pub username : String
  pub public_key : String
  pub credentials_secret_ref : Option SecretReference

pub record FileBrowserAccessSpec : Type 0 where
  pub credentials_secret_ref : Option SecretReference
  pub expose_externally : Bool

pub record FileAccessSpec : Type 0 where
  pub ssh : Option SshAccessSpec
  pub file_browser : Option FileBrowserAccessSpec

pub record FileRestoreSpec : Type 0 where
  pub backups_discovery_ref : String
  pub selected_backups : List String
  pub restore_namespace : String
  pub namespace_prefix : String
  pub file_access : Option FileAccessSpec

-- RestoreInfo; the phase of the Velero restore is Velero's text.
pub record RestoreInfo : Type 0 where
  pub velero_backup_name : String
  pub velero_backup_namespace : String
  pub timestamp : Option ℕ
  pub state : String
  pub velero_restore_name : String
  pub velero_restore_namespace : String
  pub phase : String
  pub created_at : Option ℕ
  pub completed_at : Option ℕ
  pub failure_reason : String

pub record PvcRestoreInfo : Type 0 where
  pub info : PvcInfo
  pub open info use *
  pub restores : List RestoreInfo

pub record SshServingInfo : Type 0 where
  pub cluster_access : String
  pub credentials_secret_ref : Option SecretReference

pub record FileBrowserServingInfo : Type 0 where
  pub cluster_access : String
  pub public_access : String
  pub credentials_secret_ref : Option SecretReference

pub record FileServingInfo : Type 0 where
  pub pod_name : String
  pub ssh : Option SshServingInfo
  pub file_browser : Option FileBrowserServingInfo

pub record FileRestoreStatus : Type 0 where
  pub phase : FileRestorePhase
  pub observed_generation : ℕ
  pub conditions : List Condition
  pub file_serving_info : Option FileServingInfo
  pub pvc_restores : List PvcRestoreInfo
  pub created_namespace : String

-- The resource, with the metadata that the controller reads.
pub record FileRestore : Type 0 where
  pub name : String
  pub namespace : String
  pub uid : String
  pub generation : ℕ
  pub deletion_timestamp : Option ℕ
  pub finalizers : List String
  pub spec : FileRestoreSpec
  pub status : FileRestoreStatus

-- BackupDiscoveryState, as it stands in a RestoreInfo.
abbrev pub available : String
available = "available"

abbrev pub backup_deleted : String
backup_deleted = "backup-deleted"

abbrev pub backup_missing : String
backup_missing = "backup-missing"

abbrev pub unsupported_plugin : String
unsupported_plugin = "unsupported-plugin"

abbrev pub extraction_failed : String
extraction_failed = "extraction-failed"

-- constant.BackupLevelFailurePVCName
abbrev pub backup_level_failure : String
backup_level_failure = "backup-level-failure"

abbrev pub velero_restore_cleanup_finalizer : String
velero_restore_cleanup_finalizer = "oadp.openshift.io/velero-restore-cleanup-finalizer"

abbrev pub vm_file_restore_finalizer : String
vm_file_restore_finalizer = "oadp.openshift.io/vm-file-restore-finalizer"

-- The reasons of the Progressing condition that mean a workflow is under way.
abbrev pub is_workflow_reason : String → Bool
is_workflow_reason reason =
    if str_eq reason "DiscoveringPVCs"
    then true
    else if str_eq reason "ValidationCompleted"
    then true
    else if str_eq reason "NamespaceReady"
    then true
    else if str_eq reason "WaitingForRestores"
    then true
    else if str_eq reason "RestoresCompleted"
    then true
    else if str_eq reason "CredentialsReady"
    then true
    else str_eq reason "WaitingForRoute"
