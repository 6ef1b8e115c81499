-- ===== src/FileRestore/Extract.antt =====
-- internal/controller/virtualmachinefilerestore_controller.go: what a worker does for a backup,
-- from getBackupMetadata to discoverPVCsFromSingleBackup.
pub mod Fetching
use oadp_vm_file_restore.Prelude.{
  ℕ, String, ◌<>◌, str_eq, contains, List, [], ◌∷◌, ◌++◌, Bool, true, false, Option, none, some,
  any, is_empty, length, pos, if◌then◌else◌,
}
use oadp_vm_file_restore.Api.{
  Backup, BackupsDiscovery, BackupDiscoveryProgress, DiscoveryStatus, PvcInfo, VeleroBackupInfo,
}
use oadp_vm_file_restore.Discovery.Cluster.{
  Error, error_text, not_found, conflict, other, Result, ok, err,
}
use oadp_vm_file_restore.Discovery.Select.{find}
use oadp_vm_file_restore.Velero.Spec.{
  backup_async_operations_incomplete, backup_async_operations_reason, get_backup_timestamp, itoa,
}
use oadp_vm_file_restore.FileRestore.Client.{Pvc, Volume, BackupReader, Client}

-- ErrUnsupportedBackup, or any other error.
pub data ExtractError : Type 0 where
  unsupported : PvcInfo → String → ExtractError
  failure : String → ExtractError

pub data Extracted (A : Type 0) : Type 0 where
  extracted : A → Extracted A
  refused : ExtractError → Extracted A

abbrev pub and_then : {A B : Type 0} → Extracted A → (A → Extracted B) → Extracted B
and_then (extracted a) f = f a
and_then (refused e) f = refused e

-- The outcome of getVeleroBackup: errors.IsNotFound of the error, and its text.
pub data Fetched : Type 0 where
  fetched : Backup → Fetched
  not_fetched : Bool → String → Fetched

abbrev pub is_not_found : Error → Bool
is_not_found not_found = true
is_not_found _ = false

abbrev pub pvc_uid_label : String
pvc_uid_label = "velero.kubevirt.io/pvc-uid"

-- A name that is set in the map of names.
abbrev pub add_name : List String → Option String → List String
add_name names none = names
add_name names (some n) = if any (λ m. str_eq m n) names then names else names ++ n ∷ []

-- The loop over the volumes; the map of names is met in the order in which they were set.
unfoldable pub volume_names : List Volume → List String → List String
volume_names [] names = names
volume_names (v ∷ rest) names =
    volume_names rest (add_name (add_name names v.claim_name) v.data_volume)

module _ (c : Client) where
  open c use {World, get_backup, now, quantity_text, reader}

  unfoldable pub get_velero_backup : String → String → World → Fetched
  get_velero_backup name namespace w = elim (get_backup name namespace w) [
    | ok b ↦ fetched b
    | err e ↦ not_fetched (is_not_found e) (
        "failed to get Velero backup "
        <> name
        <> " in namespace "
        <> namespace
        <> ": "
        <> error_text e)
  ]

  unfoldable pub get_backup_metadata : VeleroBackupInfo → World → Result BackupDiscoveryProgress
  unfolding get_velero_backup
  get_backup_metadata info w = elim (get_velero_backup info.name info.namespace w) [
    | not_fetched true text ↦ err (other "backup CRD object deleted from cluster")
    | not_fetched false text ↦ err (other ("failed to get Velero backup metadata: " <> text))
    | fetched backup ↦
        if backup_async_operations_incomplete backup
        then (let reason = backup_async_operations_reason backup in
            err (
              other
                (if str_eq reason "" then "backup has incomplete async operations" else reason)))
        else ok (record {
          info = record {
            name = info.name;
            namespace = info.namespace;
            created_at = get_backup_timestamp backup;
            pvcs = [];
          };
          status = DiscoveryStatus.in_progress;
          message = "Extracting PVC information";
          last_updated = some (now w);
        })
  ]

  format_size_human_readable : ℕ → String
  format_size_human_readable quantity = quantity_text quantity

  unfoldable pub pvc_info : Pvc → PvcInfo
  unfolding format_size_human_readable
  pvc_info pvc = record {
    pvc_name = pvc.name;
    pvc_namespace = pvc.namespace;
    pvc_uid = pvc.uid;
    size = elim pvc.storage_request [ none ↦ "" | some q ↦ format_size_human_readable q ];
  }

  -- The checks on a PVC's labels.
  unfoldable pub check_label : Pvc → Option String → Extracted PvcInfo
  unfolding pvc_info
  check_label pvc none = refused (
      unsupported (pvc_info pvc) (
        "PVC missing required label '" <> pvc_uid_label
        <> "' - backup created with plugin not compatible with vmfr"))
  check_label pvc (some label) =
      if str_eq label pvc.uid
      then extracted (pvc_info pvc)
      else refused (
          unsupported (pvc_info pvc) (
            "PVC UID label mismatch (label: " <> label <> ", actual: " <> pvc.uid
            <> ") - backup metadata corrupted or created with incompatible plugin"))

  unfoldable pub check_labels : Pvc → Option (List (String × String)) → Extracted PvcInfo
  unfolding check_label
  check_labels pvc none = refused (
      unsupported (pvc_info pvc)
        "PVC missing labels - backup created with plugin not compatible with vmfr")
  check_labels pvc (some labels) = check_label pvc (find pvc_uid_label labels)

  -- The manifest of a PVC, once it is fetched.
  unfoldable pub check_fetched : String → Result Pvc → Extracted PvcInfo
  unfolding check_labels
  check_fetched name (err e) =
      refused (failure ("failed to fetch PVC " <> name <> " from backup: " <> error_text e))
  check_fetched name (ok pvc) = check_labels pvc pvc.labels

  -- The loop over the names of the PVCs.
  unfoldable pub fetch_pvcs :
      BackupReader → Backup → String → List String → List PvcInfo → Extracted (List PvcInfo)
  unfolding check_fetched
  fetch_pvcs reader backup namespace [] infos = extracted infos
  fetch_pvcs reader backup namespace (name ∷ rest) infos =
      and_then (check_fetched name (reader.fetch_pvc backup name namespace))
        (λ info. fetch_pvcs reader backup namespace rest (infos ++ info ∷ []))

  unfoldable pub extract_pvcs_for_given_vm_from_backup :
      String → String → String → String → World → Extracted (List PvcInfo)
  unfolding get_velero_backup volume_names fetch_pvcs
  extract_pvcs_for_given_vm_from_backup name namespace vm_name vm_namespace w = elim reader [
    | none ↦ refused (failure "backup contents reader not configured")
    | some reader ↦ elim (get_velero_backup name namespace w) [
      | not_fetched missing text ↦
          refused (failure ("failed to get Velero backup " <> name <> ": " <> text))
      | fetched backup ↦ elim (reader.extract_vm backup vm_name vm_namespace) [
        | err e ↦ refused (failure ("failed to extract VM from backup: " <> error_text e))
        | ok none ↦ extracted []
        | ok (some none) ↦ extracted []
        | ok (some (some volumes)) ↦
            fetch_pvcs reader backup vm_namespace (volume_names volumes []) []
      ]
    ]
  ]

  unfoldable pub build_failed_progress :
      VeleroBackupInfo → String → String → World → BackupDiscoveryProgress
  build_failed_progress info reason message w = record {
    info = record { name = info.name; namespace = info.namespace; created_at = none; pvcs = [] };
    status = DiscoveryStatus.failed;
    message = reason <> ": " <> message;
    last_updated = some (now w);
  }

  -- The result that follows from the metadata and the extraction.
  unfoldable pub extraction_progress :
      VeleroBackupInfo
      → BackupDiscoveryProgress
      → World
      → Extracted (List PvcInfo)
      → BackupDiscoveryProgress
  unfolding build_failed_progress
  extraction_progress info progress w (extracted pvcs) = record progress {
    info = record progress.info { pvcs = pvcs };
    status = DiscoveryStatus.completed;
    message = "Successfully discovered " <> itoa (pos (length pvcs)) <> " PVCs";
    last_updated = some (now w);
  }
  extraction_progress info progress w (refused (unsupported pvc reason)) = record progress {
    info = record progress.info { pvcs = pvc ∷ [] };
    status = DiscoveryStatus.failed;
    message = "UnsupportedBackupFormat: " <> reason;
    last_updated = some (now w);
  }
  extraction_progress info progress w (refused (failure message)) =
      if contains message "file not found"
      then build_failed_progress info "BackupFilesMissing" "Backup files missing from storage" w
      else build_failed_progress info "ExtractionFailed" message w

  unfoldable pub after_metadata :
      VeleroBackupInfo
      → BackupsDiscovery
      → World
      → Result BackupDiscoveryProgress
      → BackupDiscoveryProgress
  unfolding extract_pvcs_for_given_vm_from_backup build_failed_progress extraction_progress
  after_metadata info vmbd w (err e) = build_failed_progress info "BackupNotFound" (error_text e) w
  after_metadata info vmbd w (ok progress) = extraction_progress info progress w (
      extract_pvcs_for_given_vm_from_backup info.name info.namespace vmbd.spec.virtual_machine_name
        vmbd.spec.virtual_machine_namespace w)

  unfoldable pub discover_pvcs_from_single_backup :
      VeleroBackupInfo → BackupsDiscovery → World → BackupDiscoveryProgress
  unfolding get_backup_metadata after_metadata
  discover_pvcs_from_single_backup info vmbd w =
      after_metadata info vmbd w (get_backup_metadata info w)
