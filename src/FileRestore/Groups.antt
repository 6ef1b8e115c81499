-- ===== src/FileRestore/Groups.antt =====
-- internal/controller/virtualmachinefilerestore_controller.go: the grouping of
-- processDiscoveryResults, from results by backup to restores by PVC. `pvcMap` is an association
-- list, met in the order in which its keys were first set, where Go leaves the order open.
pub mod Keys
pub mod Entries
use oadp_vm_file_restore.Prelude.{
  String, ◌<>◌, contains, str_eq, List, [], ◌∷◌, ◌++◌, Bool, true, false, not, ◌&&◌, ◌||◌, Option,
  none, some, map, is_empty, if◌then◌else◌,
}
use oadp_vm_file_restore.Api.{PvcInfo, BackupDiscoveryProgress, DiscoveryStatus}
use oadp_vm_file_restore.Discovery.Select.{find, assign}
use oadp_vm_file_restore.FileRestore.Types.{
  RestoreInfo, PvcRestoreInfo, available, backup_deleted, backup_missing, unsupported_plugin,
  extraction_failed, backup_level_failure,
}
use oadp_vm_file_restore.FileRestore.Restores.{sort_restores_by_timestamp}

abbrev pub PvcMap : Type 0
PvcMap = List (String × PvcRestoreInfo)

-- The state of a failed backup, by its message.
unfoldable pub failure_state : String → String
failure_state message =
    if contains message "BackupNotFound" || contains message "backup CRD object deleted"
    then backup_deleted
    else if contains message "BackupFilesMissing" || contains message "Backup files missing"
    then backup_missing
    else if contains message "UnsupportedBackupFormat"
    then unsupported_plugin
    else extraction_failed

-- `none`: the backup is passed over.
unfoldable pub state_of : BackupDiscoveryProgress → Option String
unfolding failure_state
state_of b = elim b.status [
  | DiscoveryStatus.completed ↦ some available
  | DiscoveryStatus.failed ↦ some (failure_state b.message)
  | _ ↦ none
]

-- A failed backup without PVCs stands for itself.
abbrev pub is_backup_failure : BackupDiscoveryProgress → String → Bool
is_backup_failure b state = not (str_eq state available) && is_empty b.pvcs

abbrev pub synthetic_uid : BackupDiscoveryProgress → String
synthetic_uid b = "backup-failure-" <> b.namespace <> "-" <> b.name

unfoldable pub restore_info : BackupDiscoveryProgress → String → RestoreInfo
restore_info b state = record {
  velero_backup_name = b.name;
  velero_backup_namespace = b.namespace;
  timestamp = b.created_at;
  state = state;
  velero_restore_name = "";
  velero_restore_namespace = "";
  phase = "";
  created_at = none;
  completed_at = none;
  failure_reason = if str_eq state available then "" else b.message;
}

unfoldable pub synthetic_entry : BackupDiscoveryProgress → String → PvcRestoreInfo
unfolding restore_info
synthetic_entry b state = record {
  info = record {
    pvc_name = backup_level_failure;
    pvc_namespace = b.namespace;
    pvc_uid = synthetic_uid b;
    size = "N/A";
  };
  restores = record (restore_info b state) { failure_reason = b.message } ∷ [];
}

-- The entry of a PVC, which is made when the PVC is first seen.
unfoldable pub entry_of : PvcInfo → Option PvcRestoreInfo → PvcRestoreInfo
entry_of pvc none = record { info = pvc; restores = [] }
entry_of pvc (some e) = e

-- A round of the loop over a backup's PVCs.
unfoldable pub add_pvc : RestoreInfo → PvcInfo → PvcMap → PvcMap
unfolding entry_of
add_pvc r pvc m =
    let entry = entry_of pvc (find pvc.pvc_uid m) in
    assign pvc.pvc_uid (record entry { restores = entry.restores ++ r ∷ [] }) m

unfoldable pub add_pvcs : RestoreInfo → List PvcInfo → PvcMap → PvcMap
unfolding add_pvc
add_pvcs r [] m = m
add_pvcs r (pvc ∷ rest) m = add_pvcs r rest (add_pvc r pvc m)

unfoldable pub add_progress : BackupDiscoveryProgress → PvcMap → PvcMap
unfolding state_of synthetic_entry restore_info add_pvcs
add_progress b m = elim (state_of b) [
  | none ↦ m
  | some state ↦
      if is_backup_failure b state
      then assign (synthetic_uid b) (synthetic_entry b state) m
      else add_pvcs (restore_info b state) b.pvcs m
]

unfoldable pub group_by_pvc : List BackupDiscoveryProgress → PvcMap → PvcMap
unfolding add_progress
group_by_pvc [] m = m
group_by_pvc (b ∷ rest) m = group_by_pvc rest (add_progress b m)

-- `pvcRestores`
unfoldable pub pvc_restores_of : List BackupDiscoveryProgress → List PvcRestoreInfo
unfolding group_by_pvc sort_restores_by_timestamp
pvc_restores_of results =
    map
      (λ (entry : String × PvcRestoreInfo). record entry.1 {
        restores = sort_restores_by_timestamp entry.1.restores;
      })
      (group_by_pvc results [])
