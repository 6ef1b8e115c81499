-- ===== src/Discovery/Finalize.antt =====
-- internal/controller/virtualmachinebackupsdiscovery_controller.go: the lists that
-- finalizeDiscoveryProcess computes. A Go map from names to true is the list of its names.
pub mod Reports
pub mod Unready
use mathlib.Core.Option
use oadp_vm_file_restore.Prelude.{
  is_empty, ℕ, String, ◌<>◌, str_eq, List, [], ◌∷◌, ◌++◌, Bool, true, false, not, ◌&&◌, some, any,
  keep, length, map, pos, if◌then◌else◌,
}
use oadp_vm_file_restore.Api.{
  VeleroBackupInfo, InvalidBackupInfo, is_completed, BackupDiscoveryProgress, DiscoveryPhase,
  DiscoveryStatistics, DiscoveryStatusOf, BackupsDiscovery, Condition,
}
use oadp_vm_file_restore.Velero.Spec.{itoa}
use oadp_vm_file_restore.Discovery.Select.{not_found_info}

unfoldable pub valid_of : List BackupDiscoveryProgress → List VeleroBackupInfo
valid_of [] = []
valid_of (b ∷ rest) = if is_completed b.status then b.info ∷ valid_of rest else valid_of rest

unfoldable pub invalid_of : List BackupDiscoveryProgress → List InvalidBackupInfo
invalid_of [] = []
invalid_of (b ∷ rest) =
    if is_completed b.status
    then invalid_of rest
    else record { info = b.info; reason = b.message } ∷ invalid_of rest

-- `relevantExistingInvalidBackups`
unfoldable pub relevant_existing : List String → List InvalidBackupInfo → List InvalidBackupInfo
relevant_existing requested existing = keep (λ i. any (λ n. str_eq n i.name) requested) existing

abbrev pub has_invalid : String → List InvalidBackupInfo → Bool
has_invalid name l = any (λ i. str_eq i.name name) l

abbrev pub has_progress : String → List BackupDiscoveryProgress → Bool
has_progress name l = any (λ b. str_eq b.name name) l

-- `missingBackups`
unfoldable pub missing_of :
    String
    → List String
    → List BackupDiscoveryProgress
    → List InvalidBackupInfo
    → List InvalidBackupInfo
missing_of ns requested progress existing =
    map (not_found_info ns)
      (keep (λ n. not (has_progress n progress) && not (has_invalid n existing)) requested)

-- `allInvalidBackups`
unfoldable pub all_invalid : String → List String → DiscoveryStatusOf → List InvalidBackupInfo
unfolding invalid_of relevant_existing missing_of
all_invalid ns requested s =
    let existing = relevant_existing requested s.invalid_backups in
    existing
    ++ (keep (λ i. not (has_invalid i.name existing)) (invalid_of s.backup_discovery_progress)
        ++ missing_of ns requested s.backup_discovery_progress existing)

ready_condition : ℕ → List VeleroBackupInfo → Condition
ready_condition now valid =
    if is_empty valid
    then record {
      type = "Ready";
      status = false;
      reason = "NoValidBackups";
      message = "No backups found containing the specified virtual machine";
      last_transition_time = now;
    }
    else record {
      type = "Ready";
      status = true;
      reason = "DiscoverySuccessful";
      message = "Successfully discovered " <> itoa (pos (length valid)) <> " valid backups";
      last_transition_time = now;
    }

-- The changes are computed from the status `s` and applied to the object that was read afresh. The
-- same changes of the object in hand are not written, and so have no part here.
unfoldable pub finalized :
    (List Condition → Condition → List Condition)
    → String
    → ℕ
    → List String
    → DiscoveryStatusOf
    → BackupsDiscovery
    → BackupsDiscovery
unfolding valid_of all_invalid ready_condition
finalized set_status_condition ns now requested s fresh = record fresh {
  status = record fresh.status {
    discovery_stats =
        Option.map (λ (t : DiscoveryStatistics). record t { completion_time = some now })
          fresh.status.discovery_stats;
    valid_backups = valid_of s.backup_discovery_progress;
    invalid_backups = all_invalid ns requested s;
    phase = DiscoveryPhase.completed;
    observed_generation = fresh.generation;
    conditions =
        set_status_condition fresh.status.conditions
          (ready_condition now (valid_of s.backup_discovery_progress));
  };
}
