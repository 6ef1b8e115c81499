-- ===== src/Discovery/Select.antt =====
-- internal/controller/virtualmachinebackupsdiscovery_controller.go: the choice of the candidate
-- backups in initializeDiscovery, and classifyRequestedBackups. A Go map is an association list;
-- it is met in the order in which its keys were first set, where Go leaves the order open.
pub mod Candidates
pub mod Maps
pub mod Classification
use oadp_vm_file_restore.Prelude.{
  is_empty, ℕ, suc, String, str_eq, List, [], ◌∷◌, Bool, true, false, not, ◌&&◌, ◌||◌, Option, none,
  some, any, keep, ltb, if◌then◌else◌, is_some,
}
use oadp_vm_file_restore.Api.{
  Backup, is_completed_backup, DiscoverySpec, VeleroBackupInfo, InvalidBackupInfo, DiscoveryStatus,
  BackupDiscoveryProgress,
}
use oadp_vm_file_restore.Velero.Spec.{
  validate_vm_in_backup_spec, backup_async_operations_incomplete, backup_async_operations_reason,
  get_backup_timestamp,
}

-- Time range and explicit list together include by either; one alone, by that one.
unfoldable pub should_include : ℕ → ℕ → DiscoverySpec → Backup → Bool
should_include start_time end_time spec backup =
    let include_by_time =
      not (ltb backup.creation_timestamp start_time)
      && not (ltb end_time backup.creation_timestamp) in
    let include_by_explicit_list =
      any (λ requested. str_eq backup.name requested) spec.requested_backups in
    let has_time_range = is_some spec.start_time || is_some spec.end_time in
    let has_explicit_list = not (is_empty spec.requested_backups) in
    if has_explicit_list && has_time_range
    then include_by_explicit_list || include_by_time
    else if has_explicit_list
    then include_by_explicit_list
    else include_by_time

-- A round of the filter loop.
unfoldable pub is_candidate : ℕ → ℕ → DiscoverySpec → Backup → Bool
unfolding should_include
is_candidate start_time end_time spec backup =
    if not (is_completed_backup backup.phase)
    then false
    else if backup_async_operations_incomplete backup
    then false
    else if not (should_include start_time end_time spec backup)
    then false
    else validate_vm_in_backup_spec backup spec.virtual_machine_namespace

-- sort.Slice by creation time, newest first
unfoldable pub insert_newest : Backup → List Backup → List Backup
insert_newest b [] = b ∷ []
insert_newest b (c ∷ cs) =
    if ltb b.creation_timestamp c.creation_timestamp then c ∷ insert_newest b cs else b ∷ c ∷ cs

unfoldable pub sort_newest : List Backup → List Backup
unfolding insert_newest
sort_newest [] = []
sort_newest (b ∷ bs) = insert_newest b (sort_newest bs)

unfoldable pub select_candidates : ℕ → ℕ → DiscoverySpec → List Backup → List Backup
unfolding is_candidate sort_newest
select_candidates start_time end_time spec backups =
    sort_newest (keep (is_candidate start_time end_time spec) backups)

-- `m[k]` and `m[k] = v`
module _ {ℓ} {V : Type ℓ} where
  abbrev pub find : String → List (String × V) → Option V
  find k [] = none
  find k ((j, v) ∷ m) = if str_eq j k then some v else find k m

  abbrev pub assign : String → V → List (String × V) → List (String × V)
  assign k v [] = (k, v) ∷ []
  assign k v ((j, w) ∷ m) = if str_eq j k then (j, v) ∷ m else (j, w) ∷ assign k v m

-- The values of `requestedBackupsStatus`.
pub data RequestedStatus : Type 0 where
  missing filtered candidate async_incomplete : RequestedStatus

unfoldable pub mark_missing :
    List String → List (String × RequestedStatus) → List (String × RequestedStatus)
mark_missing [] m = m
mark_missing (requested ∷ rest) m = mark_missing rest (assign requested missing m)

unfoldable pub status_of_backup : String → Backup → RequestedStatus
status_of_backup vm_namespace backup =
    if backup_async_operations_incomplete backup
    then async_incomplete
    else if validate_vm_in_backup_spec backup vm_namespace
    then candidate
    else filtered

-- The two maps of the loop over the cluster's backups.
abbrev pub Maps : Type 0
Maps = List (String × RequestedStatus) × List (String × Backup)

unfoldable pub check_backup : String → Backup → Maps → Maps
unfolding status_of_backup
check_backup vm_namespace backup (statuses, refs) =
    if is_some (find backup.name statuses)
    then (
      assign backup.name (status_of_backup vm_namespace backup) statuses,
      assign backup.name backup refs,
    )
    else (statuses, refs)

unfoldable pub check_backups : String → List Backup → Maps → Maps
unfolding check_backup
check_backups vm_namespace [] maps = maps
check_backups vm_namespace (backup ∷ rest) maps =
    check_backups vm_namespace rest (check_backup vm_namespace backup maps)

pub record Classified : Type 0 where
  pub invalid_backups : List InvalidBackupInfo
  pub missing_backups_count : ℕ
  pub filtered_out_backups : List BackupDiscoveryProgress

abbrev pub info_of : String → String → Option ℕ → VeleroBackupInfo
info_of name namespace created_at = record {
  name = name;
  namespace = namespace;
  created_at = created_at;
  pvcs = [];
}

abbrev pub not_found_info : String → String → InvalidBackupInfo
not_found_info oadp_namespace name = record {
  info = info_of name oadp_namespace none;
  reason = "Backup not found in cluster";
}

unfoldable pub filtered_progress : String → ℕ → String → BackupDiscoveryProgress
filtered_progress oadp_namespace now name = record {
  info = info_of name oadp_namespace none;
  status = DiscoveryStatus.skipped;
  message = "Backup doesn't include target VM namespace";
  last_updated = some now;
}

-- A status `async_incomplete` is set along with the reference, so the pointer is not nil there.
unfoldable pub async_info : String → String → Option Backup → InvalidBackupInfo
async_info oadp_namespace name none = record {
  info = info_of name oadp_namespace none;
  reason = "Backup has incomplete async operations";
}
async_info oadp_namespace name (some backup) = record {
  info = info_of name oadp_namespace (get_backup_timestamp backup);
  reason =
      (let reason = backup_async_operations_reason backup in
        if str_eq reason "" then "Backup has incomplete async operations" else reason);
}

-- A round of the loop over the results, in front of what the later rounds give.
unfoldable pub add_status :
    String → ℕ → List (String × Backup) → String → RequestedStatus → Classified → Classified
unfolding filtered_progress async_info
add_status ns now refs name missing c = record c {
  invalid_backups = not_found_info ns name ∷ c.invalid_backups;
  missing_backups_count = suc c.missing_backups_count;
}
add_status ns now refs name filtered c = record c {
  filtered_out_backups = filtered_progress ns now name ∷ c.filtered_out_backups;
}
add_status ns now refs name async_incomplete c = record c {
  invalid_backups = async_info ns name (find name refs) ∷ c.invalid_backups;
}
add_status ns now refs name candidate c = c

unfoldable pub collect_statuses :
    String → ℕ → List (String × Backup) → List (String × RequestedStatus) → Classified
unfolding add_status
collect_statuses ns now refs [] = record {
  invalid_backups = [];
  missing_backups_count = 0;
  filtered_out_backups = [];
}
collect_statuses ns now refs ((name, status) ∷ rest) =
    add_status ns now refs name status (collect_statuses ns now refs rest)

unfoldable pub classify_requested_backups : String → ℕ → DiscoverySpec → List Backup → Classified
unfolding mark_missing check_backups collect_statuses
classify_requested_backups oadp_namespace now spec backups =
    let (statuses, refs) =
      check_backups spec.virtual_machine_namespace backups
        (mark_missing spec.requested_backups [], []) in
    collect_statuses oadp_namespace now refs statuses
