-- ===== src/Discovery/Batch.antt =====
-- internal/controller/virtualmachinebackupsdiscovery_controller.go: the parts of
-- processDiscoveryBatch between the calls of the cluster. An index out of range, at which Go
-- panics, changes nothing here; the indices come from the list that they index.
pub mod Blocks
pub mod Results
pub mod Examined
use mathlib.Core.Option
use oadp_vm_file_restore.Prelude.{
  ℕ, suc, ◌%◌, String, ◌<>◌, List, [], ◌∷◌, ◌++◌, Option, none, some, length, get_elem?, modify,
  replicate, ltb, if◌then◌else◌, pos, ◌+ℤ◌, ◌-ℤ◌,
}
use oadp_vm_file_restore.Api.{
  Backup, DiscoverySpec, VeleroBackupInfo, DiscoveryStatus, is_new, is_in_progress, is_completed,
  BackupDiscoveryProgress, DiscoveryStatistics, DiscoveryStatusOf,
}
use oadp_vm_file_restore.Velero.Contents.{ResourceList, backup_contains_vm}
use oadp_vm_file_restore.Discovery.Cluster.{Result, ok, err, not_found, error_text}

-- constant.BackupDiscoveryBatchSize
abbrev pub backup_discovery_batch_size : ℕ
backup_discovery_batch_size = 3

-- The indices of the entries with status New, the first entry having the index `i`.
unfoldable pub new_indices : ℕ → List BackupDiscoveryProgress → List ℕ
new_indices i [] = []
new_indices i (backup ∷ rest) =
    if is_new backup.status then i ∷ new_indices (suc i) rest else new_indices (suc i) rest

-- The first entry with status InProgress.
unfoldable pub find_stuck : ℕ → List BackupDiscoveryProgress → Option ℕ
find_stuck i [] = none
find_stuck i (backup ∷ rest) =
    if is_in_progress backup.status then some i else find_stuck (suc i) rest

-- The reset of a stuck entry for another try. Statistics that are nil, at which Go panics, stay nil.
unfoldable pub reset_stuck : ℕ → ℕ → DiscoveryStatusOf → DiscoveryStatusOf
reset_stuck now i s = record s {
  backup_discovery_progress = modify s.backup_discovery_progress i (λ b. record b {
    status = DiscoveryStatus.new;
    message = "Retrying stuck backup analysis";
    last_updated = some now;
  });
  discovery_stats =
      Option.map
        (λ (t : DiscoveryStatistics). record t {
          in_progress = t.in_progress -ℤ pos 1;
          pending = t.pending +ℤ pos 1;
        })
        s.discovery_stats;
}

abbrev pub in_progress_entry : ℕ → BackupDiscoveryProgress → BackupDiscoveryProgress
in_progress_entry now b = record b {
  status = DiscoveryStatus.in_progress;
  message = "Analyzing backup contents";
  last_updated = some now;
}

-- `batchSize`
unfoldable pub batch_size : List ℕ → ℕ
batch_size pending =
    if ltb (length pending) backup_discovery_batch_size
    then length pending
    else backup_discovery_batch_size

unfoldable pub mark_batch : ℕ → List ℕ → List BackupDiscoveryProgress → List BackupDiscoveryProgress
mark_batch now [] progress = progress
mark_batch now (i ∷ batch) progress =
    mark_batch now batch (modify progress i (in_progress_entry now))

-- The batch is marked and counted as in progress.
unfoldable pub start_batch : ℕ → List ℕ → DiscoveryStatusOf → DiscoveryStatusOf
unfolding mark_batch
start_batch now batch s = record s {
  backup_discovery_progress = mark_batch now batch s.backup_discovery_progress;
  discovery_stats =
      Option.map
        (λ (t : DiscoveryStatistics). record t {
          pending = t.pending -ℤ pos (length batch);
          in_progress = t.in_progress +ℤ pos (length batch);
        })
        s.discovery_stats;
}

-- What a worker finds out about a backup. `reader` is the contents reader, nil if not configured;
-- the error of BackupContainsVM is always nil.
unfoldable pub analyse :
    Option (Backup → Option ResourceList)
    → (String → Result Backup)
    → DiscoverySpec
    → VeleroBackupInfo
    → DiscoveryStatus × String
analyse none get_backup spec info =
    (DiscoveryStatus.failed, "Backup contents reader not configured")
analyse (some fetch) get_backup spec info = elim (get_backup info.name) [
  | err not_found ↦ (DiscoveryStatus.failed, "Backup not found in cluster")
  | err e ↦ (DiscoveryStatus.failed, "Failed to fetch backup: " <> error_text e)
  | ok backup ↦
      if backup_contains_vm fetch backup spec.virtual_machine_name spec.virtual_machine_namespace
      then (DiscoveryStatus.completed, "VM found in backup")
      else (DiscoveryStatus.skipped, "VM not found in backup")
]

-- An element of `results`.
pub record Slot : Type 0 where
  pub idx : ℕ
  pub status : DiscoveryStatus
  pub message : String

abbrev pub empty_slot : Slot
empty_slot = record { idx = 0; status = DiscoveryStatus.unset; message = "" }

module _ (judge : VeleroBackupInfo → DiscoveryStatus × String) where
  unfoldable pub slot_of : ℕ → VeleroBackupInfo → Slot
  slot_of i info =
      let (status, message) = judge info in record { idx = i; status = status; message = message }

  -- The workers write `results[idx % batchSize]`; here they write in the order of the batch.
  unfoldable pub run_workers : ℕ → List BackupDiscoveryProgress → List ℕ → List Slot → List Slot
  unfolding slot_of
  run_workers size progress [] results = results
  run_workers size progress (i ∷ batch) results =
      run_workers size progress batch (elim (get_elem? progress i) [
        | none ↦ results
        | some b ↦ modify results (i % size) (λ _. slot_of i b.info)
      ])

  unfoldable pub results_of : List BackupDiscoveryProgress → List ℕ → List Slot
  unfolding run_workers
  results_of progress batch =
      run_workers (length batch) progress batch (replicate (length batch) empty_slot)

unfoldable pub write_result : ℕ → Slot → BackupDiscoveryProgress → BackupDiscoveryProgress
write_result now slot b = record b {
  status = slot.status;
  message = slot.message;
  last_updated = some now;
}

-- The loop that updates the results, with the backups found so far.
unfoldable pub update_results :
    ℕ
    → List Slot
    → List BackupDiscoveryProgress
    → List VeleroBackupInfo
    → List BackupDiscoveryProgress × List VeleroBackupInfo
unfolding write_result
update_results now [] progress found = (progress, found)
update_results now (slot ∷ slots) progress found =
    let written = modify progress slot.idx (write_result now slot) in
    update_results now slots written (
      if is_completed slot.status
      then elim (get_elem? written slot.idx) [ none ↦ found | some b ↦ found ++ b.info ∷ [] ]
      else found)

unfoldable pub count_result : DiscoveryStatus → DiscoveryStatistics → DiscoveryStatistics
count_result DiscoveryStatus.completed t = record t { completed = t.completed +ℤ pos 1 }
count_result DiscoveryStatus.skipped t = record t { skipped = t.skipped +ℤ pos 1 }
count_result DiscoveryStatus.failed t = record t { failed = t.failed +ℤ pos 1 }
count_result _ t = t

unfoldable pub count_results : List Slot → DiscoveryStatistics → DiscoveryStatistics
unfolding count_result
count_results [] t = t
count_results (slot ∷ slots) t = count_results slots (count_result slot.status t)

-- The results are written back and counted.
unfoldable pub finish_batch : ℕ → List Slot → DiscoveryStatusOf → DiscoveryStatusOf
unfolding update_results count_results
finish_batch now results s =
    let (progress, found) = update_results now results s.backup_discovery_progress [] in
    record s {
      backup_discovery_progress = progress;
      valid_backups = s.valid_backups ++ found;
      discovery_stats =
          Option.map
            (λ (t : DiscoveryStatistics).
              count_results results
                (record t { in_progress = t.in_progress -ℤ pos (length results) }))
            s.discovery_stats;
    }
