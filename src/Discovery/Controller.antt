-- ===== src/Discovery/Controller.antt =====
-- internal/controller/virtualmachinebackupsdiscovery_controller.go: updateStatusWithRetry, the
-- handlers of a reconciliation and Reconcile. A handler's result is Go's `(requeue, err)`.

use oadp_vm_file_restore.Prelude.{
  is_empty, ℕ, zero, suc, ◌+◌, String, List, [], ◌++◌, Bool, true, false, ◌||◌, ◌&&◌, Option, none,
  some, length, take, map, pos, int_eq, is_pos, ◌==◌, if◌then◌else◌,
}
use oadp_vm_file_restore.Api.{
  Backup, BackupsDiscovery, DiscoverySpec, DiscoveryStatus, DiscoveryStatusOf, DiscoveryPhase,
  is_unset_phase, is_completed_phase, BackupDiscoveryProgress, Condition,
}
use oadp_vm_file_restore.Velero.Spec.{get_backup_timestamp}
use oadp_vm_file_restore.Velero.Contents.{ResourceList}
use oadp_vm_file_restore.Discovery.Cluster.{
  Cluster, not_found, conflict, other, Result, ok, err, M, ◌>>=◌,
}
use oadp_vm_file_restore.Discovery.TimeRange.{TimeFormats, parse_time_range}
use oadp_vm_file_restore.Discovery.Select.{
  select_candidates, Classified, classify_requested_backups, info_of,
}
use oadp_vm_file_restore.Discovery.Batch.{
  new_indices, find_stuck, reset_stuck, batch_size, start_batch, analyse, results_of, finish_batch,
}
use oadp_vm_file_restore.Discovery.Finalize.{finalized}

-- The reconciler, with the libraries that it calls.
pub record Reconciler : Type 1 where
  pub cluster : Cluster
  pub oadp_namespace : String
  -- BackupContentsReader, nil if not configured
  pub reader : Option (Backup → Option ResourceList)
  pub formats : TimeFormats
  -- meta.SetStatusCondition
  pub set_status_condition : List Condition → Condition → List Condition

-- A status with which a discovery starts afresh.
abbrev pub cleared : DiscoveryPhase → DiscoveryStatusOf → DiscoveryStatusOf
cleared phase s = record s {
  phase = phase;
  discovery_stats = none;
  backup_discovery_progress = [];
  valid_backups = [];
  invalid_backups = [];
  conditions = [];
}

unfoldable pub new_progress : String → ℕ → Backup → BackupDiscoveryProgress
new_progress ns now backup = record {
  info = info_of backup.name ns (get_backup_timestamp backup);
  status = DiscoveryStatus.new;
  message = "";
  last_updated = some now;
}

-- The status that initializeDiscovery computes from the candidates and the requested backups.
unfoldable pub initialized :
    String → ℕ → DiscoverySpec → List Backup → Classified → DiscoveryStatusOf → DiscoveryStatusOf
unfolding new_progress
initialized ns now spec candidates c s = record s {
  backup_discovery_progress = map (new_progress ns now) candidates ++ c.filtered_out_backups;
  discovery_stats = some (record {
    total_candidates =
        pos (length candidates + c.missing_backups_count + length c.filtered_out_backups);
    pending = pos (length candidates);
    in_progress = pos 0;
    completed = pos 0;
    skipped = pos (length c.filtered_out_backups);
    failed = pos c.missing_backups_count;
    start_time = some now;
    completion_time = none;
  });
  valid_backups = [];
  invalid_backups = if is_empty spec.requested_backups then [] else c.invalid_backups;
}

-- isDiscoveryComplete
unfoldable pub is_discovery_complete : DiscoveryStatusOf → Bool
is_discovery_complete s = elim s.discovery_stats [
  | none ↦ false
  | some stats ↦
      int_eq stats.pending (pos 0) && int_eq stats.in_progress (pos 0) && is_completed_phase s.phase
]

-- The steps that Reconcile chooses from.
pub data Step : Type 0 where
  initialize_phase initialize_discovery_process check_for_spec_changes process_discovery_batch
        finalize_discovery_process :
      Step

-- The switch of Reconcile.
unfoldable pub choose_step : BackupsDiscovery → Step
unfolding is_discovery_complete
choose_step vmbd =
    if is_unset_phase vmbd.status.phase
    then initialize_phase
    else elim vmbd.status.discovery_stats [
      | none ↦ initialize_discovery_process
      | some stats ↦
          if is_discovery_complete vmbd.status && vmbd.status.observed_generation == vmbd.generation
          then check_for_spec_changes
          else if is_discovery_complete vmbd.status
          then initialize_discovery_process
          else if is_pos stats.pending || is_pos stats.in_progress
          then process_discovery_batch
          else finalize_discovery_process
    ]

-- The list of the cluster failed: the phase is Failed.
abbrev pub failed_listing : BackupsDiscovery → BackupsDiscovery
failed_listing vmbd = record vmbd {
  status = record vmbd.status {
    phase = DiscoveryPhase.failed;
    observed_generation = vmbd.generation;
  };
}

-- The world is read, and not changed.
abbrev pub at_now : {W A : Type 0} → (W → A) → M W A
at_now f w = (w, ok (f w))

abbrev pub pure : {W A : Type 0} → A → M W A
pure a w = (w, ok a)

module _ (r : Reconciler) where
  open r use {cluster, oadp_namespace, reader, formats, set_status_condition}
  open cluster use {World, get, update_status, list_backups, get_backup, now}

  -- What follows an update, `is_last` telling whether a round is left.
  unfoldable pub after_update :
      Bool
      → (BackupsDiscovery → M World BackupsDiscovery)
      → (BackupsDiscovery → BackupsDiscovery)
      → BackupsDiscovery
      → World × Result BackupsDiscovery
      → World × Result BackupsDiscovery
  after_update is_last again after vmbd (w, ok updated) = (w, ok (after updated))
  after_update true again after vmbd (w, err conflict) = (w, err conflict)
  after_update false again after vmbd (w, err conflict) =
      (get >>= λ fresh. again (record fresh { status = vmbd.status })) w
  after_update is_last again after vmbd (w, err e) = (w, err e)

  -- The loop of updateStatusWithRetry with `tries` rounds left. `after` gives the caller's object
  -- once the update is done: the first update writes the server's answer to it, and a later one
  -- writes to the copy that the loop has fetched.
  unfoldable pub update_loop :
      ℕ
      → (BackupsDiscovery → BackupsDiscovery)
      → BackupsDiscovery
      → BackupsDiscovery
      → M World BackupsDiscovery
  update_loop zero after caller vmbd w = (w, err (other "failed to update status after 3 retries"))
  update_loop (suc tries) after caller vmbd w =
      after_update (tries == 0) (update_loop tries (λ _. caller) caller) after vmbd
        (update_status vmbd w)

  -- updateStatusWithRetry: the result is the caller's object afterwards.
  unfoldable pub update_status_with_retry : BackupsDiscovery → M World BackupsDiscovery
  unfolding update_loop after_update
  update_status_with_retry vmbd = update_loop 3 (λ updated. updated) vmbd vmbd

  abbrev pub write : BackupsDiscovery → Bool → M World Bool
  write vmbd requeue = update_status_with_retry vmbd >>= λ _. pure requeue

  -- initializePhase
  unfoldable pub initialize_phase_step : BackupsDiscovery → M World Bool
  initialize_phase_step vmbd =
      write (record vmbd { status = record vmbd.status { phase = DiscoveryPhase.new } }) true

  -- initializeDiscovery, once the backups are listed
  unfoldable pub start_discovery : BackupsDiscovery → List Backup → M World Bool
  start_discovery vmbd backups = do
    t ← at_now now
    range ← (λ w. (w, parse_time_range formats t vmbd.spec))
    write
        (record vmbd {
          status =
              initialized oadp_namespace t vmbd.spec
                (select_candidates range.0 range.1 vmbd.spec backups)
                (classify_requested_backups oadp_namespace t vmbd.spec backups) vmbd.status;
        })
        true

  -- the branch of initializeDiscovery on the result of the list
  unfoldable pub listed : BackupsDiscovery → World × Result (List Backup) → World × Result Bool
  unfolding start_discovery
  listed vmbd (w, ok backups) = start_discovery vmbd backups w
  listed vmbd (w, err e) =
      (update_status_with_retry (failed_listing vmbd) >>= λ _. (λ w'. (w', err e))) w

  unfoldable pub initialize_discovery : BackupsDiscovery → M World Bool
  unfolding listed
  initialize_discovery vmbd w = listed vmbd (list_backups w)

  -- initializeDiscoveryProcess
  unfoldable pub initialize_discovery_process_step : BackupsDiscovery → M World Bool
  unfolding initialize_discovery
  initialize_discovery_process_step vmbd =
      update_status_with_retry
        (record vmbd { status = cleared DiscoveryPhase.in_progress vmbd.status })
      >>= initialize_discovery

  -- The batch is written as in progress, examined, and written with its results.
  unfoldable pub examine_batch : BackupsDiscovery → List ℕ → M World Bool
  examine_batch vmbd batch = do
    t ← at_now now
    started ← update_status_with_retry (record vmbd { status = start_batch t batch vmbd.status })
    results ← at_now (λ w.
        results_of (analyse reader (λ name. get_backup name w) started.spec)
          started.status.backup_discovery_progress batch)
    t' ← at_now now
    write (record started { status = finish_batch t' results started.status }) true

  -- processDiscoveryBatch without a pending backup
  unfoldable pub retry_stuck : BackupsDiscovery → Option ℕ → M World Bool
  retry_stuck vmbd none = pure false
  retry_stuck vmbd (some i) = do
    t ← at_now now
    write (record vmbd { status = reset_stuck t i vmbd.status }) true

  -- processDiscoveryBatch
  unfoldable pub process_discovery_batch_step : BackupsDiscovery → M World Bool
  unfolding examine_batch retry_stuck
  process_discovery_batch_step vmbd =
      let pending = new_indices 0 vmbd.status.backup_discovery_progress in
      if is_empty pending
      then retry_stuck vmbd (find_stuck 0 vmbd.status.backup_discovery_progress)
      else examine_batch vmbd (take (batch_size pending) pending)

  -- finalizeDiscoveryProcess
  unfoldable pub finalize_discovery_process_step : BackupsDiscovery → M World Bool
  finalize_discovery_process_step vmbd = do
    t ← at_now now
    fresh ← get
    write
        (finalized set_status_condition oadp_namespace t vmbd.spec.requested_backups vmbd.status
          fresh)
        false

  -- checkForSpecChanges
  unfoldable pub check_for_spec_changes_step : BackupsDiscovery → M World Bool
  check_for_spec_changes_step vmbd =
      if vmbd.status.observed_generation == vmbd.generation
      then pure false
      else write
          (record vmbd {
            status = record (cleared DiscoveryPhase.new vmbd.status) { observed_generation = 0 };
          })
          true

  unfoldable pub run_step : Step → BackupsDiscovery → M World Bool
  unfolding initialize_phase_step initialize_discovery_process_step check_for_spec_changes_step
      process_discovery_batch_step finalize_discovery_process_step
  run_step initialize_phase = initialize_phase_step
  run_step initialize_discovery_process = initialize_discovery_process_step
  run_step check_for_spec_changes = check_for_spec_changes_step
  run_step process_discovery_batch = process_discovery_batch_step
  run_step finalize_discovery_process = finalize_discovery_process_step

  -- Reconcile after its first read: the step works on an object that is read afresh.
  unfoldable pub reconcile_found : World × Result BackupsDiscovery → World × Result Bool
  unfolding choose_step run_step
  reconcile_found (w, ok vmbd) = (get >>= run_step (choose_step vmbd)) w
  reconcile_found (w, err not_found) = (w, ok false)
  reconcile_found (w, err e) = (w, err e)

  unfoldable pub reconcile : M World Bool
  unfolding reconcile_found
  reconcile w = reconcile_found (get w)
