-- ===== src/Tests/Discovery.antt =====
-- The discovery at concrete inputs.
use mathlib.Core.List.{Mem, List}
use oadp_vm_file_restore.Prelude.{
  ◌+◌, ◌*◌, String, [], ◌∷◌, map, Perm, none, some, true, false, ◌||◌, ◌≡◌, ◌⊎◌, ◌↔◌, refl, subst,
  sym, ap, pos, keep, count_if, arith,
}
use oadp_vm_file_restore.Discovery.Select.{not_found_info}
use oadp_vm_file_restore.Api.{
  DiscoverySpec, BackupPhase, Backup, BackupsDiscovery, DiscoveryPhase, DiscoveryStatistics,
  DiscoveryStatus, VeleroBackupInfo, is_completed_backup,
}
use oadp_vm_file_restore.Velero.Spec.{
  validate_vm_in_backup_spec, backup_async_operations_incomplete,
}
use oadp_vm_file_restore.Discovery.Cluster.{ok}
use oadp_vm_file_restore.Discovery.TimeRange.{utc, day, second, time, parse_time_range}
use oadp_vm_file_restore.Discovery.TimeRange.Laws.{parse_time_range_lem}
use oadp_vm_file_restore.Discovery.Select.{
  select_candidates, is_candidate, classify_requested_backups, filtered_progress,
}
use oadp_vm_file_restore.Discovery.Select.Candidates.{
  AskedFor, is_candidate_iff, NewestFirst, select_candidates_lem,
}
use oadp_vm_file_restore.Discovery.Select.Maps.{names_of, last_named}
use oadp_vm_file_restore.Discovery.Select.Classification.{
  reports, verdict, is_missing, is_filtered, classify_requested_backups_lem,
}
use oadp_vm_file_restore.Discovery.Batch.Results.{Examined}
use oadp_vm_file_restore.Discovery.Batch.Examined.{batch-Examined}
use oadp_vm_file_restore.Discovery.Finalize.{finalized, all_invalid, has_invalid}
use oadp_vm_file_restore.Discovery.Finalize.Reports.{has_valid, finalized-Names}
use oadp_vm_file_restore.Discovery.Finalize.Unready.{all_invalid-not_found_info}
use oadp_vm_file_restore.Discovery.Controller.{
  initialized, reconcile, update_status_with_retry, new_progress,
}
use oadp_vm_file_restore.Discovery.Invariant.{IsSound}
use oadp_vm_file_restore.Discovery.Reconcile.Triple.{Returns}
use oadp_vm_file_restore.Discovery.Reconcile.Sound.{reconcile-IsSound}
use oadp_vm_file_restore.Discovery.Reconcile.Settled.{finalized-unnoticed}
use oadp_vm_file_restore.Discovery.Reconcile.Update.{update_status_with_retry_lem}
use oadp_vm_file_restore.Tests.World.{
  nightly, weekly, spec, status, discovery, server, formats, are_formats, reconciler,
}

discovery-IsSound : IsSound status
discovery-IsSound = record {
  counts = refl;
  blocks = record {
    before = [];
    block = [];
    after = [];
    split = refl;
    before_done = tt;
    block_new = tt;
    after_done = tt;
  };
}

reconcile-IsSound_example : IsSound (reconcile reconciler discovery).0.status
unfolding server
reconcile-IsSound_example =
    reconcile-IsSound reconciler server discovery
      (λ o e. subst IsSound (sym (ap (λ p. p.status) e)) discovery-IsSound)
      (reconcile reconciler discovery).0 refl

-- The status that is to be written is another than the stored one.
abbrev in_progress : BackupsDiscovery
in_progress = record discovery { status = record status { phase = DiscoveryPhase.in_progress } }

update_status_with_retry_lem_example :
    ((o : BackupsDiscovery)
      → server.seen (update_status_with_retry reconciler in_progress discovery).0 o
      → (o.status ≡ in_progress.status)
        ⊎ ((p : BackupsDiscovery) × server.seen discovery p × (o.status ≡ p.status)))
    × Returns
        (λ o. o.status ≡ in_progress.status)
        (update_status_with_retry reconciler in_progress discovery).1
    × Returns
        (λ _.
          (o : BackupsDiscovery) × server.seen
            (update_status_with_retry reconciler in_progress discovery).0
            o
          × (o.status ≡ in_progress.status))
        (update_status_with_retry reconciler in_progress discovery).1
update_status_with_retry_lem_example =
    update_status_with_retry_lem reconciler server in_progress discovery

abbrev stats : DiscoveryStatistics
stats = record {
  total_candidates = pos 1;
  start_time = none;
  completion_time = none;
  pending = pos 0;
  in_progress = pos 0;
  completed = pos 0;
  skipped = pos 0;
  failed = pos 1;
}

abbrev done : BackupsDiscovery
done = record discovery {
  status = record status {
    phase = DiscoveryPhase.completed;
    observed_generation = 1;
    discovery_stats = some stats;
  };
}

-- The spec was edited while the discovery was under way: the generation is 2 now.
abbrev edited : BackupsDiscovery
edited = record done {
  generation = 2;
  spec = record spec { requested_backups = "weekly" ∷ [] };
  status = record done.status { phase = DiscoveryPhase.in_progress };
}

abbrev stored : BackupsDiscovery
stored = finalized reconciler.set_status_condition "velero" 1000 ("gone" ∷ []) done.status edited

finalized-unnoticed_example : reconcile reconciler stored ≡ (stored, ok false)
finalized-unnoticed_example =
    finalized-unnoticed reconciler 1000 ("gone" ∷ []) done.status edited stats stored stored stored
      refl refl refl refl refl

finalized-Names_example :
    has_valid "gone" stored.status.valid_backups || has_invalid "gone" stored.status.invalid_backups
    ≡ true
finalized-Names_example =
    finalized-Names reconciler.set_status_condition "velero" 1000 ("gone" ∷ []) done.status edited
      "gone" refl

is_candidate_iff_example : (is_candidate 0 1000 spec nightly ≡ true) ↔ (
    (is_completed_backup nightly.phase ≡ true)
    × (backup_async_operations_incomplete nightly ≡ false)
    × AskedFor 0 1000 spec nightly
    × (validate_vm_in_backup_spec nightly "vms" ≡ true))
is_candidate_iff_example = is_candidate_iff 0 1000 spec nightly

select_candidates_lem_example :
    NewestFirst (select_candidates 0 1000 spec (nightly ∷ weekly ∷ []))
    × Perm
        (keep (is_candidate 0 1000 spec) (nightly ∷ weekly ∷ []))
        (select_candidates 0 1000 spec (nightly ∷ weekly ∷ []))
select_candidates_lem_example = select_candidates_lem 0 1000 spec (nightly ∷ weekly ∷ [])

classify_requested_backups_lem_example :
    classify_requested_backups "velero" 1000 spec (nightly ∷ weekly ∷ []) ≡ record {
      invalid_backups =
          reports "velero"
            (λ n. last_named none n (nightly ∷ weekly ∷ []))
            (verdict "vms" (nightly ∷ weekly ∷ []))
            (names_of [] spec.requested_backups);
      missing_backups_count =
          count_if
            (λ n. is_missing (verdict "vms" (nightly ∷ weekly ∷ []) n))
            (names_of [] spec.requested_backups);
      filtered_out_backups = map (filtered_progress "velero" 1000) (
          keep
            (λ n. is_filtered (verdict "vms" (nightly ∷ weekly ∷ []) n))
            (names_of [] spec.requested_backups));
    }
classify_requested_backups_lem_example =
    classify_requested_backups_lem "velero" 1000 spec (nightly ∷ weekly ∷ [])

abbrev found_all : VeleroBackupInfo → DiscoveryStatus × String
found_all info = (DiscoveryStatus.completed, "VM found in backup")

batch-Examined_example :
    Examined found_all 1000
      (new_progress "velero" 1 weekly ∷ [])
      (new_progress "velero" 1 nightly ∷ [])
      []
      []
batch-Examined_example =
    batch-Examined found_all 1000 (new_progress "velero" 1 weekly ∷ []) [] []
      (new_progress "velero" 1 nightly ∷ []) (omega arith) (λ e. cc)

parse_time_range_lem_example :
    parse_time_range formats 1000 (record spec { start_time = some ""; end_time = some "first" })
    ≡ ok (0, day + 86_399 * second)
unfolding time formats
parse_time_range_lem_example =
    parse_time_range_lem formats are_formats 1000
      (record spec { start_time = some ""; end_time = some "first" }) "" "first" (utc 0) (utc day)
      refl refl refl refl

abbrev failed_nightly : Backup
failed_nightly = record nightly { phase = BackupPhase.other }

-- Both are asked for, and only one is completed.
abbrev asked : DiscoverySpec
asked = record spec { requested_backups = "weekly" ∷ "nightly" ∷ [] }

abbrev listed : List Backup
listed = failed_nightly ∷ weekly ∷ []

all_invalid-not_found_info_example : Mem (not_found_info "velero" "nightly") (
    all_invalid "velero" ("weekly" ∷ "nightly" ∷ []) (
      initialized "velero" 1000 asked
        (select_candidates 0 1000 asked listed)
        (classify_requested_backups "velero" 1000 asked listed)
        status))
unfolding backup_async_operations_incomplete validate_vm_in_backup_spec last_named
all_invalid-not_found_info_example =
    all_invalid-not_found_info "velero" "nightly" 1000 0 1000 asked listed failed_nightly status
      refl refl refl refl refl
