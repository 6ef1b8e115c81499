-- ===== src/Discovery/Invariant/Initial.antt =====
-- The statuses that initializeDiscovery and finalizeDiscoveryProcess compute.
use mathlib.Core.Option
use oadp_vm_file_restore.Prelude.{
  ℕ, ◌+◌, ◌≡◌, refl, ap, arith, String, List, [], ◌∷◌, ◌++◌, map, Bool, true, Option, none, some,
  pos, length, length-append, length-map, All, if◌then◌else◌, Bool-cases, inl, inr,
}
use oadp_vm_file_restore.Api.{
  Backup, DiscoverySpec, VeleroBackupInfo, DiscoveryStatus, is_new, is_in_progress, is_completed,
  DiscoveryStatistics, DiscoveryStatusOf, DiscoveryPhase, BackupsDiscovery, Condition,
}
use oadp_vm_file_restore.Velero.Contents.{ResourceList, backup_contains_vm}
use oadp_vm_file_restore.Discovery.Cluster.{Result, ok, err, not_found, conflict, other}
use oadp_vm_file_restore.Discovery.Batch.{analyse}
use oadp_vm_file_restore.Discovery.Batch.Blocks.{IsNew, NotNew}
use oadp_vm_file_restore.Discovery.Select.{
  Classified, RequestedStatus, missing, filtered, candidate, async_incomplete, add_status,
  collect_statuses, check_backups, mark_missing, classify_requested_backups,
}
use oadp_vm_file_restore.Discovery.Finalize.{finalized}
use oadp_vm_file_restore.Discovery.Controller.{initialized, new_progress, cleared}
use oadp_vm_file_restore.Discovery.Invariant.{
  tally, is_skipped, is_failed, is_unset, CountsOf, IsSound,
}
use oadp_vm_file_restore.Discovery.Invariant.Operations.{
  Entries, HasStatus, tally-All, tally-append,
}
use oadp_vm_file_restore.Discovery.Invariant.Finish.{is_final}

-- Whatever a worker meets, its verdict is final.
pub analyse-is_final :
    (reader : Option (Backup → Option ResourceList)) (get_backup : String → Result Backup)
    (spec : DiscoverySpec) (info : VeleroBackupInfo)
    → is_final (analyse reader get_backup spec info).0 ≡ true
unfolding analyse
analyse-is_final none get_backup spec info = refl
analyse-is_final (some fetch) get_backup spec info = go (get_backup info.name)
  where
    go : (found : Result Backup) → is_final (analyse (some fetch) (λ _. found) spec info).0 ≡ true
    go (err not_found) = refl
    go (err conflict) = refl
    go (err (other s)) = refl
    go (ok backup) =
        elim (Bool-cases (
          backup_contains_vm fetch backup spec.virtual_machine_name
            spec.virtual_machine_namespace)) [ inl h ↦ rw h refl | inr h ↦ rw h refl ]

add_status-skipped :
    (ns : String) (now : ℕ) (refs : List (String × Backup)) (name : String)
    (status : RequestedStatus) (c : Classified)
    → All (HasStatus DiscoveryStatus.skipped) c.filtered_out_backups
    → All
        (HasStatus DiscoveryStatus.skipped)
        (add_status ns now refs name status c).filtered_out_backups
unfolding add_status
add_status-skipped ns now refs name missing c h = h
add_status-skipped ns now refs name filtered c h = (refl, h)
add_status-skipped ns now refs name async_incomplete c h = h
add_status-skipped ns now refs name candidate c h = h

collect_statuses-skipped :
    (ns : String) (now : ℕ) (refs : List (String × Backup))
    (statuses : List (String × RequestedStatus))
    → All
        (HasStatus DiscoveryStatus.skipped)
        (collect_statuses ns now refs statuses).filtered_out_backups
unfolding collect_statuses
collect_statuses-skipped ns now refs [] = tt
collect_statuses-skipped ns now refs ((name, status) ∷ rest) =
    add_status-skipped ns now refs name status _ (collect_statuses-skipped ns now refs rest)

pub classified-skipped :
    (ns : String) (now : ℕ) (spec : DiscoverySpec) (backups : List Backup)
    → All
        (HasStatus DiscoveryStatus.skipped)
        (classify_requested_backups ns now spec backups).filtered_out_backups
unfolding classify_requested_backups
classified-skipped ns now spec backups =
    collect_statuses-skipped ns now
      (check_backups spec.virtual_machine_namespace backups
        (mark_missing spec.requested_backups [], [])).1
      (check_backups spec.virtual_machine_namespace backups
        (mark_missing spec.requested_backups [], [])).0

new_entries :
    (ns : String) (now : ℕ) (l : List Backup)
    → All (HasStatus DiscoveryStatus.new) (map (new_progress ns now) l)
unfolding new_progress
new_entries ns now [] = tt
new_entries ns now (b ∷ l) = (refl, new_entries ns now l)

HasStatus-IsNew : (ys : Entries) → All (HasStatus DiscoveryStatus.new) ys → All IsNew ys
HasStatus-IsNew [] h = tt
HasStatus-IsNew (y ∷ ys) h = (ap is_new h.0, HasStatus-IsNew ys h.1)

skipped-NotNew : (ys : Entries) → All (HasStatus DiscoveryStatus.skipped) ys → All NotNew ys
skipped-NotNew [] h = tt
skipped-NotNew (y ∷ ys) h = (ap is_new h.0, skipped-NotNew ys h.1)

-- The status with which a discovery starts is sound.
pub initialized-IsSound :
    (ns : String) (now : ℕ) (spec : DiscoverySpec) (candidates : List Backup) (c : Classified)
    (s : DiscoveryStatusOf)
    → All (HasStatus DiscoveryStatus.skipped) c.filtered_out_backups
    → IsSound (initialized ns now spec candidates c s)
unfolding initialized
initialized-IsSound ns now spec candidates c s h = record {
  counts = (
    c.missing_backups_count,
    record {
      pending_eq = ap pos (omega (arith, t is_new));
      in_progress_eq = ap pos (omega (arith, t is_in_progress));
      completed_eq = ap pos (omega (arith, t is_completed));
      skipped_eq = ap pos (omega (arith, t is_skipped));
      failed_eq = ap pos (omega (arith, t is_failed));
      total_eq = ap pos (
          omega (
            arith,
            length-append entries c.filtered_out_backups,
            length-map (new_progress ns now) candidates,
          ));
      none_unset = omega (arith, t is_unset);
    },
  );
  blocks = record {
    before = [];
    block = entries;
    after = c.filtered_out_backups;
    split = refl;
    before_done = tt;
    block_new = HasStatus-IsNew entries (new_entries ns now candidates);
    after_done = skipped-NotNew c.filtered_out_backups h;
  };
}
  where
    entries : Entries
    entries = map (new_progress ns now) candidates

    t :
        (test : DiscoveryStatus → Bool)
        → tally test (entries ++ c.filtered_out_backups)
          ≡ (if test DiscoveryStatus.new then length candidates else 0)
            + (if test DiscoveryStatus.skipped then length c.filtered_out_backups else 0)
    t test = rw (
      tally-append test entries c.filtered_out_backups,
      tally-All test DiscoveryStatus.new entries (new_entries ns now candidates),
      tally-All test DiscoveryStatus.skipped c.filtered_out_backups h,
      length-map (new_progress ns now) candidates,
    )

pub cleared-IsSound : (phase : DiscoveryPhase) (s : DiscoveryStatusOf) → IsSound (cleared phase s)
cleared-IsSound phase s = record {
  counts = refl;
  blocks = record {
    before = [];
    block = [];
    after = [];
    split = refl;
    before_done = tt;
    block_new = tt;
    after_done = tt;
  };
}

stamped-CountsOf :
    (now : ℕ) (stats : Option DiscoveryStatistics) (progress : Entries)
    → CountsOf stats progress
    → CountsOf
        (Option.map (λ (t : DiscoveryStatistics). record t { completion_time = some now }) stats)
        progress
stamped-CountsOf now none progress h = h
stamped-CountsOf now (some stats) progress (n, c) = (
  n,
  record {
    pending_eq = c.pending_eq;
    in_progress_eq = c.in_progress_eq;
    completed_eq = c.completed_eq;
    skipped_eq = c.skipped_eq;
    failed_eq = c.failed_eq;
    total_eq = c.total_eq;
    none_unset = c.none_unset;
  },
)

pub finalized-IsSound :
    (set_status_condition : List Condition → Condition → List Condition) (ns : String) (now : ℕ)
    (requested : List String) (s : DiscoveryStatusOf) (fresh : BackupsDiscovery)
    → IsSound fresh.status
    → IsSound (finalized set_status_condition ns now requested s fresh).status
unfolding finalized
finalized-IsSound set_status_condition ns now requested s fresh h = record {
  counts = stamped-CountsOf now fresh.status.discovery_stats _ h.counts;
  blocks = h.blocks;
}
