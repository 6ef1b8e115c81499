-- ===== src/Discovery/Invariant.antt =====
-- The invariant of a discovery's status: the statistics count the entries, and the entries with
-- status New stand together.
pub mod Operations
pub mod Finish
pub mod Start
pub mod Statuses
pub mod Initial
use oadp_vm_file_restore.Prelude.{
  ℕ, ◌+◌, ◌≡◌, List, [], ◌∷◌, ◌++◌, Bool, true, false, Option, none, some, ℤ, pos, length, count_if,
}
use oadp_vm_file_restore.Api.{
  DiscoveryStatus, is_new, is_in_progress, is_completed, BackupDiscoveryProgress,
  DiscoveryStatistics, DiscoveryStatusOf,
}
use oadp_vm_file_restore.Discovery.Batch.Blocks.{Blocks}

abbrev pub is_skipped : DiscoveryStatus → Bool
is_skipped DiscoveryStatus.skipped = true
is_skipped _ = false

abbrev pub is_failed : DiscoveryStatus → Bool
is_failed DiscoveryStatus.failed = true
is_failed _ = false

abbrev pub is_unset : DiscoveryStatus → Bool
is_unset DiscoveryStatus.unset = true
is_unset _ = false

-- How many entries have a status.
abbrev pub tally : (DiscoveryStatus → Bool) → List BackupDiscoveryProgress → ℕ
tally test progress = count_if (λ b. test b.status) progress

-- The counters agree with the entries; `missing` requested backups, which the cluster lacks, are
-- counted as failed and have no entry.
pub record Counts (missing : ℕ) (stats : DiscoveryStatistics)
    (progress : List BackupDiscoveryProgress) : Type 0 where
  pub pending_eq : stats.pending ≡ pos (tally is_new progress)
  pub in_progress_eq : stats.in_progress ≡ pos (tally is_in_progress progress)
  pub completed_eq : stats.completed ≡ pos (tally is_completed progress)
  pub skipped_eq : stats.skipped ≡ pos (tally is_skipped progress)
  pub failed_eq : stats.failed ≡ pos (tally is_failed progress + missing)
  pub total_eq : stats.total_candidates ≡ pos (length progress + missing)
  pub none_unset : tally is_unset progress ≡ 0

-- Without statistics there are no entries.
abbrev pub CountsOf : Option DiscoveryStatistics → List BackupDiscoveryProgress → Type 0
CountsOf none progress = progress ≡ []
CountsOf (some stats) progress = (missing : ℕ) × Counts missing stats progress

pub record IsSound (s : DiscoveryStatusOf) : Type 0 where
  pub counts : CountsOf s.discovery_stats s.backup_discovery_progress
  pub blocks : Blocks s.backup_discovery_progress
