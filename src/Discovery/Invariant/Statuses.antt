-- ===== src/Discovery/Invariant/Statuses.antt =====
-- The invariant of a status after a batch's results are written, and after a reset.
use mathlib.Core.Option
use native.Mathlib.Nat.{zero-add}
use oadp_vm_file_restore.Prelude.{
  ℕ, suc, ◌+◌, ◌<◌, ◌≡◌, ◌≢◌, refl, sym, ap, ap₂, ◌∙◌, subst, ◌+ℤ◌, ◌-ℤ◌, arith, String, List, [],
  ◌∷◌, ◌++◌, map, append_assoc, true, Option, none, some, pos, length, length-append, All,
  All-append, modify, Bool-cases, inl, inr,
}
use oadp_vm_file_restore.Api.{
  VeleroBackupInfo, DiscoveryStatus, is_new, is_in_progress, BackupDiscoveryProgress,
  DiscoveryStatistics, DiscoveryStatusOf,
}
use oadp_vm_file_restore.Discovery.Batch.{
  new_indices, find_stuck, reset_stuck, finish_batch, results_of, update_results, count_results,
}
use oadp_vm_file_restore.Discovery.Batch.Blocks.{NotNew, modify_head}
use oadp_vm_file_restore.Discovery.Batch.Results.{judged, Examined}
use oadp_vm_file_restore.Discovery.Batch.Examined.{batch-Examined}
use oadp_vm_file_restore.Discovery.Invariant.{Counts, CountsOf, IsSound}
use oadp_vm_file_restore.Discovery.Invariant.Operations.{Entries, HasStatus, reset-Counts}
use oadp_vm_file_restore.Discovery.Invariant.Finish.{is_final, not_final_new, finish-Counts}
use oadp_vm_file_restore.Discovery.Invariant.Start.{InBatch}

map-judged-NotNew :
    (judge : VeleroBackupInfo → DiscoveryStatus × String) (now : ℕ)
    → ((i : VeleroBackupInfo) → is_final (judge i).0 ≡ true)
    → (ys : Entries) → All NotNew (map (judged judge now) ys)
map-judged-NotNew judge now final [] = tt
map-judged-NotNew judge now final (y ∷ ys) =
    (not_final_new _ (final y.info), map-judged-NotNew judge now final ys)

length_pos {ℓ} : {A : Type ℓ} (l : List A) → l ≢ [] → 0 < length l
length_pos [] h = absurd (h refl)
length_pos (x ∷ l) h = omega arith

not_empty : {batch : List ℕ} {progress : Entries} → InBatch batch progress → progress ≢ []
not_empty {progress = progress} b e = omega (
  arith,
  ap length (sym e ∙ b.split),
  length-append b.before (b.busy ++ (b.block ++ b.after)),
  length-append b.busy (b.block ++ b.after),
  length_pos b.busy b.some_busy,
)

module _ (judge : VeleroBackupInfo → DiscoveryStatus × String) (now : ℕ)
    (final : (i : VeleroBackupInfo) → is_final (judge i).0 ≡ true) where
  -- Writing the results of a batch back keeps a status sound.
  pub finish_batch-IsSound :
      (s : DiscoveryStatusOf) (batch : List ℕ)
      → IsSound s
      → InBatch batch s.backup_discovery_progress
      → IsSound (finish_batch now (results_of judge s.backup_discovery_progress batch) s)
  unfolding finish_batch
  finish_batch-IsSound s batch sound b = rw results (record {
    counts = go s.discovery_stats sound.counts;
    blocks = record {
      before = b.before ++ map (judged judge now) b.busy;
      block = b.block;
      after = b.after;
      split =
          written
          ∙ sym (append_assoc b.before (map (judged judge now) b.busy) (b.block ++ b.after));
      before_done =
          All-append NotNew b.before _ b.before_done (map-judged-NotNew judge now final b.busy);
      block_new = b.block_new;
      after_done = b.after_done;
    };
  })
    where
      e : Examined judge now b.before b.busy (b.block ++ b.after) []
      e = batch-Examined judge now b.before (b.block ++ b.after) [] b.busy b.small b.some_busy

      results : results_of judge s.backup_discovery_progress batch ≡ e.slots
      results = ap₂ (results_of judge) b.split b.batch_eq ∙ e.slots_eq

      written :
          (update_results now e.slots s.backup_discovery_progress []).0
          ≡ b.before ++ (map (judged judge now) b.busy ++ (b.block ++ b.after))
      written = ap (λ (l : Entries). (update_results now e.slots l []).0) b.split ∙ e.progress_eq

      go :
          (stats : Option DiscoveryStatistics)
          → CountsOf stats s.backup_discovery_progress
          → CountsOf
              (Option.map
                (λ (t : DiscoveryStatistics).
                  count_results e.slots
                    (record t { in_progress = t.in_progress -ℤ pos (length e.slots) }))
                stats)
              (update_results now e.slots s.backup_discovery_progress []).0
      go none h = absurd (not_empty b h)
      go (some stats) (missing, c) = (
        missing,
        rw written (
            finish-Counts judge now final missing stats b.before b.busy (b.block ++ b.after) e.slots
              b.busy_in_progress e.slots_perm (subst (Counts missing stats) b.split c)),
      )

-- The stuck entry that was found, and what stands around it.
record Stuck (from : ℕ) (progress : Entries) (i : ℕ) : Type 0 where
  before : Entries
  stuck : BackupDiscoveryProgress
  after : Entries
  split : progress ≡ before ++ stuck ∷ after
  at : i ≡ from + length before
  is_stuck : HasStatus DiscoveryStatus.in_progress stuck

find_stuck-Stuck :
    (from : ℕ) (progress : Entries) (i : ℕ)
    → find_stuck from progress ≡ some i
    → Stuck from progress i
unfolding find_stuck
find_stuck-Stuck from [] i h = absurd (cc)
find_stuck-Stuck from (b ∷ rest) i h = elim (Bool-cases (is_in_progress b.status)) [
  | inl busy ↦ record {
    before = [];
    stuck = b;
    after = rest;
    split = refl;
    at = ground (arith);
    is_stuck = ground arith;
  }
  | inr other ↦
      let r : Stuck (suc from) rest i = find_stuck-Stuck (suc from) rest i (rw other at h) in
      record {
        before = b ∷ r.before;
        stuck = r.stuck;
        after = r.after;
        split = ap (◌∷◌ b) r.split;
        at = omega (arith, r.at);
        is_stuck = r.is_stuck;
      }
]

new_indices-eq-nil :
    (from : ℕ) (progress : Entries) → new_indices from progress ≡ [] → All NotNew progress
unfolding new_indices
new_indices-eq-nil from [] h = tt
new_indices-eq-nil from (b ∷ rest) h = elim (Bool-cases (is_new b.status)) [
  | inl pending ↦ absurd (cc)
  | inr other ↦ (other, new_indices-eq-nil (suc from) rest (rw other at h))
]

All-split {ℓ κ} :
    {A : Type ℓ} (P : A → Type κ) (xs : List A) (y : A) (zs : List A)
    → All P (xs ++ y ∷ zs)
    → All P xs × All P zs
All-split P [] y zs h = (tt, h.1)
All-split P (x ∷ xs) y zs h = let r = All-split P xs y zs h.1 in ((h.0, r.0), r.1)

-- Resetting a stuck entry keeps a status sound, when no entry is pending.
pub reset_stuck-IsSound :
    (now i : ℕ) (s : DiscoveryStatusOf)
    → new_indices 0 s.backup_discovery_progress ≡ []
    → find_stuck 0 s.backup_discovery_progress ≡ some i
    → IsSound s
    → IsSound (reset_stuck now i s)
unfolding reset_stuck
reset_stuck-IsSound now i s none_pending found sound = record {
  counts = go s.discovery_stats sound.counts;
  blocks = record {
    before = r.before;
    block = again ∷ [];
    after = r.after;
    split = written;
    before_done = around.0;
    block_new = (refl, tt);
    after_done = around.1;
  };
}
  where
    r : Stuck 0 s.backup_discovery_progress i
    r = find_stuck-Stuck 0 s.backup_discovery_progress i found

    reset : BackupDiscoveryProgress → BackupDiscoveryProgress
    reset b = record b {
      status = DiscoveryStatus.new;
      message = "Retrying stuck backup analysis";
      last_updated = some now;
    }

    again : BackupDiscoveryProgress
    again = reset r.stuck

    around : All NotNew r.before × All NotNew r.after
    around =
        All-split NotNew r.before r.stuck r.after
          (subst (All NotNew) r.split (new_indices-eq-nil 0 _ none_pending))

    written : modify s.backup_discovery_progress i reset ≡ r.before ++ again ∷ r.after
    written =
        ap₂ (λ (l : Entries) (j : ℕ). modify l j reset) r.split (r.at ∙ zero-add _)
        ∙ modify_head r.before r.after r.stuck reset

    go :
        (stats : Option DiscoveryStatistics)
        → CountsOf stats s.backup_discovery_progress
        → CountsOf
            (Option.map
              (λ (t : DiscoveryStatistics). record t {
                in_progress = t.in_progress -ℤ pos 1;
                pending = t.pending +ℤ pos 1;
              })
              stats)
            (modify s.backup_discovery_progress i reset)
    go none h =
        absurd
          (omega (arith, ap length (sym h ∙ r.split), length-append r.before (r.stuck ∷ r.after)))
    go (some stats) (missing, c) = (
      missing,
      rw written (
          reset-Counts missing stats r.before r.after r.stuck again r.is_stuck refl
            (subst (Counts missing stats) r.split c)),
    )
