-- ===== src/Discovery/Reconcile/Settled.antt =====
-- A discovery that is complete.
use oadp_vm_file_restore.Prelude.{
  ℕ, ◌≡◌, refl, ap, ◌∙◌, arith, String, List, true, false, ◌==◌, some, pos,
}
use oadp_vm_file_restore.Api.{
  BackupsDiscovery, DiscoveryPhase, DiscoveryStatistics, DiscoveryStatusOf, is_unset_phase,
}
use oadp_vm_file_restore.Discovery.Cluster.{ok}
use oadp_vm_file_restore.Discovery.Finalize.{finalized}
use oadp_vm_file_restore.Discovery.Controller.{
  Reconciler, choose_step, check_for_spec_changes, check_for_spec_changes_step,
  is_discovery_complete, run_step, reconcile_found, reconcile,
}

eq_refl : (n : ℕ) → (n == n) ≡ true
eq_refl n = ground arith

-- The discovery that the status describes is complete.
record IsComplete (status : DiscoveryStatusOf) : Type 0 where
  pub is_phase : status.phase ≡ DiscoveryPhase.completed
  pub stats : DiscoveryStatistics
  pub has_stats : status.discovery_stats ≡ some stats
  pub none_pending : stats.pending ≡ pos 0
  pub none_in_progress : stats.in_progress ≡ pos 0

is_discovery_complete-IsComplete :
    (status : DiscoveryStatusOf) → IsComplete status → is_discovery_complete status ≡ true
unfolding is_discovery_complete
is_discovery_complete-IsComplete status c =
    rw (c.has_stats, c.none_pending, c.none_in_progress, c.is_phase) refl

choose_step-IsComplete :
    (o : BackupsDiscovery)
    → IsComplete o.status
    → o.status.observed_generation ≡ o.generation
    → choose_step o ≡ check_for_spec_changes
unfolding choose_step
choose_step-IsComplete o c e =
    choose o (is_discovery_complete-IsComplete o.status c)
      (ap (λ n. n == o.generation) e ∙ eq_refl o.generation) (ap is_unset_phase c.is_phase) c.stats
      c.has_stats
  where
    choose :
        (v : BackupsDiscovery)
        → is_discovery_complete v.status ≡ true
        → (v.status.observed_generation == v.generation) ≡ true
        → is_unset_phase v.status.phase ≡ false
        → (stats : DiscoveryStatistics) → v.status.discovery_stats ≡ some stats
        → choose_step v ≡ check_for_spec_changes
    choose v h k u stats e' = rw (u, e') (rw (h, k) refl)

-- If the stored object's phase is Completed, its statistics have nothing pending or in progress,
-- and its observed generation is its generation, then a reconciliation whose two reads return it
-- writes nothing and does not requeue.
reconcile-IsComplete :
    (r : Reconciler) (o : BackupsDiscovery) (w w' w'' : r.cluster.World)
    → IsComplete o.status
    → o.status.observed_generation ≡ o.generation
    → r.cluster.get w ≡ (w', ok o)
    → r.cluster.get w' ≡ (w'', ok o)
    → reconcile r w ≡ (w'', ok false)
unfolding reconcile reconcile_found run_step check_for_spec_changes_step
reconcile-IsComplete r o w w' w'' c e first second =
    rw (first, second, choose_step-IsComplete o c e)
      (rw (ap (λ n. n == o.generation) e ∙ eq_refl o.generation) refl)

-- A spec that is edited while a discovery is under way goes unnoticed: the object `fresh` that
-- finalization reads may have any spec and any generation; if its statistics have nothing pending
-- or in progress, a reconciliation whose two reads return the finalized object writes nothing and
-- does not requeue.
pub finalized-unnoticed :
    (r : Reconciler) (now : ℕ) (requested : List String) (s : DiscoveryStatusOf)
    (fresh : BackupsDiscovery) (stats : DiscoveryStatistics) (w w' w'' : r.cluster.World)
    → fresh.status.discovery_stats ≡ some stats
    → stats.pending ≡ pos 0
    → stats.in_progress ≡ pos 0
    → r.cluster.get w
      ≡ (w', ok (finalized r.set_status_condition r.oadp_namespace now requested s fresh))
    → r.cluster.get w'
      ≡ (w'', ok (finalized r.set_status_condition r.oadp_namespace now requested s fresh))
    → reconcile r w ≡ (w'', ok false)
unfolding finalized
finalized-unnoticed r now requested s fresh stats w w' w'' has_stats none_pending none_busy first
      second =
    reconcile-IsComplete r (finalized r.set_status_condition r.oadp_namespace now requested s fresh)
      w w' w''
      (record {
        is_phase = refl;
        stats = record stats { completion_time = some now };
        has_stats = rw has_stats refl;
        none_pending = none_pending;
        none_in_progress = none_busy;
      })
      refl first second
