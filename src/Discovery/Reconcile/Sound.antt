-- ===== src/Discovery/Reconcile/Sound.antt =====
-- Soundness of the stored statuses, handler by handler.
use oadp_vm_file_restore.Prelude.{
  ℕ, ◌≡◌, refl, sym, subst, List, [], ◌∷◌, take, true, false, ◌==◌, Option, none, some, Bool-cases,
  inl, inr, ◌≢◌,
}
use oadp_vm_file_restore.Api.{Backup, BackupsDiscovery, DiscoveryPhase}
use oadp_vm_file_restore.Discovery.Cluster.{IsServer, not_found, conflict, other, Result, ok, err}
use oadp_vm_file_restore.Discovery.Batch.{
  new_indices, find_stuck, reset_stuck, batch_size, start_batch, analyse, results_of, finish_batch,
}
use oadp_vm_file_restore.Discovery.TimeRange.{parse_time_range}
use oadp_vm_file_restore.Discovery.Select.{select_candidates, classify_requested_backups}
use oadp_vm_file_restore.Discovery.Finalize.{finalized}
use oadp_vm_file_restore.Discovery.Controller.{
  Reconciler, Step, initialize_phase, initialize_discovery_process, check_for_spec_changes,
  process_discovery_batch, finalize_discovery_process, write, cleared, initialized, failed_listing,
  choose_step, update_status_with_retry, initialize_phase_step, start_discovery, listed,
  initialize_discovery, initialize_discovery_process_step, examine_batch, retry_stuck,
  process_discovery_batch_step, finalize_discovery_process_step, check_for_spec_changes_step,
  run_step, reconcile_found, reconcile,
}
use oadp_vm_file_restore.Discovery.Invariant.{IsSound}
use oadp_vm_file_restore.Discovery.Invariant.Start.{start_batch-IsSound, InBatch}
use oadp_vm_file_restore.Discovery.Invariant.Statuses.{finish_batch-IsSound, reset_stuck-IsSound}
use oadp_vm_file_restore.Discovery.Invariant.Initial.{
  analyse-is_final, classified-skipped, initialized-IsSound, cleared-IsSound, finalized-IsSound,
}
use oadp_vm_file_restore.Discovery.Reconcile.Triple.{
  Returns, Keeps, Keeps-bind, Keeps-pure, Keeps-get, list-Stored, Keeps-update_status_with_retry,
  Keeps-write, Keeps-result, Returns-any, Stored, Holds,
}

module _ (r : Reconciler) (server : IsServer r.cluster) where
  open r use {cluster, oadp_namespace, reader, formats, set_status_condition}
  open cluster use {World, get, list_backups, get_backup, now}

  initialize_phase-Keeps :
      (v : BackupsDiscovery)
      → IsSound v.status
      → Keeps r server IsSound (initialize_phase_step r v) (λ _. Unit)
  unfolding initialize_phase_step
  initialize_phase-Keeps v s =
      Keeps-write r server IsSound _ true (record { counts = s.counts; blocks = s.blocks })

  start_discovery-Keeps :
      (v : BackupsDiscovery) (backups : List Backup)
      → Keeps r server IsSound (start_discovery r v backups) (λ _. Unit)
  unfolding start_discovery
  start_discovery-Keeps v backups w s =
      Keeps-bind r server IsSound (λ _. Unit) (λ _. Unit)
        (λ w'. (w', parse_time_range formats (now w) v.spec)) _
        (Keeps-result r server IsSound (parse_time_range formats (now w) v.spec))
        (λ range _.
          Keeps-write r server IsSound
            (record v {
              status =
                  initialized oadp_namespace (now w) v.spec
                    (select_candidates range.0 range.1 v.spec backups)
                    (classify_requested_backups oadp_namespace (now w) v.spec backups) v.status;
            })
            true
            (initialized-IsSound oadp_namespace (now w) v.spec _ _ v.status
              (classified-skipped oadp_namespace (now w) v.spec backups)))
        w s

  listed-Keeps :
      (v : BackupsDiscovery) (p : World × Result (List Backup))
      → IsSound v.status
      → Stored r server IsSound p.0
      → Holds r server IsSound (λ _. Unit) (listed r v p)
  unfolding listed Returns
  listed-Keeps v (w, ok backups) sound s = start_discovery-Keeps v backups w s
  listed-Keeps v (w, err e) sound s =
      Keeps-bind r server IsSound (λ _. Unit) (λ _. Unit)
        (update_status_with_retry r (failed_listing v)) (λ _ w'. (w', err e))
        (λ w' s'. (
          (Keeps-update_status_with_retry r server IsSound (failed_listing v)
              (record { counts = sound.counts; blocks = sound.blocks }) w' s').0,
          Returns-any r server IsSound _,
        ))
        (λ _ _ w' s'. (s', tt)) w s

  initialize_discovery_process-Keeps :
      (v : BackupsDiscovery)
      → Keeps r server IsSound (initialize_discovery_process_step r v) (λ _. Unit)
  unfolding initialize_discovery_process_step initialize_discovery
  initialize_discovery_process-Keeps v =
      Keeps-bind r server IsSound (λ o. o.status ≡ cleared DiscoveryPhase.in_progress v.status)
        (λ _. Unit) _ (initialize_discovery r)
        (Keeps-update_status_with_retry r server IsSound _
          (cleared-IsSound DiscoveryPhase.in_progress v.status))
        (λ o e w s.
          listed-Keeps o (list_backups w)
            (subst IsSound (sym e) (cleared-IsSound DiscoveryPhase.in_progress v.status))
            (list-Stored r server IsSound w s))

  examine_batch-Keeps :
      (v : BackupsDiscovery) (n : List ℕ)
      → new_indices 0 v.status.backup_discovery_progress ≡ n
      → n ≢ []
      → IsSound v.status
      → Keeps r server IsSound (examine_batch r v (take (batch_size n) n)) (λ _. Unit)
  unfolding examine_batch
  examine_batch-Keeps v n pending some_pending sound w s =
      Keeps-bind r server IsSound
        (λ o. o.status ≡ start_batch (now w) (take (batch_size n) n) v.status) (λ _. Unit)
        (update_status_with_retry r
          (record v { status = start_batch (now w) (take (batch_size n) n) v.status }))
        (λ started w'.
          write r
            (record started {
              status =
                  finish_batch (now w')
                    (results_of (analyse reader (λ name. get_backup name w') started.spec)
                      started.status.backup_discovery_progress (take (batch_size n) n))
                    started.status;
            })
            true w')
        (Keeps-update_status_with_retry r server IsSound _ batch.0)
        (λ started e w' s'.
          Keeps-write r server IsSound _ true
            (finish_batch-IsSound (analyse reader (λ name. get_backup name w') started.spec)
              (now w') (analyse-is_final reader (λ name. get_backup name w') started.spec)
              started.status _ (subst IsSound (sym e) batch.0)
              (subst (λ st. InBatch (take (batch_size n) n) st.backup_discovery_progress) (sym e)
                batch.1))
            w' s')
        w s
    where
      batch :
          IsSound (start_batch (now w) (take (batch_size n) n) v.status)
          × InBatch
              (take (batch_size n) n)
              (start_batch (now w) (take (batch_size n) n) v.status).backup_discovery_progress
      batch = start_batch-IsSound (now w) v.status n pending some_pending sound

  retry_stuck-Keeps :
      (v : BackupsDiscovery) (stuck : Option ℕ)
      → find_stuck 0 v.status.backup_discovery_progress ≡ stuck
      → new_indices 0 v.status.backup_discovery_progress ≡ []
      → IsSound v.status
      → Keeps r server IsSound (retry_stuck r v stuck) (λ _. Unit)
  unfolding retry_stuck
  retry_stuck-Keeps v none found none_pending sound w s = Keeps-pure r server IsSound false w s
  retry_stuck-Keeps v (some i) found none_pending sound w s =
      Keeps-write r server IsSound (record v { status = reset_stuck (now w) i v.status }) true
        (reset_stuck-IsSound (now w) i v.status none_pending found sound) w s

  process_discovery_batch-Keeps :
      (v : BackupsDiscovery)
      → IsSound v.status
      → Keeps r server IsSound (process_discovery_batch_step r v) (λ _. Unit)
  unfolding process_discovery_batch_step
  process_discovery_batch-Keeps v sound = go (new_indices 0 v.status.backup_discovery_progress) refl
    where
      go :
          (n : List ℕ)
          → new_indices 0 v.status.backup_discovery_progress ≡ n
          → Keeps r server IsSound (process_discovery_batch_step r v) (λ _. Unit)
      go [] e = rw e (retry_stuck-Keeps v _ refl e sound)
      go (i ∷ n) e = rw e (examine_batch-Keeps v (i ∷ n) e (λ c. cc) sound)

  finalize_discovery_process-Keeps :
      (v : BackupsDiscovery)
      → Keeps r server IsSound (finalize_discovery_process_step r v) (λ _. Unit)
  unfolding finalize_discovery_process_step
  finalize_discovery_process-Keeps v w s =
      Keeps-bind r server IsSound (λ o. IsSound o.status) (λ _. Unit) get
        (λ fresh.
          write r
            (finalized set_status_condition oadp_namespace (now w) v.spec.requested_backups v.status
              fresh)
            false)
        (Keeps-get r server IsSound)
        (λ fresh sound. Keeps-write r server IsSound _ false (
          finalized-IsSound set_status_condition oadp_namespace (now w) v.spec.requested_backups
            v.status fresh sound))
        w s

  check_for_spec_changes-Keeps :
      (v : BackupsDiscovery) → Keeps r server IsSound (check_for_spec_changes_step r v) (λ _. Unit)
  unfolding check_for_spec_changes_step
  check_for_spec_changes-Keeps v =
      elim (Bool-cases (v.status.observed_generation == v.generation)) [
        | inl e ↦ rw e (Keeps-pure r server IsSound false)
        | inr e ↦ rw e (
            Keeps-write r server IsSound _ true (record {
              counts = (cleared-IsSound DiscoveryPhase.new v.status).counts;
              blocks = (cleared-IsSound DiscoveryPhase.new v.status).blocks;
            }))
      ]

  run_step-Keeps :
      (step : Step) (v : BackupsDiscovery)
      → IsSound v.status
      → Keeps r server IsSound (run_step r step v) (λ _. Unit)
  unfolding run_step
  run_step-Keeps initialize_phase v s = initialize_phase-Keeps v s
  run_step-Keeps initialize_discovery_process v s = initialize_discovery_process-Keeps v
  run_step-Keeps check_for_spec_changes v s = check_for_spec_changes-Keeps v
  run_step-Keeps process_discovery_batch v s = process_discovery_batch-Keeps v s
  run_step-Keeps finalize_discovery_process v s = finalize_discovery_process-Keeps v

  reconcile_found-Stored :
      (p : World × Result BackupsDiscovery)
      → Stored r server IsSound p.0
      → Stored r server IsSound (reconcile_found r p).0
  unfolding reconcile_found
  reconcile_found-Stored (w, ok v) s =
      (Keeps-bind r server IsSound (λ o. IsSound o.status) (λ _. Unit) get
        (run_step r (choose_step v)) (Keeps-get r server IsSound) (run_step-Keeps (choose_step v)) w
        s).0
  reconcile_found-Stored (w, err not_found) s = s
  reconcile_found-Stored (w, err conflict) s = s
  reconcile_found-Stored (w, err (other e)) s = s

-- If the status of every version of the resource that the server has stored is sound, then so is
-- every one after a run of Reconcile, whatever the server answers to each call. In a sound status
-- the statistics count the entries by their status, with the missing backups among the failed
-- ones, no entry has an unset status, and the entries with status New stand together.
pub reconcile-IsSound :
    (r : Reconciler) (server : IsServer r.cluster) (w : r.cluster.World)
    → ((o : BackupsDiscovery) → server.seen w o → IsSound o.status)
    → (o : BackupsDiscovery) → server.seen (reconcile r w).0 o
    → IsSound o.status
unfolding reconcile
reconcile-IsSound r server w s =
    reconcile_found-Stored r server (r.cluster.get w) (Keeps-get r server IsSound w s).0
