-- ===== src/FileRestore/Stage/Waits.antt =====
-- How the wait for the Velero restores moves the stage of a file restore.
use oadp_vm_file_restore.Prelude.{
  ◌≡◌, refl, sym, subst, ap, ◌∙◌, inl, inr, ℕ, ◌+◌, ◌==◌, ltb, List, [], ◌∷◌, Bool, true, false,
  ◌&&◌, Bool-cases, if◌then◌else◌,
}
use oadp_vm_file_restore.Api.{Condition}
use oadp_vm_file_restore.Discovery.Cluster.{Result, ok, err}
use oadp_vm_file_restore.FileRestore.Types.{FileRestorePhase}
use oadp_vm_file_restore.FileRestore.Client.{
  Client, VeleroRestore, Handler, pure, answered, attempt, call,
}
use oadp_vm_file_restore.FileRestore.Status.{settle}
use oadp_vm_file_restore.FileRestore.Monitor.{
  PhaseCounts, Monitored, monitor_listed, monitor_velero_restores,
}
use oadp_vm_file_restore.FileRestore.Workflow.{
  Steps, restores_completed, restored_in_part, restores_failed, conclude_restores, update,
  after_check, check_restored, after_monitoring, on_waiting_for_restores,
}
use oadp_vm_file_restore.FileRestore.Stage.{View, Stage, stage, stage_named, Next, is_quiet}
use oadp_vm_file_restore.FileRestore.Stage.Rules.{
  Wrote, IsClient, IsSteps, IsCurrent, Moves, Moves-bind, Moves-pure, Moves-throw, Ends-same,
  Moves-keeps, Moves-weaken, answered-Keeps, Keeps-attempt, Keeps-call,
}
use oadp_vm_file_restore.FileRestore.Stage.Writes.{IsNamed, Moves-settle}
use oadp_vm_file_restore.FileRestore.Stage.Validates.{Answers, from}
use oadp_vm_file_restore.FileRestore.Stage.Works.{
  requeues, Moves-or_fail, Moves-advance, Moves-step,
}

module _ {c : Client} (client : IsClient c) (steps : Steps c.World)
    (kept : IsSteps c client steps) where
  open c use {World}
  open client use {stored}

  module _ (first : Stage) where
    -- A patch with a final phase.
    Moves-finish :
        (v : View) (phase : FileRestorePhase) (conditions : ℕ → List Condition) (u : Stage)
        → ((known : List Condition) → stage c (phase, known) ≡ u)
        → is_quiet u ≡ true
        → Next (stage c v) u
        → Moves client first v (settle c phase conditions false false) (Answers client)
    Moves-finish v phase conditions u h quiet n =
        Moves-weaken client first (λ b x. (b ≡ false) × (stage c x ≡ u)) (Answers client) v
          (settle c phase conditions false false)
          (Moves-settle client first v phase conditions false false u (λ t k. h _) n)
          (λ b x q _. ap is_quiet q.1 ∙ quiet)

    Moves-conclude_restores :
        (v : View) (n : PhaseCounts)
        → stage c v ≡ Stage.waiting_for_restores
        → Moves client first v (conclude_restores c steps n) (Answers client)
    unfolding conclude_restores IsNamed stage_named stage
    Moves-conclude_restores v n e =
        elim (Bool-cases (n.completed + n.failed + n.in_progress == 0)) [
          | inl none_left ↦ rw none_left (Moves-throw client first (Answers client) v _)
          | inr present ↦ rw present (elim (Bool-cases ((n.failed == 0) && ltb 0 n.completed)) [
            | inl good ↦ rw good (
                Moves-advance client steps kept first v "RestoresCompleted"
                  (restores_completed (n.completed + n.failed + n.in_progress))
                  Stage.restores_completed (λ t. (refl, refl, (refl, (refl, (refl, tt))))) refl
                  (from client v e Next.restore))
            | inr bad ↦ rw bad (elim (Bool-cases (ltb 0 n.completed)) [
              | inl part ↦ rw part (
                  Moves-finish v FileRestorePhase.partially_failed
                    (restored_in_part n.completed n.failed (n.completed + n.failed + n.in_progress))
                    Stage.partially_failed (λ _. refl) refl
                    (from client v e Next.restore_partially))
              | inr lost ↦ rw lost (
                  Moves-finish v FileRestorePhase.failed
                    (restores_failed (n.completed + n.failed + n.in_progress)) Stage.failed
                    (λ _. refl) refl (from client v e Next.fail_restores))
            ])
          ])
        ]

    Moves-after_check :
        (v : View) (n : PhaseCounts) (ready : Bool)
        → stage c v ≡ Stage.waiting_for_restores
        → Moves client first v (after_check c steps n ready) (Answers client)
    unfolding after_check
    Moves-after_check v n true e = Moves-conclude_restores v n e
    Moves-after_check v n false e =
        Moves-pure client first (Answers client) v true
          (requeues client steps kept first true v refl)

    Moves-check_restored :
        (v : View) (n : PhaseCounts)
        → stage c v ≡ Stage.waiting_for_restores
        → Moves client first v (check_restored c steps n) (Answers client)
    unfolding check_restored
    Moves-check_restored v n e = elim (Bool-cases (ltb 0 n.completed)) [
      | inl some_done ↦ rw some_done (
          Moves-step client steps kept first v Stage.waiting_for_restores _ (after_check c steps n)
            (Moves-or_fail client steps kept first v _ _ steps.validate_restored_pvcs
              kept.validate_keeps (from client v e Next.fail_restores))
            e (λ ready x q. Moves-after_check x n ready q))
      | inr none_done ↦ rw none_done (
          Moves-step client steps kept first v Stage.waiting_for_restores _ (after_check c steps n)
            (Moves-pure client first (λ _ x. x ≡ v) v true refl) e
            (λ ready x q. Moves-after_check x n ready q))
    ]

    Moves-update : (v : View) → Moves client first v (update c steps) (λ _ x. x ≡ v)
    unfolding update
    Moves-update v s i e r = Ends-same client first v _ kept_view.0 (kept_view.1 ∙ e) r
      where
        kept_view :
            IsCurrent client (answered s.1 (c.update_status s.1 s.0)).0
            × (stored (answered s.1 (c.update_status s.1 s.0)).0.0 ≡ stored s.0)
        kept_view = answered-Keeps client s.1 (stored s.0) (c.update_status s.1 s.0) i (
            subst (λ after. Wrote c stored (stored s.0) after (c.update_status s.1 s.0)) i
              (client.update_status_wrote s.1 s.0))

    Moves-monitor_listed :
        (v : View) (res : Result (List VeleroRestore))
        → Moves client first v (monitor_listed c res) (λ _ x. x ≡ v)
    unfolding monitor_listed
    Moves-monitor_listed v (err e) = Moves-throw client first _ v _
    Moves-monitor_listed v (ok []) = Moves-throw client first _ v _
    Moves-monitor_listed v (ok (restore ∷ rest)) =
        Moves-keeps client first v (monitor_listed c (ok (restore ∷ rest))) (λ s i. (i, refl))

    Moves-monitor_velero_restores :
        (v : View) → Moves client first v (monitor_velero_restores c) (λ _ x. x ≡ v)
    unfolding monitor_velero_restores
    Moves-monitor_velero_restores v s =
        let list = c.list_restores c.oadp_namespace s.1.uid in
        Moves-bind client first (λ _ x. x ≡ v) (λ _ x. x ≡ v) v (attempt (call list))
          (monitor_listed c)
          (Moves-keeps client first v (attempt (call list)) (
            Keeps-attempt client (call list)
              (Keeps-call client list (client.list_restores_keeps c.oadp_namespace s.1.uid))))
          (λ res x q.
            subst (λ y. Moves client first y (monitor_listed c res) (λ _ z. z ≡ v)) (sym q)
              (Moves-monitor_listed v res))
          s

    Moves-after_monitoring :
        (v : View) (m : Monitored)
        → stage c v ≡ Stage.waiting_for_restores
        → Moves client first v (after_monitoring c steps m) (Answers client)
    unfolding after_monitoring
    Moves-after_monitoring v m e =
        Moves-step client steps kept first v Stage.waiting_for_restores _ (λ _. proceeds)
          (Moves-bind client first (λ _ x. x ≡ v) (λ _ x. x ≡ v) v
            (if m.status_updated then update c steps else pure tt)
            (λ _. attempt steps.fix_data_download_pvc_names) updated
            (λ _ x q.
              Moves-weaken client first (λ _ y. y ≡ x) (λ _ y. y ≡ v) x
                (attempt steps.fix_data_download_pvc_names)
                (Moves-keeps client first x (attempt steps.fix_data_download_pvc_names)
                  (Keeps-attempt client steps.fix_data_download_pvc_names kept.fix_keeps))
                (λ _ y p. p ∙ q)))
          e (λ _ x q. goes_on x q)
      where
        proceeds : Handler World Bool
        proceeds = if ltb 0 m.in_progress then pure true else check_restored c steps m.counts

        updated :
            Moves client first v
              (if m.status_updated then update c steps else pure tt)
              (λ _ x. x ≡ v)
        updated = elim (Bool-cases m.status_updated) [
          | inl u ↦ rw u (Moves-update v)
          | inr u ↦ rw u (Moves-pure client first (λ _ x. x ≡ v) v tt refl)
        ]

        goes_on :
            (x : View)
            → stage c x ≡ Stage.waiting_for_restores
            → Moves client first x proceeds (Answers client)
        goes_on x q = elim (Bool-cases (ltb 0 m.in_progress)) [
          | inl busy ↦ rw busy (
              Moves-pure client first (Answers client) x true
                (requeues client steps kept first true x refl))
          | inr done ↦ rw done (Moves-check_restored x m.counts q)
        ]

    pub Moves-on_waiting_for_restores :
        (v : View)
        → stage c v ≡ Stage.waiting_for_restores
        → Moves client first v (on_waiting_for_restores c steps) (Answers client)
    unfolding on_waiting_for_restores
    Moves-on_waiting_for_restores v e =
        Moves-step client steps kept first v Stage.waiting_for_restores (monitor_velero_restores c)
          (after_monitoring c steps) (Moves-monitor_velero_restores v) e
          (λ m x q. Moves-after_monitoring x m q)
