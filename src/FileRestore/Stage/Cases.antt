-- ===== src/FileRestore/Stage/Cases.antt =====
-- How the steps of a reconciliation move the stage of a file restore.
use mathlib.Core.Bool.{true≢false}
use oadp_vm_file_restore.Prelude.{
  ◌≡◌, refl, sym, ap, ◌∙◌, inl, inr, ℕ, String, str_eq, [], ◌∷◌, Bool, true, false, ◌&&◌, Option,
  none, some, Bool-cases, if◌then◌else◌,
}
use oadp_vm_file_restore.Api.{Condition}
use oadp_vm_file_restore.FileRestore.Types.{
  FileRestore, FileRestorePhase, is_workflow_reason, velero_restore_cleanup_finalizer,
  vm_file_restore_finalizer,
}
use oadp_vm_file_restore.FileRestore.Client.{Client, Handler, pure, answered}
use oadp_vm_file_restore.FileRestore.Status.{
  settle, has_finalizer, add_finalizer, add_finalizers, ensure_finalizer, initial_conditions,
  initialize_phase_for_file_restore,
}
use oadp_vm_file_restore.FileRestore.Validation.{validate_and_discover_pvcs}
use oadp_vm_file_restore.FileRestore.Workflow.{
  Steps, workflow_case, execute_case, execute_file_restore_workflow,
}
use oadp_vm_file_restore.FileRestore.Reconcile.{
  is_active, is_unset, is_workflow, reconcile_steps, run_steps,
}
use oadp_vm_file_restore.FileRestore.Stage.{
  View, view, Stage, stage, stage_named, reason_of, Next, is_quiet,
}
use oadp_vm_file_restore.FileRestore.Stage.Rules.{
  IsClient, IsSteps, Moves, Moves-bind, Moves-pure, Ends-same, Moves-keeps, Moves-weaken,
  answered-Keeps,
}
use oadp_vm_file_restore.FileRestore.Stage.Writes.{IsNamed, stage_new-IsNamed, Moves-settle}
use oadp_vm_file_restore.FileRestore.Stage.Validates.{
  Answers, from, Moves-validate_and_discover_pvcs,
}
use oadp_vm_file_restore.FileRestore.Stage.Works.{
  requeues, Moves-on_validation_completed, Moves-on_namespace_ready,
}
use oadp_vm_file_restore.FileRestore.Stage.Waits.{Moves-on_waiting_for_restores}
use oadp_vm_file_restore.FileRestore.Stage.Serves.{
  Moves-on_restores_completed, Moves-on_credentials_ready, Moves-on_waiting_for_route,
}

module _ {c : Client} (client : IsClient c) (steps : Steps c.World)
    (kept : IsSteps c client steps) where
  open c use {World, find_status_condition}
  open client use {stored}

  module _ (first : Stage) where
    Moves-workflow_case :
        (v : View) (d : Stage) (reason : String)
        → is_workflow_reason reason ≡ true
        → stage c v ≡ stage_named d reason
        → Moves client first v (workflow_case c steps reason) (Answers client)
    unfolding workflow_case stage_named
    Moves-workflow_case v d reason h e = elim (Bool-cases (str_eq reason "DiscoveringPVCs")) [
      | inl x ↦ rw x (Moves-pure client first (Answers client) v false (λ _. rw e (rw x refl)))
      | inr n1 ↦ rw n1 (elim (Bool-cases (str_eq reason "ValidationCompleted")) [
        | inl x ↦
            rw x (Moves-on_validation_completed client steps kept first v (e ∙ rw (n1, x) refl))
        | inr n2 ↦ rw n2 (elim (Bool-cases (str_eq reason "NamespaceReady")) [
          | inl x ↦
              rw x (Moves-on_namespace_ready client steps kept first v (e ∙ rw (n1, n2, x) refl))
          | inr n3 ↦ rw n3 (elim (Bool-cases (str_eq reason "WaitingForRestores")) [
            | inl x ↦ rw x (
                Moves-on_waiting_for_restores client steps kept first v
                  (e ∙ rw (n1, n2, n3, x) refl))
            | inr n4 ↦ rw n4 (elim (Bool-cases (str_eq reason "RestoresCompleted")) [
              | inl x ↦ rw x (
                  Moves-on_restores_completed client steps kept first v
                    (e ∙ rw (n1, n2, n3, n4, x) refl))
              | inr n5 ↦ rw n5 (elim (Bool-cases (str_eq reason "CredentialsReady")) [
                | inl x ↦ rw x (
                    Moves-on_credentials_ready client steps kept first v
                      (e ∙ rw (n1, n2, n3, n4, n5, x) refl))
                | inr n6 ↦ rw n6 (elim (Bool-cases (str_eq reason "WaitingForRoute")) [
                  | inl x ↦ rw x (
                      Moves-on_waiting_for_route client steps kept first v
                        (e ∙ rw (n1, n2, n3, n4, n5, n6, x) refl))
                  | inr n7 ↦ absurd (true≢false (sym h ∙ rw (n1, n2, n3, n4, n5, n6) n7))
                ])
              ])
            ])
          ])
        ])
      ])
    ]

    stage-active :
        (v : View) (p : Condition)
        → is_active v.0 ≡ true
        → find_status_condition v.1 "Progressing" ≡ some p
        → (d : Stage) × (stage c v ≡ stage_named d p.reason)
    unfolding stage
    stage-active (FileRestorePhase.new, known) p a e =
        (Stage.new, ap (λ x. stage_named Stage.new (reason_of x)) e)
    stage-active (FileRestorePhase.in_progress, known) p a e =
        (Stage.validating, ap (λ x. stage_named Stage.validating (reason_of x)) e)
    stage-active (FileRestorePhase.unset, known) p a e = absurd (true≢false (sym a))
    stage-active (FileRestorePhase.completed, known) p a e = absurd (true≢false (sym a))
    stage-active (FileRestorePhase.partially_failed, known) p a e = absurd (true≢false (sym a))
    stage-active (FileRestorePhase.failed, known) p a e = absurd (true≢false (sym a))
    stage-active (FileRestorePhase.deleting, known) p a e = absurd (true≢false (sym a))

    Moves-execute_case :
        (v : View) (found : Option Condition)
        → is_active v.0 ≡ true
        → find_status_condition v.1 "Progressing" ≡ found
        → is_workflow found ≡ true
        → Moves client first v (execute_case c steps found) (Answers client)
    unfolding execute_case
    Moves-execute_case v none a e h = absurd (true≢false (sym h))
    Moves-execute_case v (some p) a e h =
        let named = stage-active v p a e in Moves-workflow_case v named.0 p.reason h named.1

    Moves-execute :
        (v : View)
        → is_active v.0 ≡ true
        → is_workflow (find_status_condition v.1 "Progressing") ≡ true
        → Moves client first v (execute_file_restore_workflow c steps) (Answers client)
    unfolding execute_file_restore_workflow
    Moves-execute v a h s i e =
        let same : find_status_condition v.1 "Progressing"
            ≡ find_status_condition s.1.status.conditions "Progressing" =
          ap (λ (x : View). find_status_condition x.1 "Progressing") (sym (i ∙ e)) in
        Moves-execute_case v (find_status_condition s.1.status.conditions "Progressing") a same
          (sym (ap is_workflow same) ∙ h) s i e

    Moves-add_finalizers : (v : View) → Moves client first v (add_finalizers c) (λ _ x. x ≡ v)
    unfolding add_finalizers
    Moves-add_finalizers v s i e r =
        let modified = record s.1 {
          finalizers =
              add_finalizer vm_file_restore_finalizer
                (add_finalizer velero_restore_cleanup_finalizer s.1.finalizers);
        } in
        let wrote = client.patch_wrote s.1 modified s.0 in
        let after =
          answered-Keeps client modified (stored s.0) (c.patch s.1 modified s.0) i wrote in
        Ends-same client first v (answered modified (c.patch s.1 modified s.0)) after.0
          (after.1 ∙ e) r

    Moves-ensure_finalizer : (v : View) → Moves client first v (ensure_finalizer c) (λ _ x. x ≡ v)
    unfolding ensure_finalizer
    Moves-ensure_finalizer v s =
        elim (Bool-cases (
          has_finalizer velero_restore_cleanup_finalizer s.1.finalizers
          && has_finalizer vm_file_restore_finalizer s.1.finalizers)) [
            | inl both ↦ rw both (Moves-pure client first (λ _ x. x ≡ v) v false refl s)
            | inr absent ↦ rw absent (
                Moves-bind client first (λ _ x. x ≡ v) (λ _ x. x ≡ v) v (add_finalizers c)
                  (λ _. pure true) (Moves-add_finalizers v)
                  (λ _ x q. Moves-pure client first (λ _ y. y ≡ v) x true q) s)
          ]

    Moves-initialize :
        (v : View)
        → stage c v ≡ Stage.unset
        → Moves client first v (initialize_phase_for_file_restore c) (Answers client)
    unfolding initialize_phase_for_file_restore IsNamed stage_named
    Moves-initialize v e =
        Moves-weaken client first (λ b x. (b ≡ true) × (stage c x ≡ Stage.new)) (Answers client) v
          (settle c FileRestorePhase.new initial_conditions true true)
          (Moves-settle client first v FileRestorePhase.new initial_conditions true true Stage.new
            (λ t k.
              stage_new-IsNamed client "Initialized" (initial_conditions t) k
                (refl, refl, (refl, (refl, (refl, tt)))))
            (from client v e Next.accept))
          (λ b x q. requeues client steps kept first b x q.0)

    -- One step, after those that are done with.
    Moves-last :
        (v : View) (m : Handler World Bool)
        → Moves client first v m (Answers client)
        → Moves client first v (run_steps c steps (m ∷ [])) (Answers client)
    unfolding run_steps
    Moves-last v m h =
        Moves-bind client first (Answers client) (Answers client) v m
          (λ requeue. if requeue then pure true else pure false) h again
      where
        again :
            (requeue : Bool) (x : View)
            → Answers client requeue x
            → Moves client first x (if requeue then pure true else pure false) (Answers client)
        again true x q = Moves-pure client first (Answers client) x true q
        again false x q = Moves-pure client first (Answers client) x false q

    Moves-accept :
        (v : View)
        → stage c v ≡ Stage.unset
        → Moves client first v
            (run_steps c steps (ensure_finalizer c ∷ initialize_phase_for_file_restore c ∷ []))
            (Answers client)
    unfolding run_steps
    Moves-accept v e =
        Moves-bind client first (λ _ x. x ≡ v) (Answers client) v (ensure_finalizer c)
          (λ requeue.
            if requeue
            then pure true
            else run_steps c steps (initialize_phase_for_file_restore c ∷ []))
          (Moves-ensure_finalizer v) after
      where
        after :
            (requeue : Bool) (x : View)
            → x ≡ v
            → Moves client first x
                (if requeue
                  then pure true
                  else run_steps c steps (initialize_phase_for_file_restore c ∷ []))
                (Answers client)
        after true x q =
            Moves-pure client first (Answers client) x true
              (requeues client steps kept first true x refl)
        after false x q =
            Moves-last x (initialize_phase_for_file_restore c)
              (Moves-initialize x (ap (stage c) q ∙ e))

    -- In an active phase: the workflow, or the validation.
    Moves-active :
        (v : View)
        → is_active v.0 ≡ true
        → Moves client first v
            (run_steps c steps (
              if is_workflow (find_status_condition v.1 "Progressing")
              then execute_file_restore_workflow c steps ∷ []
              else validate_and_discover_pvcs c ∷ []))
            (Answers client)
    Moves-active v a = elim (Bool-cases (is_workflow (find_status_condition v.1 "Progressing"))) [
      | inl busy ↦
          rw busy (Moves-last v (execute_file_restore_workflow c steps) (Moves-execute v a busy))
      | inr fresh ↦ rw fresh (
          Moves-last v (validate_and_discover_pvcs c)
            (Moves-validate_and_discover_pvcs client first v a fresh))
    ]

    Moves-nothing :
        (v : View)
        → is_quiet (stage c v) ≡ true
        → Moves client first v (run_steps c steps []) (Answers client)
    unfolding run_steps
    Moves-nothing v q = Moves-pure client first (Answers client) v false (λ _. q)

    Moves-by_phase :
        (v : View)
        → Moves client first v
            (run_steps c steps (
              if is_unset v.0
              then ensure_finalizer c ∷ initialize_phase_for_file_restore c ∷ []
              else if is_active v.0
              then (if is_workflow (find_status_condition v.1 "Progressing")
                  then execute_file_restore_workflow c steps ∷ []
                  else validate_and_discover_pvcs c ∷ [])
              else []))
            (Answers client)
    unfolding stage
    Moves-by_phase (FileRestorePhase.unset, known) =
        Moves-accept (FileRestorePhase.unset, known) refl
    Moves-by_phase (FileRestorePhase.new, known) = Moves-active (FileRestorePhase.new, known) refl
    Moves-by_phase (FileRestorePhase.in_progress, known) =
        Moves-active (FileRestorePhase.in_progress, known) refl
    Moves-by_phase (FileRestorePhase.completed, known) =
        Moves-nothing (FileRestorePhase.completed, known) refl
    Moves-by_phase (FileRestorePhase.partially_failed, known) =
        Moves-nothing (FileRestorePhase.partially_failed, known) refl
    Moves-by_phase (FileRestorePhase.failed, known) =
        Moves-nothing (FileRestorePhase.failed, known) refl
    Moves-by_phase (FileRestorePhase.deleting, known) =
        Moves-nothing (FileRestorePhase.deleting, known) refl

    -- The steps for a resource that is not being deleted.
    pub Moves-reconcile_steps :
        (v : View) (o : FileRestore)
        → view o.status ≡ v
        → o.deletion_timestamp ≡ none
        → Moves client first v (run_steps c steps (reconcile_steps c steps o)) (Answers client)
    unfolding reconcile_steps
    Moves-reconcile_steps v o shown alive =
        rw
          (
            alive,
            ap (λ (x : View). is_unset x.0) shown,
            ap (λ (x : View). is_active x.0) shown,
            ap (λ (x : View). is_workflow (find_status_condition x.1 "Progressing")) shown,
          )
          (Moves-by_phase v)

    -- The steps of a deletion write neither phase nor conditions.
    Moves-deletion :
        (v : View)
        → Moves client first v
            (run_steps c steps
              (steps.handle_velero_restore_cleanup ∷ steps.handle_resource_cleanup ∷ []))
            (λ _ _. Unit)
    unfolding run_steps
    Moves-deletion v =
        Moves-bind client first (λ _ x. x ≡ v) (λ _ _. Unit) v steps.handle_velero_restore_cleanup
          (λ requeue.
            if requeue then pure true else run_steps c steps (steps.handle_resource_cleanup ∷ []))
          (Moves-keeps client first v steps.handle_velero_restore_cleanup kept.cleanup_keeps) after
      where
        finish :
            (requeue : Bool) (x : View)
            → Moves client first x (if requeue then pure true else pure false) (λ _ _. Unit)
        finish true x = Moves-pure client first (λ _ _. Unit) x true tt
        finish false x = Moves-pure client first (λ _ _. Unit) x false tt

        after :
            (requeue : Bool) (x : View)
            → x ≡ v
            → Moves client first x
                (if requeue
                  then pure true
                  else run_steps c steps (steps.handle_resource_cleanup ∷ []))
                (λ _ _. Unit)
        after true x q = Moves-pure client first (λ _ _. Unit) x true tt
        after false x q =
            Moves-bind client first (λ _ y. y ≡ x) (λ _ _. Unit) x steps.handle_resource_cleanup
              (λ requeue. if requeue then pure true else pure false)
              (Moves-keeps client first x steps.handle_resource_cleanup kept.resources_keep)
              (λ requeue y _. finish requeue y)

    pub Moves-reconcile_deletion :
        (v : View) (o : FileRestore) (t : ℕ)
        → o.deletion_timestamp ≡ some t
        → Moves client first v (run_steps c steps (reconcile_steps c steps o)) (λ _ _. Unit)
    unfolding reconcile_steps
    Moves-reconcile_deletion v o t dying = rw dying (Moves-deletion v)
