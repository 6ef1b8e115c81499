-- ===== src/FileRestore/Reconcile.antt =====
-- internal/controller/virtualmachinefilerestore_controller.go: Reconcile.
use oadp_vm_file_restore.Prelude.{
  List, [], ◌∷◌, Bool, true, false, Option, none, some, if◌then◌else◌,
}
use oadp_vm_file_restore.Api.{Condition}
use oadp_vm_file_restore.Discovery.Cluster.{not_found, Result, ok, err, ◌>>=◌}
use oadp_vm_file_restore.FileRestore.Types.{FileRestore, FileRestorePhase, is_workflow_reason}
use oadp_vm_file_restore.FileRestore.Client.{Client, Handler, pure}
use oadp_vm_file_restore.FileRestore.Status.{ensure_finalizer, initialize_phase_for_file_restore}
use oadp_vm_file_restore.FileRestore.Validation.{validate_and_discover_pvcs}
use oadp_vm_file_restore.FileRestore.Workflow.{Steps, execute_file_restore_workflow}

-- The phases in which the controller validates, or carries out the workflow.
abbrev pub is_active : FileRestorePhase → Bool
is_active FileRestorePhase.new = true
is_active FileRestorePhase.in_progress = true
is_active _ = false

abbrev pub is_unset : FileRestorePhase → Bool
is_unset FileRestorePhase.unset = true
is_unset _ = false

abbrev pub is_workflow : Option Condition → Bool
is_workflow none = false
is_workflow (some progressing) = is_workflow_reason progressing.reason

module _ (c : Client) (steps : Steps c.World) where
  open c use {World, get, find_status_condition}

  -- The steps, by the object.
  unfoldable pub reconcile_steps : FileRestore → List (Handler World Bool)
  unfolding ensure_finalizer initialize_phase_for_file_restore validate_and_discover_pvcs
      execute_file_restore_workflow
  reconcile_steps o = elim o.deletion_timestamp [
    | some t ↦ steps.handle_velero_restore_cleanup ∷ steps.handle_resource_cleanup ∷ []
    | none ↦
        if is_unset o.status.phase
        then ensure_finalizer c ∷ initialize_phase_for_file_restore c ∷ []
        else if is_active o.status.phase
        then (if is_workflow (find_status_condition o.status.conditions "Progressing")
            then execute_file_restore_workflow c steps ∷ []
            else validate_and_discover_pvcs c ∷ [])
        else []
  ]

  -- The loop over the steps: it ends at an error, or with the first step that asks to requeue.
  unfoldable pub run_steps : List (Handler World Bool) → Handler World Bool
  run_steps [] = pure false
  run_steps (step ∷ rest) = step >>= (λ requeue. if requeue then pure true else run_steps rest)

  unfoldable pub after_get : World × Result FileRestore → World × Result Bool
  unfolding reconcile_steps run_steps
  after_get (w, err not_found) = (w, ok false)
  after_get (w, err e) = (w, err e)
  after_get (w, ok o) = let p = run_steps (reconcile_steps o) (w, o) in (p.0.0, p.1)

  -- The result says whether to requeue.
  unfoldable pub reconcile : World → World × Result Bool
  unfolding after_get
  reconcile w = after_get (get w)
