-- ===== src/FileRestore/Workflow.antt =====
-- internal/controller/virtualmachinefilerestore_controller.go: executeFileRestoreWorkflow, a case
-- of its switch at a time. What the cases call in turn, they take from the interface `Steps`.
use oadp_vm_file_restore.Prelude.{
  ℕ, ◌+◌, ◌==◌, ltb, String, ◌<>◌, str_eq, List, [], ◌∷◌, Bool, true, false, not, ◌&&◌, Option,
  none, some, if◌then◌else◌,
}
use oadp_vm_file_restore.Api.{Condition}
use oadp_vm_file_restore.Discovery.Cluster.{error_text, other, Result, ok, err, ◌>>=◌}
use oadp_vm_file_restore.FileRestore.Types.{
  FileRestore, FileRestorePhase, FileAccessSpec, FileServingInfo,
}
use oadp_vm_file_restore.FileRestore.Client.{Client, Handler, pure, throw, attempt, call, answered}
use oadp_vm_file_restore.FileRestore.Status.{condition, patch_since, settle, fail_validation}
use oadp_vm_file_restore.FileRestore.Validation.{count_text}
use oadp_vm_file_restore.FileRestore.Monitor.{
  check_velero_restores_already_created, PhaseCounts, Monitored, monitor_velero_restores,
}

-- The operations that create, read and delete the objects of a restore.
pub record Steps (W : Type 0) : Type 0 where
  pub ensure_restore_namespace : Handler W String
  pub create_velero_restores : Handler W (Unit {0})
  pub fix_data_download_pvc_names : Handler W ℕ
  pub validate_restored_pvcs : Handler W Bool
  pub ensure_credentials : Handler W (Unit {0})
  pub create_file_server_resources : Handler W (Unit {0})
  pub update_file_serving_info : String → Handler W (Unit {0})
  pub handle_velero_restore_cleanup : Handler W Bool
  pub handle_resource_cleanup : Handler W Bool

-- The four conditions of a workflow that is under way.
abbrev pub under_way : String → String → String → String → String → String → ℕ → List Condition
under_way reason message pending pending_message degraded_message ready_message t =
    condition "Progressing" true reason message t
    ∷ condition "Available" false pending pending_message t
    ∷ condition "Degraded" false "NoFailures" degraded_message t
    ∷ condition "Ready" false "InProgress" ready_message t
    ∷ []

-- The file browser is to be reached from outside.
unfoldable pub external_route_requested : Option FileAccessSpec → Bool
external_route_requested none = false
external_route_requested (some access) = elim access.file_browser [
  | none ↦ false
  | some browser ↦ browser.expose_externally
]

unfoldable pub route_ready : Option FileServingInfo → Bool
route_ready none = false
route_ready (some info) = elim info.file_browser [
  | none ↦ false
  | some browser ↦ not (str_eq browser.public_access "")
]

abbrev pub served : String → String → ℕ → List Condition
served message ready_message t =
    condition "Progressing" false "FileServerCreated" message t
    ∷ condition "Available" true "FileServerAvailable" "File server is accessible and serving files"
        t
    ∷ condition "Degraded" false "NoFailures" "All operations completed successfully" t
    ∷ condition "Ready" true "Completed" ready_message t
    ∷ []

abbrev pub namespace_ready : String → ℕ → List Condition
namespace_ready ns =
    under_way "NamespaceReady"
      ("Restore namespace '" <> ns <> "' is ready, proceeding with Velero restore creation")
      "PreparingRestores" "Namespace created, Velero restore creation pending"
      "No failures detected" "File restore workflow in progress"

abbrev pub waiting_for_restores : ℕ → List Condition
waiting_for_restores =
    under_way "WaitingForRestores" "Waiting for Velero Restore(s) to complete" "RestoresInProgress"
      "Velero Restores are in progress" "No failures detected" "File restore workflow in progress"

abbrev pub restores_completed : ℕ → ℕ → List Condition
restores_completed total =
    under_way "RestoresCompleted"
      ("All "
        <> count_text total
        <> " Velero Restores and PVCs ready, proceeding to file server creation")
      "FileServerPending" "PVCs restored, file server creation pending"
      "All Velero Restores completed without errors" "File server creation pending"

abbrev pub credentials_ready : ℕ → List Condition
credentials_ready =
    under_way "CredentialsReady"
      "Credentials validated and ready, proceeding to file server creation" "FileServerPending"
      "Credentials ready, file server creation pending" "No failures detected"
      "File server creation pending"

abbrev pub restored_in_part : ℕ → ℕ → ℕ → ℕ → List Condition
restored_in_part completed failed total t =
    condition "Progressing" false "RestoresCompletedWithFailures"
      ("Velero Restores completed: "
        <> count_text completed
        <> " succeeded, "
        <> count_text failed
        <> " failed")
      t
    ∷ condition "Available" true "PartialRestoreSuccess"
        ("Successfully restored "
          <> count_text completed
          <> " PVCs, "
          <> count_text failed
          <> " failed")
        t
    ∷ condition "Degraded" true "SomeRestoresFailed"
        (count_text failed <> " of " <> count_text total <> " Velero Restores failed") t
    ∷ condition "Ready" true "PartiallyFailed" "File restore completed with partial failures" t
    ∷ []

abbrev pub restores_failed : ℕ → ℕ → List Condition
restores_failed total t =
    condition "Progressing" false "RestoresFailed"
      ("All " <> count_text total <> " Velero Restores failed") t
    ∷ condition "Available" false "AllRestoresFailed" "No PVCs were successfully restored" t
    ∷ condition "Degraded" true "CriticalFailure" "All Velero Restores failed" t
    ∷ condition "Ready" false "Failed" "File restore failed completely" t
    ∷ []

abbrev pub waiting_for_route : ℕ → List Condition
waiting_for_route t =
    condition "Progressing" true "WaitingForRoute"
      "File server created, waiting for external route hostname to be assigned" t
    ∷ condition "Available" true "FileServerAvailable"
        "File server is accessible via cluster-internal URL, external route pending" t
    ∷ condition "Degraded" false "NoFailures" "All operations completed successfully" t
    ∷ condition "Ready" false "WaitingForRoute" "Waiting for external route hostname assignment" t
    ∷ []

module _ (c : Client) (steps : Steps c.World) where
  open c use {World, update_status, list_services, now, find_status_condition}
  open steps use {
    ensure_restore_namespace, create_velero_restores, fix_data_download_pvc_names,
    validate_restored_pvcs, ensure_credentials, create_file_server_resources,
    update_file_serving_info,
  }

  unfoldable pub value_or_fail : {A : Type 0} → String → String → Result A → Handler World A
  unfolding fail_validation
  value_or_fail reason message (err e) = fail_validation c reason (message <> ": " <> error_text e)
  value_or_fail reason message (ok a) = pure a

  -- A step that fails ends the restore.
  unfoldable pub or_fail : {A : Type 0} → String → String → Handler World A → Handler World A
  unfolding value_or_fail
  or_fail reason message m = attempt m >>= value_or_fail reason message

  -- A patch that stays in InProgress, and a requeue.
  unfoldable pub advance : (ℕ → List Condition) → Handler World Bool
  unfolding settle
  advance conditions = settle c FileRestorePhase.in_progress conditions false true

  unfoldable pub on_validation_completed : Handler World Bool
  unfolding or_fail advance
  on_validation_completed =
      or_fail "NamespaceCreationFailed" "Failed to create/validate restore namespace"
        ensure_restore_namespace
      >>= (λ ns. advance (namespace_ready ns))

  unfoldable pub ensure_velero_restores : Handler World (Unit {0})
  unfolding check_velero_restores_already_created or_fail
  ensure_velero_restores s =
      if check_velero_restores_already_created s.1.status.pvc_restores
      then pure tt s
      else or_fail "RestoreCreationFailed" "Failed to create Velero Restores" create_velero_restores
          s

  unfoldable pub on_namespace_ready : Handler World Bool
  unfolding ensure_velero_restores advance
  on_namespace_ready = ensure_velero_restores >>= (λ _. advance waiting_for_restores)

  -- The end of the wait: the phase by the numbers of restores that completed and that failed.
  unfoldable pub conclude_restores : PhaseCounts → Handler World Bool
  unfolding settle advance
  conclude_restores n =
      let total = n.completed + n.failed + n.in_progress in
      if total == 0
      then throw (other "no Velero Restores found - this indicates a serious workflow bug")
      else if (n.failed == 0) && ltb 0 n.completed
      then advance (restores_completed total)
      else if ltb 0 n.completed
      then settle c FileRestorePhase.partially_failed (restored_in_part n.completed n.failed total)
          false false
      else settle c FileRestorePhase.failed (restores_failed total) false false

  -- Status().Update of the object in hand.
  unfoldable pub update : Handler World (Unit {0})
  update s = answered s.1 (update_status s.1 s.0)

  unfoldable pub after_check : PhaseCounts → Bool → Handler World Bool
  unfolding conclude_restores
  after_check n true = conclude_restores n
  after_check n false = pure true

  -- Once no restore is in progress.
  unfoldable pub check_restored : PhaseCounts → Handler World Bool
  unfolding or_fail after_check
  check_restored n =
      (if ltb 0 n.completed
        then or_fail "PVCValidationFailed" "PVC validation failed" validate_restored_pvcs
        else pure true)
      >>= after_check n

  unfoldable pub after_monitoring : Monitored → Handler World Bool
  unfolding update check_restored
  after_monitoring m =
      (if m.status_updated then update else pure tt)
      >>= (λ _. attempt fix_data_download_pvc_names)
      >>= (λ _. if ltb 0 m.in_progress then pure true else check_restored m.counts)

  unfoldable pub on_waiting_for_restores : Handler World Bool
  unfolding monitor_velero_restores after_monitoring
  on_waiting_for_restores = monitor_velero_restores c >>= after_monitoring

  unfoldable pub on_restores_completed : Handler World Bool
  unfolding or_fail advance
  on_restores_completed =
      or_fail "CredentialsPreparationFailed" "Failed to prepare credentials" ensure_credentials
      >>= (λ _. advance credentials_ready)

  -- A patch against an object from before, and then a result.
  unfoldable pub settle_since :
      FileRestore → FileRestorePhase → (ℕ → List Condition) → Bool → Handler World Bool
  unfolding patch_since
  settle_since base phase conditions requeue s =
      (patch_since c base phase (conditions (now s.0)) false >>= (λ _. pure requeue)) s

  -- The object `base` is the one from before the file server was created.
  unfoldable pub publish : FileRestore → Handler World Bool
  unfolding external_route_requested route_ready settle_since
  publish base s =
      if external_route_requested s.1.spec.file_access
        && not (route_ready s.1.status.file_serving_info)
      then settle_since base FileRestorePhase.in_progress waiting_for_route true s
      else settle_since base FileRestorePhase.completed
          (served "File server pod and service created, PVCs binding in progress"
            "File restore completed, files accessible via file server")
          false s

  unfoldable pub on_credentials_ready : Handler World Bool
  unfolding or_fail publish
  on_credentials_ready s =
      (or_fail "FileServerCreationFailed" "Failed to create file server resources"
            create_file_server_resources
          >>= (λ _. publish s.1))
        s

  unfoldable pub publish_route : FileRestore → Handler World Bool
  unfolding route_ready settle_since
  publish_route base s =
      if not (route_ready s.1.status.file_serving_info)
      then pure true s
      else settle_since base FileRestorePhase.completed
          (served "File server and external route are ready"
            "File restore completed, files accessible via file server and external route")
          false s

  unfoldable pub update_route : List String → Handler World Bool
  unfolding publish_route
  update_route [] s = throw (other "no service found for this VMFR") s
  update_route (service ∷ rest) s =
      (update_file_serving_info service >>= (λ _. publish_route s.1)) s

  unfoldable pub on_waiting_for_route : Handler World Bool
  unfolding update_route
  on_waiting_for_route s =
      let ns = s.1.status.created_namespace in
      if str_eq ns ""
      then throw (other "restore namespace not found in status") s
      else (call (list_services ns s.1.uid) >>= update_route) s

  -- The switch on the reason of the Progressing condition.
  unfoldable pub workflow_case : String → Handler World Bool
  unfolding on_validation_completed on_namespace_ready on_waiting_for_restores on_restores_completed
      on_credentials_ready on_waiting_for_route
  workflow_case reason =
      if str_eq reason "DiscoveringPVCs"
      then pure false
      else if str_eq reason "ValidationCompleted"
      then on_validation_completed
      else if str_eq reason "NamespaceReady"
      then on_namespace_ready
      else if str_eq reason "WaitingForRestores"
      then on_waiting_for_restores
      else if str_eq reason "RestoresCompleted"
      then on_restores_completed
      else if str_eq reason "CredentialsReady"
      then on_credentials_ready
      else if str_eq reason "WaitingForRoute"
      then on_waiting_for_route
      else pure false

  unfoldable pub execute_case : Option Condition → Handler World Bool
  unfolding workflow_case
  execute_case none = throw (other "progressing condition not found in workflow execution phase")
  execute_case (some progressing) = workflow_case progressing.reason

  unfoldable pub execute_file_restore_workflow : Handler World Bool
  unfolding execute_case
  execute_file_restore_workflow s =
      execute_case (find_status_condition s.1.status.conditions "Progressing") s
