-- ===== src/FileRestore/Status.antt =====
-- internal/controller/virtualmachinefilerestore_controller.go: the writes of the status, from
-- patchVmfrStatusPhaseConditions to initializePhaseForFileRestore.
use oadp_vm_file_restore.Prelude.{
  ℕ, String, ◌<>◌, str_eq, List, [], ◌∷◌, ◌++◌, Bool, true, false, any, ◌&&◌, if◌then◌else◌,
}
use oadp_vm_file_restore.Api.{Condition}
use oadp_vm_file_restore.Discovery.Cluster.{other, ◌>>=◌}
use oadp_vm_file_restore.FileRestore.Types.{
  FileRestore, FileRestorePhase, velero_restore_cleanup_finalizer, vm_file_restore_finalizer,
}
use oadp_vm_file_restore.FileRestore.Client.{Client, Handler, pure, throw, answered}

abbrev pub condition : String → Bool → String → String → ℕ → Condition
condition type status reason message now = record {
  type = type;
  status = status;
  reason = reason;
  message = message;
  last_transition_time = now;
}

abbrev pub failed_conditions : String → String → ℕ → List Condition
failed_conditions reason message t =
    condition "Progressing" false "ValidationFailed" message t
    ∷ condition "Available" false reason message t
    ∷ condition "Degraded" true "CriticalFailure" message t
    ∷ condition "Ready" false "Failed" message t
    ∷ []

abbrev pub partially_failed_conditions : String → String → ℕ → List Condition
partially_failed_conditions reason message t =
    condition "Progressing" false "PartialValidationFailed" message t
    ∷ condition "Available" true reason "Some PVCs are available but not all backups succeeded" t
    ∷ condition "Degraded" true "PartialFailure" message t
    ∷ condition "Ready" false "PartiallyFailed" message t
    ∷ []

abbrev pub initial_conditions : ℕ → List Condition
initial_conditions t =
    condition "Progressing" false "Initialized" "File restore request has been accepted" t
    ∷ condition "Available" false "NotStarted" "File serving resources not yet created" t
    ∷ condition "Degraded" false "NoFailures" "No errors have occurred" t
    ∷ condition "Ready" false "NotReady" "File restore has not started processing" t
    ∷ []

abbrev pub has_finalizer : String → List String → Bool
has_finalizer f known = any (λ g. str_eq g f) known

-- controllerutil.AddFinalizer
abbrev pub add_finalizer : String → List String → List String
add_finalizer f known = if has_finalizer f known then known else known ++ f ∷ []

module _ (c : Client) where
  open c use {World, patch_status, patch, now, set_status_condition}

  unfoldable pub set_conditions : List Condition → List Condition → List Condition
  set_conditions [] known = known
  set_conditions (cond ∷ rest) known = set_conditions rest (set_status_condition known cond)

  -- The status with a phase, with conditions, and with the generation observed.
  unfoldable pub with_phase : FileRestorePhase → List Condition → Bool → FileRestore → FileRestore
  unfolding set_conditions
  with_phase phase conditions update_observed_gen o = record o {
    status = record o.status {
      phase = phase;
      observed_generation =
          if update_observed_gen then o.generation else o.status.observed_generation;
      conditions = set_conditions conditions o.status.conditions;
    };
  }

  -- A patch of the status, as against the object `base`.
  unfoldable pub patch_since :
      FileRestore → FileRestorePhase → List Condition → Bool → Handler World (Unit {0})
  unfolding with_phase
  patch_since base phase conditions update_observed_gen s =
      let modified = with_phase phase conditions update_observed_gen s.1 in
      answered modified (patch_status base modified s.0)

  unfoldable pub patch_phase_conditions :
      FileRestorePhase → List Condition → Bool → Handler World (Unit {0})
  unfolding patch_since
  patch_phase_conditions phase conditions update_observed_gen s =
      patch_since s.1 phase conditions update_observed_gen s

  -- A patch with the conditions of the moment, and then a result.
  unfoldable pub settle :
      {A : Type 0} → FileRestorePhase → (ℕ → List Condition) → Bool → A → Handler World A
  unfolding patch_phase_conditions
  settle phase conditions update_observed_gen a s =
      (patch_phase_conditions phase (conditions (now s.0)) update_observed_gen >>= (λ _. pure a)) s

  unfoldable pub fail_validation : {A : Type 0} → String → String → Handler World A
  unfolding settle
  fail_validation reason message =
      settle FileRestorePhase.failed (failed_conditions reason message) false tt
      >>= (λ _. throw (other ("validation failed: " <> message)))

  unfoldable pub fail_partial_validation : {A : Type 0} → String → String → Handler World A
  unfolding settle
  fail_partial_validation reason message =
      settle FileRestorePhase.partially_failed (partially_failed_conditions reason message) false tt
      >>= (λ _. throw (other ("partial validation failed: " <> message)))

  -- A patch of the finalizers alone.
  unfoldable pub add_finalizers : Handler World (Unit {0})
  add_finalizers s =
      let modified = record s.1 {
        finalizers =
            add_finalizer vm_file_restore_finalizer
              (add_finalizer velero_restore_cleanup_finalizer s.1.finalizers);
      } in
      answered modified (patch s.1 modified s.0)

  -- The finalizers are as they were if both were there already.
  unfoldable pub ensure_finalizer : Handler World Bool
  unfolding add_finalizers
  ensure_finalizer s =
      if has_finalizer velero_restore_cleanup_finalizer s.1.finalizers
        && has_finalizer vm_file_restore_finalizer s.1.finalizers
      then pure false s
      else (add_finalizers >>= (λ _. pure true)) s

  unfoldable pub initialize_phase_for_file_restore : Handler World Bool
  unfolding settle
  initialize_phase_for_file_restore = settle FileRestorePhase.new initial_conditions true true
