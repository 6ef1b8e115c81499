-- ===== src/FileRestore/Validation.antt =====
-- internal/controller/virtualmachinefilerestore_controller.go: the validation of a file restore,
-- from validateReferencedDiscovery to validateAndDiscoverPVCs.
use oadp_vm_file_restore.Prelude.{
  ℕ, ◌+◌, String, ◌<>◌, List, [], ◌∷◌, Bool, true, false, Option, none, some, is_empty, length, map,
  not, ◌&&◌, pos, if◌then◌else◌,
}
use oadp_vm_file_restore.Api.{
  BackupsDiscovery, BackupDiscoveryProgress, DiscoveryPhase, VeleroBackupInfo, Condition,
}
use oadp_vm_file_restore.Discovery.Cluster.{error_text, not_found, other, Result, ok, err, ◌>>=◌}
use oadp_vm_file_restore.Velero.Spec.{itoa}
use oadp_vm_file_restore.FileRestore.Types.{FileRestorePhase}
use oadp_vm_file_restore.FileRestore.Client.{Client, Handler, pure, attempt, call, asks, answered}
use oadp_vm_file_restore.FileRestore.Status.{
  condition, patch_phase_conditions, settle, fail_validation, fail_partial_validation,
}
use oadp_vm_file_restore.FileRestore.Selection.{get_filtered_backups_to_serve}
use oadp_vm_file_restore.FileRestore.Extract.{discover_pvcs_from_single_backup}
use oadp_vm_file_restore.FileRestore.Groups.{pvc_restores_of}
use oadp_vm_file_restore.FileRestore.Availability.{
  PvcCounts, no_pvcs, count_pvcs, judge, Verdict, no_available_backups, partial_availability,
  proceed,
}

abbrev pub count_text : ℕ → String
count_text n = itoa (pos n)

abbrev pub is_new_phase : FileRestorePhase → Bool
is_new_phase FileRestorePhase.new = true
is_new_phase _ = false

-- A discovery that has not finished.
abbrev pub is_running : DiscoveryPhase → Bool
is_running DiscoveryPhase.new = true
is_running DiscoveryPhase.in_progress = true
is_running _ = false

abbrev pub validating_conditions : List Condition
validating_conditions =
    condition "Progressing" true "Validating"
      "Validating discovery reference and discovering PVCs from backups" 0
    ∷ condition "Available" false "InProgress" "Validation in progress" 0
    ∷ condition "Degraded" false "NoFailures" "No failures detected yet" 0
    ∷ condition "Ready" false "InProgress" "Validation in progress" 0
    ∷ []

abbrev pub waiting_conditions : ℕ → List Condition
waiting_conditions t =
    condition "Progressing" true "WaitingForDiscovery" "Waiting for backup discovery to complete" t
    ∷ condition "Available" false "DiscoveryInProgress" "Discovery not yet completed" t
    ∷ condition "Degraded" false "NoFailures" "No failures detected" t
    ∷ condition "Ready" false "DiscoveryInProgress" "Waiting for backup discovery to complete" t
    ∷ []

abbrev pub discovering_conditions : ℕ → ℕ → List Condition
discovering_conditions backups t =
    condition "Progressing" true "DiscoveringPVCs"
      ("Discovering PVCs from " <> count_text backups <> " backups") t
    ∷ []

abbrev pub validated_conditions : ℕ → ℕ → List Condition
validated_conditions backups t =
    condition "Progressing" true "ValidationCompleted"
      ("PVC discovery completed for " <> count_text backups <> " backups, ready to create restores")
      t
    ∷ condition "Available" false "InProgress" "Validation completed, restore creation pending" t
    ∷ condition "Degraded" false "NoFailures" "No failures detected during validation" t
    ∷ condition "Ready" false "InProgress" "File restore in progress" t
    ∷ []

-- The error of a write, in the words of the caller.
abbrev pub wrapped : {W A : Type 0} → String → W × Result A → W × Result A
wrapped message (w, ok a) = (w, ok a)
wrapped message (w, err e) = (w, err (other (message <> ": " <> error_text e)))

module _ (c : Client) where
  open c use {World, get_discovery, patch_status, arrive, now, deep_equal}

  -- `none`: the discovery is not ready, and the caller is to return and requeue.
  unfoldable pub check_discovery :
      String → String → Result BackupsDiscovery → Handler World (Option BackupsDiscovery)
  unfolding fail_validation settle
  check_discovery ref ns (err not_found) = fail_validation c "DiscoveryNotFound" (
      "Referenced VirtualMachineBackupsDiscovery '" <> ref <> "' not found in namespace '" <> ns
      <> "'")
  check_discovery ref ns (err e) = fail_validation c "DiscoveryGetFailed" (
      "Failed to get referenced VirtualMachineBackupsDiscovery '" <> ref <> "' in namespace '" <> ns
      <> "'")
  check_discovery ref ns (ok vmbd) =
      if is_running vmbd.status.phase
      then settle c FileRestorePhase.in_progress waiting_conditions false none
      else pure (some vmbd)

  unfoldable pub validate_referenced_discovery : Handler World (Option BackupsDiscovery)
  unfolding check_discovery
  validate_referenced_discovery s =
      let ref = s.1.spec.backups_discovery_ref in
      let ns = s.1.namespace in (attempt (call (get_discovery ref ns)) >>= check_discovery ref ns) s

  unfoldable pub after_selection :
      String → List String → Result (List VeleroBackupInfo) → Handler World (List VeleroBackupInfo)
  unfolding fail_validation
  after_selection ref selected (err e) = fail_validation c "InvalidSelectedBackups" (error_text e)
  after_selection ref selected (ok to_serve) =
      if not (is_empty selected) && is_empty to_serve
      then fail_validation c "InvalidSelectedBackups"
          ("None of the selected backups were found in discovery '" <> ref <> "'")
      else if is_empty to_serve
      then fail_validation c "NoValidBackups"
          "No valid backups available for file restore after applying filters"
      else pure to_serve

  unfoldable pub validate_discovery_backups :
      BackupsDiscovery → Handler World (List VeleroBackupInfo)
  unfolding fail_validation get_filtered_backups_to_serve after_selection
  validate_discovery_backups vmbd s =
      let ref = s.1.spec.backups_discovery_ref in
      let selected = s.1.spec.selected_backups in
      let valid = vmbd.status.valid_backups in
      if is_empty valid
      then fail_validation c "NoValidBackups"
          ("Referenced discovery '" <> ref <> "' found no valid backups") s
      else after_selection ref selected (get_filtered_backups_to_serve selected valid) s

  -- One worker for each backup; the results come in the order in which the workers finish.
  unfoldable pub run_concurrent_pvc_discovery :
      BackupsDiscovery → List VeleroBackupInfo → World → List BackupDiscoveryProgress
  unfolding discover_pvcs_from_single_backup
  run_concurrent_pvc_discovery vmbd to_serve w =
      arrive (map (λ info. discover_pvcs_from_single_backup c info vmbd w) to_serve) w

  unfoldable pub process_discovery_results : List BackupDiscoveryProgress → Handler World (Unit {0})
  unfolding pvc_restores_of
  process_discovery_results results s =
      let modified = record s.1 {
        status = record s.1.status { pvc_restores = pvc_restores_of results };
      } in
      if deep_equal s.1.status modified.status
      then ((s.0, modified), ok tt)
      else wrapped "failed to update VMFR status with PVC restore info"
          (answered modified (patch_status s.1 modified s.0))

  -- What follows from the counts.
  unfoldable pub act_on : PvcCounts → ℕ → Verdict → Handler World Bool
  unfolding fail_validation fail_partial_validation settle
  act_on counts backups no_available_backups = fail_validation c "NoAvailableBackups" (
      "No PVCs with available backups found (total: "
      <> count_text counts.total
      <> ", unavailable: "
      <> count_text counts.unavailable
      <> ")")
  act_on counts backups partial_availability = fail_partial_validation c "PartialAvailability" (
      "Cannot proceed: "
      <> count_text (counts.partially_available + counts.unavailable)
      <> " PVC(s) have non-available backups (partially available: "
      <> count_text counts.partially_available
      <> ", unavailable: "
      <> count_text counts.unavailable
      <> ")")
  act_on counts backups proceed =
      settle c FileRestorePhase.in_progress (validated_conditions backups) false true

  -- The rules on the PVCs of the status.
  unfoldable pub conclude_validation : ℕ → Handler World Bool
  unfolding count_pvcs judge act_on
  conclude_validation backups s =
      let counts = count_pvcs s.1.status.pvc_restores no_pvcs in
      act_on counts backups (judge counts) s

  -- What follows the storing of the results.
  unfoldable pub after_processing : ℕ → Result (Unit {0}) → Handler World Bool
  unfolding fail_validation conclude_validation
  after_processing backups (err e) = fail_validation c "ProcessDiscoveryFailed" (error_text e)
  after_processing backups (ok done) = conclude_validation backups

  -- Once the backups are chosen.
  unfoldable pub discover_pvcs : BackupsDiscovery → List VeleroBackupInfo → Handler World Bool
  unfolding settle run_concurrent_pvc_discovery process_discovery_results after_processing
  discover_pvcs vmbd to_serve =
      settle c FileRestorePhase.in_progress (discovering_conditions (length to_serve)) false tt
      >>= (λ _. asks (λ _ w. run_concurrent_pvc_discovery vmbd to_serve w))
      >>= (λ results. attempt (process_discovery_results results))
      >>= after_processing (length to_serve)

  -- The first patch of a new resource; its conditions bear no time.
  unfoldable pub begin_validation : Handler World (Unit {0})
  unfolding patch_phase_conditions
  begin_validation s =
      if is_new_phase s.1.status.phase
      then patch_phase_conditions c FileRestorePhase.in_progress validating_conditions true s
      else pure tt s

  unfoldable pub after_reference : Option BackupsDiscovery → Handler World Bool
  unfolding validate_discovery_backups discover_pvcs
  after_reference none = pure true
  after_reference (some vmbd) = validate_discovery_backups vmbd >>= discover_pvcs vmbd

  unfoldable pub validate_and_discover_pvcs : Handler World Bool
  unfolding begin_validation validate_referenced_discovery after_reference
  validate_and_discover_pvcs =
      begin_validation >>= (λ _. validate_referenced_discovery) >>= after_reference
