-- ===== src/FileRestore/Stage.antt =====
-- The stages of a file restore, as its phase and the reason of its Progressing condition tell them
-- apart, and the moves between them: the contract of the controller.
pub mod Rules
pub mod Writes
pub mod Validates
pub mod Works
pub mod Waits
pub mod Serves
pub mod Cases
pub mod Refines
use oadp_vm_file_restore.Prelude.{
  ℕ, ◌≤◌, ◌≡◌, refl, arith, String, str_eq, List, Bool, true, false, Option, none, some,
  if◌then◌else◌,
}
use oadp_vm_file_restore.Api.{Condition}
use oadp_vm_file_restore.FileRestore.Types.{FileRestorePhase, FileRestoreStatus}
use oadp_vm_file_restore.FileRestore.Client.{Client}

pub data Stage : Type 0 where
  unset new validating discovering validated namespace_ready waiting_for_restores : Stage
  restores_completed credentials_ready waiting_for_route completed partially_failed : Stage
  failed deleting : Stage

abbrev pub reason_of : Option Condition → String
reason_of none = ""
reason_of (some c) = c.reason

-- The stage that a reason names, or `other`.
unfoldable pub stage_named : Stage → String → Stage
stage_named other reason =
    if str_eq reason "DiscoveringPVCs"
    then Stage.discovering
    else if str_eq reason "ValidationCompleted"
    then Stage.validated
    else if str_eq reason "NamespaceReady"
    then Stage.namespace_ready
    else if str_eq reason "WaitingForRestores"
    then Stage.waiting_for_restores
    else if str_eq reason "RestoresCompleted"
    then Stage.restores_completed
    else if str_eq reason "CredentialsReady"
    then Stage.credentials_ready
    else if str_eq reason "WaitingForRoute"
    then Stage.waiting_for_route
    else other

-- What the server shows of a status.
abbrev pub View : Type 0
View = FileRestorePhase × List Condition

abbrev pub view : FileRestoreStatus → View
view s = (s.phase, s.conditions)

unfoldable pub stage : Client → View → Stage
unfolding stage_named
stage c (phase, conditions) =
    let reason = reason_of (c.find_status_condition conditions "Progressing") in
    elim phase [
      | FileRestorePhase.unset ↦ Stage.unset
      | FileRestorePhase.new ↦ stage_named Stage.new reason
      | FileRestorePhase.in_progress ↦ stage_named Stage.validating reason
      | FileRestorePhase.completed ↦ Stage.completed
      | FileRestorePhase.partially_failed ↦ Stage.partially_failed
      | FileRestorePhase.failed ↦ Stage.failed
      | FileRestorePhase.deleting ↦ Stage.deleting
    ]

-- A write of the controller.
pub data Next : Stage → Stage → Type 0 where
  accept : Next Stage.unset Stage.new
  begin : Next Stage.new Stage.validating
  await_discovery : Next Stage.validating Stage.validating
  discover : Next Stage.validating Stage.discovering
  validate : Next Stage.discovering Stage.validated
  find_partial : Next Stage.discovering Stage.partially_failed
  make_namespace : Next Stage.validated Stage.namespace_ready
  create_restores : Next Stage.namespace_ready Stage.waiting_for_restores
  restore : Next Stage.waiting_for_restores Stage.restores_completed
  restore_partially : Next Stage.waiting_for_restores Stage.partially_failed
  prepare_credentials : Next Stage.restores_completed Stage.credentials_ready
  await_route : Next Stage.credentials_ready Stage.waiting_for_route
  serve : Next Stage.credentials_ready Stage.completed
  serve_route : Next Stage.waiting_for_route Stage.completed
  reject : Next Stage.validating Stage.failed
  find_nothing : Next Stage.discovering Stage.failed
  lack_namespace : Next Stage.validated Stage.failed
  lack_restores : Next Stage.namespace_ready Stage.failed
  fail_restores : Next Stage.waiting_for_restores Stage.failed
  lack_credentials : Next Stage.restores_completed Stage.failed
  lack_server : Next Stage.credentials_ready Stage.failed

pub data Reach (s : Stage) : Stage → Type 0 where
  here : Reach s s
  next : {t u : Stage} → Reach s t → Next t u → Reach s u

pub Reach-trans : {s t u : Stage} → Reach s t → Reach t u → Reach s u
Reach-trans r here = r
Reach-trans r (next q n) = next (Reach-trans r q) n

-- A stage that no move leaves.
abbrev pub is_final : Stage → Bool
is_final Stage.completed = true
is_final Stage.partially_failed = true
is_final Stage.failed = true
is_final Stage.deleting = true
is_final _ = false

-- A stage in which a reconciliation may end without an error and without a requeue.
abbrev pub is_quiet : Stage → Bool
is_quiet Stage.discovering = true
is_quiet s = is_final s
