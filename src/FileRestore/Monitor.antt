-- ===== src/FileRestore/Monitor.antt =====
-- internal/controller/virtualmachinefilerestore_controller.go: checkVeleroRestoresAlreadyCreated
-- and monitorVeleroRestores, which bring the phases of the Velero restores into the status.
pub mod Settled
use oadp_vm_file_restore.Prelude.{
  ℕ, suc, String, ◌<>◌, str_eq, List, [], ◌∷◌, Bool, true, false, not, ◌&&◌, ◌||◌, none, some,
  if◌then◌else◌,
}
use oadp_vm_file_restore.Discovery.Cluster.{error_text, other, Result, ok, err, ◌>>=◌}
use oadp_vm_file_restore.Discovery.Select.{find}
use oadp_vm_file_restore.FileRestore.Types.{
  RestoreInfo, PvcRestoreInfo, available, backup_level_failure,
}
use oadp_vm_file_restore.FileRestore.Client.{Client, VeleroRestore, Handler, throw, attempt, call}

-- An available restore without the name of its Velero restore.
abbrev pub is_not_created : RestoreInfo → Bool
is_not_created r = str_eq r.state available && str_eq r.velero_restore_name ""

unfoldable pub all_created : List RestoreInfo → Bool
all_created [] = true
all_created (r ∷ rest) = if is_not_created r then false else all_created rest

unfoldable pub check_velero_restores_already_created : List PvcRestoreInfo → Bool
unfolding all_created
check_velero_restores_already_created [] = true
check_velero_restores_already_created (pvc ∷ rest) =
    let others = check_velero_restores_already_created rest in
    if str_eq pvc.pvc_name backup_level_failure
    then others
    else if all_created pvc.restores
    then others
    else false

-- `completed`, `failed` and `inProgress`
pub record PhaseCounts : Type 0 where
  pub completed : ℕ
  pub failed : ℕ
  pub in_progress : ℕ

abbrev pub is_completed_restore : String → Bool
is_completed_restore phase =
    str_eq phase "Completed"
    || str_eq phase "Finalizing"
    || str_eq phase "FinalizingPartiallyFailed"

abbrev pub is_failed_restore : String → Bool
is_failed_restore phase =
    str_eq phase "Failed" || str_eq phase "PartiallyFailed" || str_eq phase "FailedValidation"

unfoldable pub count_phase : String → PhaseCounts → PhaseCounts
count_phase phase n =
    if is_completed_restore phase
    then record n { completed = suc n.completed }
    else if is_failed_restore phase
    then record n { failed = suc n.failed }
    else record n { in_progress = suc n.in_progress }

unfoldable pub normalized_phase : String → String
normalized_phase phase =
    if str_eq phase "Finalizing" || str_eq phase "FinalizingPartiallyFailed"
    then "Completed"
    else phase

-- constant.BackupNameAnnotation; an absent annotation reads as the empty string.
unfoldable pub backup_name_of : VeleroRestore → String
backup_name_of restore = elim (find "oadp.openshift.io/backup-name" restore.annotations) [
  | none ↦ ""
  | some name ↦ name
]

unfoldable pub is_match : VeleroRestore → RestoreInfo → Bool
unfolding backup_name_of
is_match restore r =
    str_eq r.velero_backup_name (backup_name_of restore)
    && str_eq r.state available
    && (str_eq r.velero_restore_name "" || str_eq r.velero_restore_name restore.name)

-- The change of a matching RestoreInfo, and whether it is one (`statusUpdated`).
unfoldable pub update_restore_info : String → VeleroRestore → RestoreInfo → RestoreInfo × Bool
unfolding is_match normalized_phase
update_restore_info oadp_namespace restore r =
    if not (is_match restore r)
    then (r, false)
    else (let unnamed = str_eq r.velero_restore_name "" in
        let named =
          if unnamed
          then record r {
            velero_restore_name = restore.name;
            velero_restore_namespace = oadp_namespace;
          }
          else r in
        let phase = normalized_phase restore.phase in
        if str_eq r.phase phase then (named, unnamed) else (record named { phase = phase }, true))

unfoldable pub update_infos : String → VeleroRestore → List RestoreInfo → List RestoreInfo × Bool
unfolding update_restore_info
update_infos ns restore [] = ([], false)
update_infos ns restore (r ∷ rest) =
    let p = update_restore_info ns restore r in
    let q = update_infos ns restore rest in (p.0 ∷ q.0, p.1 || q.1)

unfoldable pub update_pvcs :
    String → VeleroRestore → List PvcRestoreInfo → List PvcRestoreInfo × Bool
unfolding update_infos
update_pvcs ns restore [] = ([], false)
update_pvcs ns restore (pvc ∷ rest) =
    let q = update_pvcs ns restore rest in
    if str_eq pvc.pvc_name backup_level_failure
    then (pvc ∷ q.0, q.1)
    else (let p = update_infos ns restore pvc.restores in
        (record pvc { restores = p.0 } ∷ q.0, p.1 || q.1))

-- What monitorVeleroRestores returns, with the changed entries.
pub record Monitored : Type 0 where
  pub counts : PhaseCounts
  pub open counts use *
  pub status_updated : Bool
  pub pvc_restores : List PvcRestoreInfo

-- The loop over the Velero restores.
unfoldable pub monitor : String → List VeleroRestore → Monitored → Monitored
unfolding count_phase update_pvcs
monitor ns [] m = m
monitor ns (restore ∷ rest) m =
    let p = update_pvcs ns restore m.pvc_restores in
    monitor ns rest (record {
      counts = count_phase restore.phase m.counts;
      status_updated = m.status_updated || p.1;
      pvc_restores = p.0;
    })

abbrev pub nothing_monitored : List PvcRestoreInfo → Monitored
nothing_monitored pvcs = record {
  counts = record { completed = 0; failed = 0; in_progress = 0 };
  status_updated = false;
  pvc_restores = pvcs;
}

module _ (c : Client) where
  open c use {World, list_restores, oadp_namespace}

  -- The changes are made to the object in hand.
  unfoldable pub monitor_listed : Result (List VeleroRestore) → Handler World Monitored
  unfolding monitor
  monitor_listed (err e) s = throw (other ("failed to list Velero Restores: " <> error_text e)) s
  monitor_listed (ok []) s = throw (other "no Velero Restores found - this should not happen") s
  monitor_listed (ok (restore ∷ rest)) s =
      let m = monitor oadp_namespace (restore ∷ rest) (nothing_monitored s.1.status.pvc_restores) in
      ((s.0, record s.1 { status = record s.1.status { pvc_restores = m.pvc_restores } }), ok m)

  unfoldable pub monitor_velero_restores : Handler World Monitored
  unfolding monitor_listed
  monitor_velero_restores s =
      (attempt (call (list_restores oadp_namespace s.1.uid)) >>= monitor_listed) s
