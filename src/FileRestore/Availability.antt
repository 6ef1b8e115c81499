-- ===== src/FileRestore/Availability.antt =====
-- internal/controller/virtualmachinefilerestore_controller.go, validateAndDiscoverPVCs: the count of
-- the PVCs by the states of their restores, and the rules on the counts.
pub mod Rules
use oadp_vm_file_restore.Prelude.{
  ℕ, zero, suc, ◌+◌, ltb, ◌==◌, str_eq, List, [], ◌∷◌, Bool, true, false, ◌&&◌, ◌||◌, if◌then◌else◌,
}
use oadp_vm_file_restore.FileRestore.Types.{
  RestoreInfo, PvcRestoreInfo, available, backup_level_failure,
}

-- `totalRealPVCs`, `fullyAvailablePVCs`, `partiallyAvailablePVCs` and `unavailablePVCs`
pub record PvcCounts : Type 0 where
  pub total : ℕ
  pub fully_available : ℕ
  pub partially_available : ℕ
  pub unavailable : ℕ

abbrev pub no_pvcs : PvcCounts
no_pvcs = record { total = 0; fully_available = 0; partially_available = 0; unavailable = 0 }

-- The loop over the restores of a PVC: `allAvailable` and `hasAvailable`.
unfoldable pub scan_restores : List RestoreInfo → Bool × Bool → Bool × Bool
scan_restores [] (all_available, has_available) = (all_available, has_available)
scan_restores (r ∷ rest) (all_available, has_available) =
    scan_restores rest
      (if str_eq r.state available then (all_available, true) else (false, has_available))

unfoldable pub count_pvc : PvcRestoreInfo → PvcCounts → PvcCounts
unfolding scan_restores
count_pvc pvc c =
    if str_eq pvc.pvc_name backup_level_failure
    then c
    else (let p = scan_restores pvc.restores (true, false) in
        if p.0 && p.1
        then record c { total = suc c.total; fully_available = suc c.fully_available }
        else if p.1
        then record c { total = suc c.total; partially_available = suc c.partially_available }
        else record c { total = suc c.total; unavailable = suc c.unavailable })

unfoldable pub count_pvcs : List PvcRestoreInfo → PvcCounts → PvcCounts
unfolding count_pvc
count_pvcs [] c = c
count_pvcs (pvc ∷ rest) c = count_pvcs rest (count_pvc pvc c)

-- What follows from the counts: the validation fails, fails in part, or the restore goes on.
pub data Verdict : Type 0 where
  no_available_backups partial_availability proceed : Verdict

unfoldable pub judge : PvcCounts → Verdict
judge c =
    if (c.fully_available == 0) && (c.partially_available == 0)
    then no_available_backups
    else if ltb 0 c.partially_available || ltb 0 c.unavailable
    then partial_availability
    else proceed
