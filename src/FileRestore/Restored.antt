-- ===== src/FileRestore/Restored.antt =====
-- internal/controller/virtualmachinefilerestore_controller.go: validateRestoredPVCs and
-- findRestoredPVCName, with extractPVCMountsFromVMFR of fileserver_helpers.go: the PVCs that the
-- Velero restores have created.
pub mod Keeps
use oadp_vm_file_restore.Prelude.{
  ℕ, String, ◌<>◌, str_eq, List, [], ◌∷◌, ◌++◌, Bool, true, false, ◌&&◌, ◌||◌, is_empty, Option,
  none, some, if◌then◌else◌,
}
use oadp_vm_file_restore.Discovery.Cluster.{error_text, other, Result, ok, err, ◌>>=◌}
use oadp_vm_file_restore.Discovery.Select.{find}
use oadp_vm_file_restore.FileRestore.Types.{
  RestoreInfo, PvcRestoreInfo, available, backup_level_failure,
}
use oadp_vm_file_restore.FileRestore.Client.{Handler, pure, throw, attempt, call}

-- PVCMountInfo, without the two fields that are filled in later.
pub record PvcMountInfo : Type 0 where
  pub pvc_name : String
  pub pvc_namespace : String
  pub pvc_uid : String
  pub backup_name : String
  pub backup_timestamp : Option ℕ
  pub velero_restore_name : String

-- A PVC of the restore namespace; its labels may be nil.
pub record RestoredPvc : Type 0 where
  pub name : String
  pub labels : Option (List (String × String))
  pub phase : String

-- A restore whose PVC is there to be mounted.
abbrev pub is_mountable : RestoreInfo → Bool
is_mountable r =
    (str_eq r.phase "Completed" || str_eq r.phase "Finalizing") && str_eq r.state available

unfoldable pub mounts_of : PvcRestoreInfo → List RestoreInfo → List PvcMountInfo
mounts_of pvc [] = []
mounts_of pvc (r ∷ rest) =
    let others = mounts_of pvc rest in
    if is_mountable r
    then record {
      pvc_name = pvc.pvc_name;
      pvc_namespace = pvc.pvc_namespace;
      pvc_uid = pvc.pvc_uid;
      backup_name = r.velero_backup_name;
      backup_timestamp = r.timestamp;
      velero_restore_name = r.velero_restore_name;
    }
      ∷ others
    else others

unfoldable pub extract_pvc_mounts_from_vmfr : List PvcRestoreInfo → List PvcMountInfo
unfolding mounts_of
extract_pvc_mounts_from_vmfr [] = []
extract_pvc_mounts_from_vmfr (pvc ∷ rest) =
    let others = extract_pvc_mounts_from_vmfr rest in
    if str_eq pvc.pvc_name backup_level_failure
    then others
    else mounts_of pvc pvc.restores ++ others

-- constant.VMFROriginalPVCNameAnnotation; an absent label reads as the empty string.
unfoldable pub original_name : List (String × String) → String
original_name labels = elim (find "oadp.openshift.io/vmfr-original-name" labels) [
  | none ↦ ""
  | some name ↦ name
]

abbrev pub has_original_name : String → RestoredPvc → Bool
has_original_name name pvc = elim pvc.labels [
  | none ↦ false
  | some labels ↦ str_eq (original_name labels) name
]

-- The first PVC of a list with that original name.
unfoldable pub first_with_original_name : String → List RestoredPvc → Option String
first_with_original_name name [] = none
first_with_original_name name (pvc ∷ rest) =
    let later = first_with_original_name name rest in
    if has_original_name name pvc then some pvc.name else later

-- r.List of the PVCs of a namespace with the label of a Velero restore, and r.Get of one PVC by its
-- name and namespace.
pub record PvcClient (W : Type 0) : Type 0 where
  pub list_pvcs : String → String → W → W × Result (List RestoredPvc)
  pub get_pvc : String → String → W → W × Result RestoredPvc

module _ {W : Type 0} (c : PvcClient W) where
  open c use {list_pvcs, get_pvc}

  unfoldable pub found_or_fail : String → String → Option String → Handler W String
  found_or_fail restore name none =
      throw (other ("PVC not found for restore " <> restore <> " with original name " <> name))
  found_or_fail restore name (some found) = pure found

  unfoldable pub find_listed : String → String → Result (List RestoredPvc) → Handler W String
  unfolding first_with_original_name found_or_fail
  find_listed restore name (err e) =
      throw (other ("failed to list PVCs for restore " <> restore <> ": " <> error_text e))
  find_listed restore name (ok pvcs) =
      found_or_fail restore name (first_with_original_name name pvcs)

  unfoldable pub find_restored_pvc_name : String → String → String → Handler W String
  unfolding find_listed
  find_restored_pvc_name ns restore name =
      attempt (call (list_pvcs ns restore)) >>= find_listed restore name

  -- A PVC that is neither pending nor bound nor lost is used too.
  unfoldable pub after_get :
      PvcMountInfo → String → Handler W Bool → Result RestoredPvc → Handler W Bool
  after_get mount name others (err e) =
      throw (other ("failed to get PVC " <> name <> ": " <> error_text e))
  after_get mount name others (ok pvc) =
      if str_eq pvc.phase "Lost"
      then throw (other ("PVC " <> mount.pvc_name <> " is in Lost state"))
      else others

  -- A PVC that is not found makes the result false, and the others are looked at all the same.
  unfoldable pub after_find :
      String → PvcMountInfo → Handler W Bool → Result String → Handler W Bool
  unfolding after_get
  after_find ns mount others (err e) = others >>= (λ _. pure false)
  after_find ns mount others (ok name) =
      attempt (call (get_pvc name ns)) >>= after_get mount name others

  unfoldable pub validate_mounts : String → List PvcMountInfo → Handler W Bool
  unfolding find_restored_pvc_name after_find
  validate_mounts ns [] = pure true
  validate_mounts ns (mount ∷ rest) =
      attempt (find_restored_pvc_name ns mount.velero_restore_name mount.pvc_name)
      >>= after_find ns mount (validate_mounts ns rest)

  unfoldable pub validate_restored_pvcs : Handler W Bool
  unfolding validate_mounts extract_pvc_mounts_from_vmfr
  validate_restored_pvcs s =
      let ns = s.1.status.created_namespace in
      let mounts = extract_pvc_mounts_from_vmfr s.1.status.pvc_restores in
      if str_eq ns ""
      then throw (other "restore namespace not found in status") s
      else if is_empty mounts
      then throw (other "no completed PVC restores found") s
      else validate_mounts ns mounts s
