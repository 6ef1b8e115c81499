-- ===== src/FileRestore/Restored/Keeps.antt =====
-- validateRestoredPVCs as one of the workflow's steps.
use oadp_vm_file_restore.Prelude.{
  ◌≡◌, refl, String, str_eq, List, [], ◌∷◌, Bool, true, false, Bool-cases, inl, inr, Option, none,
  some, is_empty,
}
use oadp_vm_file_restore.Discovery.Cluster.{Result, ok, err}
use oadp_vm_file_restore.FileRestore.Client.{Client, Handler, pure, attempt, call}
use oadp_vm_file_restore.FileRestore.Stage.Rules.{
  IsClient, Keeps, Keeps-bind, Keeps-pure, Keeps-attempt, Keeps-call,
}
use oadp_vm_file_restore.FileRestore.Restored.{
  RestoredPvc, PvcMountInfo, PvcClient, found_or_fail, find_listed, find_restored_pvc_name,
  first_with_original_name, after_get, after_find, validate_mounts, validate_restored_pvcs,
  extract_pvc_mounts_from_vmfr,
}

-- What the controller relies on: reads of PVCs write nothing to the file restore.
pub record IsPvcClient (c : Client) (client : IsClient c) (pvcs : PvcClient c.World) : Type 0 where
  pub list_keeps :
      (ns restore : String) (w : c.World)
      → client.stored (pvcs.list_pvcs ns restore w).0 ≡ client.stored w
  pub get_keeps :
      (name ns : String) (w : c.World) → client.stored (pvcs.get_pvc name ns w).0 ≡ client.stored w

module _ {c : Client} (client : IsClient c) (pvcs : PvcClient c.World)
    (kept : IsPvcClient c client pvcs) where
  open c use {World}

  found_or_fail-Keeps :
      (restore name : String) (found : Option String)
      → Keeps client (found_or_fail pvcs restore name found)
  unfolding found_or_fail
  found_or_fail-Keeps restore name none s i = (i, refl)
  found_or_fail-Keeps restore name (some found) s i = (i, refl)

  find_listed-Keeps :
      (restore name : String) (r : Result (List RestoredPvc))
      → Keeps client (find_listed pvcs restore name r)
  unfolding find_listed
  find_listed-Keeps restore name (err e) = λ s i. (i, refl)
  find_listed-Keeps restore name (ok l) =
      found_or_fail-Keeps restore name (first_with_original_name name l)

  after_get-Keeps :
      (mount : PvcMountInfo) (name : String) (others : Handler World Bool) (r : Result RestoredPvc)
      → Keeps client others
      → Keeps client (after_get pvcs mount name others r)
  unfolding after_get
  after_get-Keeps mount name others (err e) k = λ s i. (i, refl)
  after_get-Keeps mount name others (ok pvc) k = elim (Bool-cases (str_eq pvc.phase "Lost")) [
    | inl e ↦ rw e (λ s i. (i, refl))
    | inr e ↦ rw e k
  ]

  after_find-Keeps :
      (ns : String) (mount : PvcMountInfo) (others : Handler World Bool) (r : Result String)
      → Keeps client others
      → Keeps client (after_find pvcs ns mount others r)
  unfolding after_find
  after_find-Keeps ns mount others (err e) k =
      Keeps-bind client others (λ _. pure false) k (λ _. Keeps-pure client false)
  after_find-Keeps ns mount others (ok name) k =
      Keeps-bind client (attempt (call (pvcs.get_pvc name ns))) (after_get pvcs mount name others)
        (Keeps-attempt client (call (pvcs.get_pvc name ns))
          (Keeps-call client (pvcs.get_pvc name ns) (kept.get_keeps name ns)))
        (λ r. after_get-Keeps mount name others r k)

  find_restored_pvc_name-Keeps :
      (ns restore name : String) → Keeps client (find_restored_pvc_name pvcs ns restore name)
  unfolding find_restored_pvc_name
  find_restored_pvc_name-Keeps ns restore name =
      Keeps-bind client (attempt (call (pvcs.list_pvcs ns restore))) (find_listed pvcs restore name)
        (Keeps-attempt client (call (pvcs.list_pvcs ns restore))
          (Keeps-call client (pvcs.list_pvcs ns restore) (kept.list_keeps ns restore)))
        (find_listed-Keeps restore name)

  validate_mounts-Keeps :
      (ns : String) (l : List PvcMountInfo) → Keeps client (validate_mounts pvcs ns l)
  unfolding validate_mounts
  validate_mounts-Keeps ns [] = Keeps-pure client true
  validate_mounts-Keeps ns (mount ∷ rest) =
      let m = find_restored_pvc_name pvcs ns mount.velero_restore_name mount.pvc_name in
      Keeps-bind client (attempt m) (after_find pvcs ns mount (validate_mounts pvcs ns rest))
        (Keeps-attempt client m
          (find_restored_pvc_name-Keeps ns mount.velero_restore_name mount.pvc_name))
        (λ r.
          after_find-Keeps ns mount (validate_mounts pvcs ns rest) r
            (validate_mounts-Keeps ns rest))

  -- The check of the restored PVCs leaves the phase and the conditions alone, as the workflow
  -- requires of its steps, where reads of PVCs do.
  pub validate_restored_pvcs-Keeps : Keeps client (validate_restored_pvcs pvcs)
  unfolding validate_restored_pvcs
  validate_restored_pvcs-Keeps s i = elim (Bool-cases (str_eq s.1.status.created_namespace "")) [
    | inl e ↦ rw e (i, refl)
    | inr e ↦ elim (Bool-cases (is_empty (extract_pvc_mounts_from_vmfr s.1.status.pvc_restores))) [
      | inl n ↦ rw (e, n) (i, refl)
      | inr n ↦
          rw (e, n)
            (validate_mounts-Keeps s.1.status.created_namespace
              (extract_pvc_mounts_from_vmfr s.1.status.pvc_restores) s i)
    ]
  ]
