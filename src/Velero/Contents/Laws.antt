-- ===== src/Velero/Contents/Laws.antt =====
-- When the reader says that a backup contains a machine.
use mathlib.Core.List.{flat_map}
use oadp_vm_file_restore.Prelude.{
  String, str_eq, Bool, true, false, ◌||◌, ◌&&◌, Option, none, some, List, [], ◌∷◌, ◌++◌, map, any,
  any-append, any-perm, Perm, Bool-cases, Option-cases, inl, inr, ◌≡◌, refl, arith, if◌then◌else◌,
}
use oadp_vm_file_restore.Api.{Backup}
use oadp_vm_file_restore.Velero.Spec.{validate_vm_in_backup_spec}
use oadp_vm_file_restore.Velero.Resource.{
  BackupResourceItem, parse_namespaced_name, extract_kind_from_gvk, has_vm_in_backup_resources,
}
use oadp_vm_file_restore.Velero.Contents.{
  ResourceList, item_of, metadata_items, fetch_backup_metadata, backup_contains_vm,
}

-- Some key is of the machine's kind, in either spelling, and some resource under it reads as the
-- machine's namespace and name.
abbrev pub lists_vm : String → String → ResourceList → Bool
lists_vm name ns resource_list =
    any
      (λ (gvk, resources).
        (str_eq (extract_kind_from_gvk gvk) "VirtualMachine"
          || str_eq (extract_kind_from_gvk gvk) "virtualmachine")
        && any
            (λ resource.
              str_eq (parse_namespaced_name resource).0 ns
              && str_eq (parse_namespaced_name resource).1 name)
            resources)
      resource_list

has_vm-map :
    (name ns gvk : String) (resources : List String)
    → has_vm_in_backup_resources name ns (map (item_of gvk) resources) ≡ (
        (str_eq (extract_kind_from_gvk gvk) "VirtualMachine"
          || str_eq (extract_kind_from_gvk gvk) "virtualmachine")
        && any
            (λ resource.
              str_eq (parse_namespaced_name resource).0 ns
              && str_eq (parse_namespaced_name resource).1 name)
            resources)
unfolding has_vm_in_backup_resources item_of
has_vm-map name ns gvk [] = ground arith
has_vm-map name ns gvk (r ∷ rs) = ground (arith, has_vm-map name ns gvk rs)

has_vm-append :
    (name ns : String) (xs ys : List BackupResourceItem)
    → has_vm_in_backup_resources name ns (xs ++ ys)
      ≡ (has_vm_in_backup_resources name ns xs || has_vm_in_backup_resources name ns ys)
unfolding has_vm_in_backup_resources
has_vm-append name ns xs ys = any-append _ xs ys

has_vm-metadata_items :
    (name ns : String) (resource_list : ResourceList)
    → has_vm_in_backup_resources name ns (metadata_items resource_list)
      ≡ lists_vm name ns resource_list
unfolding metadata_items flat_map
has_vm-metadata_items name ns [] = unfold has_vm_in_backup_resources in refl
has_vm-metadata_items name ns ((gvk, resources) ∷ rest) =
    rw (has_vm-append name ns (map (item_of gvk) resources) (metadata_items rest))
      (rw (has_vm-map name ns gvk resources, has_vm-metadata_items name ns rest))

-- A backup whose spec covers the machine's namespace contains the machine when its resource list
-- cannot be had, and else exactly when the list names the machine. A backup whose spec does not
-- cover the namespace never does.
pub backup_contains_vm_lem :
    (fetch : Backup → Option ResourceList) (backup : Backup) (name ns : String)
    → backup_contains_vm fetch backup name ns ≡ (
        if validate_vm_in_backup_spec backup ns
        then elim (fetch backup) [
          | none ↦ true
          | some resource_list ↦ lists_vm name ns resource_list
        ]
        else false)
unfolding backup_contains_vm fetch_backup_metadata
backup_contains_vm_lem fetch backup name ns =
    elim (Bool-cases (validate_vm_in_backup_spec backup ns)) [
      | inr out ↦ rw (out, backup_contains_vm)
      | inl covered ↦ elim (Option-cases (fetch backup)) [
        | inl lost ↦ rw (covered, backup_contains_vm, lost)
        | inr (l, e) ↦ rw (covered, backup_contains_vm, e) (has_vm-metadata_items name ns l)
      ]
    ]

-- Two downloads that give the same pairs in another order give the same answer.
pub backup_contains_vm-perm :
    (fetch fetch' : Backup → Option ResourceList) (backup : Backup) (name ns : String)
    (l l' : ResourceList)
    → fetch backup ≡ some l
    → fetch' backup ≡ some l'
    → Perm l l'
    → backup_contains_vm fetch backup name ns ≡ backup_contains_vm fetch' backup name ns
backup_contains_vm-perm fetch fetch' backup name ns l l' e e' h =
    rw (backup_contains_vm_lem fetch backup name ns, backup_contains_vm_lem fetch' backup name ns)
      (rw (e, e', any-perm _ h) refl)
