-- ===== src/Velero/Contents.antt =====
-- internal/velerohelpers/backup_discovery.go: the reader of a backup's contents. The download of a
-- backup's resource list, with the decoding of its JSON, is the parameter `fetch`: a failure, or
-- the pairs of the decoded map in the order in which `range` meets them.
pub mod Laws
use mathlib.Core.List.{flat_map}
use oadp_vm_file_restore.Prelude.{
  String, Bool, true, false, Option, none, some, List, map, if◌then◌else◌,
}
use oadp_vm_file_restore.Api.{Backup}
use oadp_vm_file_restore.Velero.Spec.{validate_vm_in_backup_spec}
use oadp_vm_file_restore.Velero.Resource.{
  BackupResourceItem, parse_namespaced_name, extract_kind_from_gvk, has_vm_in_backup_resources,
}

abbrev pub ResourceList : Type 0
ResourceList = List (String × List String)

-- an item of the metadata, for a resource under a key of the resource list
item_of : String → String → BackupResourceItem
item_of gvk resource =
    let (namespace, name) = parse_namespaced_name resource in
    record {
      api_version = gvk;
      kind = extract_kind_from_gvk gvk;
      namespace = namespace;
      name = name;
    }

-- the conversion of FetchBackupMetadata
unfoldable pub metadata_items : ResourceList → List BackupResourceItem
unfolding item_of
metadata_items resource_list =
    flat_map (λ (gvk, resources). map (item_of gvk) resources) resource_list

module _ (fetch : Backup → Option ResourceList) where
  -- FetchBackupMetadata: `none` is an error.
  unfoldable pub fetch_backup_metadata : Backup → Option (List BackupResourceItem)
  unfolding metadata_items
  fetch_backup_metadata backup = elim (fetch backup) [
    | none ↦ none
    | some resource_list ↦ some (metadata_items resource_list)
  ]

  -- BackupContainsVM; its error is always nil.
  unfoldable pub backup_contains_vm : Backup → String → String → Bool
  unfolding fetch_backup_metadata
  backup_contains_vm backup vm_name vm_namespace =
      if validate_vm_in_backup_spec backup vm_namespace
      then elim (fetch_backup_metadata backup) [
        | none ↦ true
        | some items ↦ has_vm_in_backup_resources vm_name vm_namespace items
      ]
      else false
