-- ===== src/Velero/Resource.antt =====
-- internal/velerohelpers/backup_discovery_utils.go: the texts of Velero's resource lists. A loop
-- over a text is a recursion on the text that is left.
pub mod Laws
use Prim.Native.Char.{code}
use Prim.Native.String.{◌∷◌, []}
use mathlib.Core.Option
use oadp_vm_file_restore.Prelude.{
  String, str_eq, Bool, ◌||◌, ◌&&◌, Option, none, some, List, any, ◌==◌, if◌then◌else◌,
}

-- `resource[:i], resource[i+1:]` at the first `/`
cut_at_slash : String → Option (String × String)
cut_at_slash [] = none
cut_at_slash (c ∷ s) =
    if code c == b'/' then some ("", s) else Option.map (λ (a, b). (c ∷ a, b)) (cut_at_slash s)

unfoldable pub parse_namespaced_name : String → String × String
unfolding cut_at_slash
parse_namespaced_name resource = elim (cut_at_slash resource) [
  | none ↦ ("", resource)
  | some parts ↦ parts
]

-- what stands behind the last `/`
after_last_slash : String → Option String
after_last_slash [] = none
after_last_slash (c ∷ s) = elim (after_last_slash s) [
  | some t ↦ some t
  | none ↦ if code c == b'/' then some s else none
]

-- what stands before the first `.`
before_first_dot : String → String
before_first_dot [] = ""
before_first_dot (c ∷ s) = if code c == b'.' then "" else c ∷ before_first_dot s

unfoldable pub extract_kind_from_gvk : String → String
unfolding after_last_slash before_first_dot
extract_kind_from_gvk gvk =
    before_first_dot (elim (after_last_slash gvk) [ none ↦ gvk | some rest ↦ rest ])

-- BackupResourceItem
pub record BackupResourceItem : Type 0 where
  pub api_version : String
  pub kind : String
  pub namespace : String
  pub name : String

-- hasVMInBackupResources: the iteration stops at the first hit.
unfoldable pub has_vm_in_backup_resources : String → String → List BackupResourceItem → Bool
has_vm_in_backup_resources vm_name vm_namespace items =
    any
      (λ item.
        (str_eq item.kind "VirtualMachine" || str_eq item.kind "virtualmachine")
        && str_eq item.namespace vm_namespace
        && str_eq item.name vm_name)
      items
