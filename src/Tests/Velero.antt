-- ===== src/Tests/Velero.antt =====
-- Backups' specs and contents at concrete inputs.
use oadp_vm_file_restore.Prelude.{
  [], ◌∷◌, some, true, false, ◌≡◌, ◌⊎◌, ◌↔◌, refl, if◌then◌else◌, arith, ◌<>◌,
}
use mathlib.Core.List.Perm
use oadp_vm_file_restore.Velero.Spec.{
  validate_vm_in_backup_spec, backup_async_operations_incomplete, backup_async_operations_reason,
}
use oadp_vm_file_restore.Velero.Spec.Laws.{
  Names, validate_vm_in_backup_spec_iff, backup_async_operations_reason-eq-nil,
}
use oadp_vm_file_restore.Velero.Resource.{parse_namespaced_name, extract_kind_from_gvk}
use oadp_vm_file_restore.Velero.Resource.Laws.{
  Lacks, parse_namespaced_name-append, extract_kind_from_gvk-append,
}
use oadp_vm_file_restore.Velero.Contents.{ResourceList, backup_contains_vm}
use oadp_vm_file_restore.Velero.Contents.Laws.{
  lists_vm, backup_contains_vm_lem, backup_contains_vm-perm,
}
use oadp_vm_file_restore.Tests.World.{nightly}

validate_vm_in_backup_spec_iff_example : (validate_vm_in_backup_spec nightly "vms" ≡ true) ↔ (
    (¬ Names "vms" nightly.excluded_namespaces)
    × ((nightly.included_namespaces ≡ [])
        ⊎ Names "*" nightly.included_namespaces
        ⊎ Names "vms" nightly.included_namespaces))
validate_vm_in_backup_spec_iff_example = validate_vm_in_backup_spec_iff nightly "vms"

backup_async_operations_reason-eq-nil_example :
    (backup_async_operations_reason nightly ≡ "")
    ↔ (backup_async_operations_incomplete nightly ≡ false)
backup_async_operations_reason-eq-nil_example = backup_async_operations_reason-eq-nil nightly

vms-slash : Lacks b'/' "vms"
vms-slash = (omega arith, (omega arith, (omega arith, tt)))

vm-slash : Lacks b'/' "Vm"
vm-slash = (omega arith, (omega arith, tt))

io-slash : Lacks b'/' "io"
io-slash = (omega arith, (omega arith, tt))

vm-dot : Lacks b'.' "Vm"
vm-dot = (omega arith, (omega arith, tt))

parse_namespaced_name-append_example :
    parse_namespaced_name ("vms" <> ("/" <> "web")) ≡ ("vms", "web")
parse_namespaced_name-append_example = parse_namespaced_name-append "vms" "web" vms-slash

extract_kind_from_gvk-append_example :
    (extract_kind_from_gvk ("v1" <> ("/" <> ("Vm" <> ("." <> "io")))) ≡ "Vm")
    × (extract_kind_from_gvk ("v1" <> ("/" <> "Vm")) ≡ "Vm")
extract_kind_from_gvk-append_example =
    extract_kind_from_gvk-append "v1" "Vm" "io" vm-slash io-slash vm-dot

abbrev machines : ResourceList
machines = ("v1/VirtualMachine.kubevirt.io", "vms/web" ∷ []) ∷ ("v1/Pod", "vms/web" ∷ []) ∷ []

abbrev machines' : ResourceList
machines' = ("v1/Pod", "vms/web" ∷ []) ∷ ("v1/VirtualMachine.kubevirt.io", "vms/web" ∷ []) ∷ []

backup_contains_vm_lem_example :
    backup_contains_vm (λ b. some machines) nightly "web" "vms"
    ≡ (if validate_vm_in_backup_spec nightly "vms" then lists_vm "web" "vms" machines else false)
backup_contains_vm_lem_example = backup_contains_vm_lem (λ b. some machines) nightly "web" "vms"

backup_contains_vm-perm_example :
    backup_contains_vm (λ b. some machines) nightly "web" "vms"
    ≡ backup_contains_vm (λ b. some machines') nightly "web" "vms"
backup_contains_vm-perm_example =
    backup_contains_vm-perm (λ b. some machines) (λ b. some machines') nightly "web" "vms" machines
      machines' refl refl (Perm.swap _ _ [])
