-- ===== src/Velero/Spec.antt =====
-- internal/velerohelpers/backup_discovery_utils.go: ValidateVMInBackupSpec and the tests of a
-- backup's asynchronous operations; GetBackupTimestamp of internal/common/function/function.go.
pub mod Laws
pub mod Digits
use oadp_vm_file_restore.Prelude.{
  ℕ, zero, suc, ◌/◌, ◌%◌, String, ◌<>◌, str_eq, [], ◌∷◌, Bool, true, false, ◌||◌, not, Option, none,
  some, any, ◌==◌, if◌then◌else◌, ℤ, pos, negsuc, int_eq,
}
use oadp_vm_file_restore.Api.{Backup}

-- The machine is named by its namespace alone here: the test reads nothing else of it.
unfoldable pub validate_vm_in_backup_spec : Backup → String → Bool
validate_vm_in_backup_spec backup vm_namespace =
    if any (λ excluded. str_eq excluded vm_namespace) backup.excluded_namespaces
    then false
    else elim backup.included_namespaces [
      | [] ↦ true
      | ns ∷ rest ↦
          any (λ included. str_eq included "*" || str_eq included vm_namespace) (ns ∷ rest)
    ]

unfoldable pub backup_async_operations_incomplete : Backup → Bool
backup_async_operations_incomplete backup =
    if int_eq backup.operations_attempted (pos 0)
    then false
    else not (int_eq backup.operations_completed backup.operations_attempted)

-- `'0' + i % 10`
unfoldable pub digit : ℕ → String
digit d =
    if d == 0
    then "0"
    else if d == 1
    then "1"
    else if d == 2
    then "2"
    else if d == 3
    then "3"
    else if d == 4
    then "4"
    else if d == 5
    then "5"
    else if d == 6
    then "6"
    else if d == 7
    then "7"
    else if d == 8
    then "8"
    else "9"

-- The loop `for i > 0` of `itoa`, on fuel: the digits of `i` in front of `buf`.
unfoldable pub itoa_loop : ℕ → ℕ → String → String
itoa_loop zero i buf = buf
itoa_loop (suc fuel) i buf =
    let rest = itoa_loop fuel (i / 10) (digit (i % 10) <> buf) in if i == 0 then buf else rest

unfoldable pub itoa : ℤ → String
unfolding digit itoa_loop
itoa (pos i) = if i == 0 then "0" else itoa_loop (suc i) i ""
itoa (negsuc i) = "-" <> itoa_loop (suc (suc i)) (suc i) ""

unfoldable pub backup_async_operations_reason : Backup → String
backup_async_operations_reason backup =
    if int_eq backup.operations_attempted (pos 0)
    then ""
    else if not (int_eq backup.operations_completed backup.operations_attempted)
    then "backup has incomplete async operations (data mover upload may not have finished); "
      <> "BackupItemOperationsAttempted="
      <> itoa backup.operations_attempted
      <> ", BackupItemOperationsCompleted="
      <> itoa backup.operations_completed
      <> ", BackupItemOperationsFailed="
      <> itoa backup.operations_failed
    else ""

unfoldable pub get_backup_timestamp : Backup → Option ℕ
get_backup_timestamp backup = elim backup.completion_timestamp [
  | some t ↦ some t
  | none ↦ some backup.creation_timestamp
]
