-- ===== src/FileRestore/Selection.antt =====
-- getFilteredBackupsToServe: the backups of a discovery that a user selected by name.
pub mod Served
use oadp_vm_file_restore.Prelude.{
  is_empty, String, ◌<>◌, str_eq, List, [], ◌∷◌, ◌++◌, Bool, Option, none, some, if◌then◌else◌,
}
use oadp_vm_file_restore.Api.{VeleroBackupInfo}
use oadp_vm_file_restore.Discovery.Cluster.{Result, ok, err, other}
use oadp_vm_file_restore.Discovery.Select.{find, assign}

-- `validBackupNames`
unfoldable pub valid_backup_names :
    List VeleroBackupInfo → List (String × VeleroBackupInfo) → List (String × VeleroBackupInfo)
valid_backup_names [] m = m
valid_backup_names (backup ∷ rest) m = valid_backup_names rest (assign backup.name backup m)

-- The loop over the selected names: `backupsToServe` and `invalidSelections`.
unfoldable pub select_backups :
    List (String × VeleroBackupInfo)
    → List String
    → List VeleroBackupInfo × List String
    → List VeleroBackupInfo × List String
select_backups m [] (to_serve, unknown) = (to_serve, unknown)
select_backups m (selected ∷ rest) (to_serve, unknown) = elim (find selected m) [
  | some backup ↦ select_backups m rest (to_serve ++ backup ∷ [], unknown)
  | none ↦ select_backups m rest (to_serve, unknown ++ selected ∷ [])
]

-- `%v` of a slice: its elements, with spaces between them, in brackets.
unfoldable pub spaced : List String → String
spaced [] = ""
spaced (s ∷ []) = s
spaced (s ∷ t ∷ rest) = s <> " " <> spaced (t ∷ rest)

unfoldable pub get_filtered_backups_to_serve :
    List String → List VeleroBackupInfo → Result (List VeleroBackupInfo)
unfolding valid_backup_names select_backups spaced
get_filtered_backups_to_serve selected valid =
    if is_empty selected
    then ok valid
    else (let p = select_backups (valid_backup_names valid []) selected ([], []) in
        if is_empty p.1
        then ok p.0
        else err
            (other ("selected backups not found in discovery results: [" <> spaced p.1 <> "]")))
