-- ===== src/Tests/Sshd.antt =====
-- The gate of the SSH server at concrete commands.
use oadp_vm_file_restore.Prelude.{
  [], ◌∷◌, ◌++◌, some, false, ◌≡◌, refl, All, is_empty, arith, codes,
}
use oadp_vm_file_restore.Sshd.Parse.{parse_command, parse_rune, parse_runes, end_argument}
use oadp_vm_file_restore.Sshd.Parse.Laws.{command_of, parse_command-command_of, parse_command-All}
use oadp_vm_file_restore.Sshd.Gate.{exec_command, scp_bin, main, byte_length}
use oadp_vm_file_restore.Sshd.Gate.Laws.{Allowed, main-Allowed, main-download}
use oadp_vm_file_restore.Sshd.Environment.{equals_sign, filter_environment, filter_environment_lem}

parse_command-command_of_example :
    parse_command (command_of (codes "a \"b" ∷ codes "c" ∷ []))
    ≡ some (codes "a \"b" ∷ codes "c" ∷ [])
parse_command-command_of_example =
    parse_command-command_of (codes "a \"b" ∷ codes "c" ∷ []) (refl, (refl, tt))

parse_command-All_example : All (λ arg. is_empty arg ≡ false) (codes "a" ∷ codes "b c" ∷ [])
unfolding parse_command parse_runes parse_rune end_argument
parse_command-All_example =
    parse_command-All (codes "a '' 'b c'") (codes "a" ∷ codes "b c" ∷ []) refl

main-Allowed_example :
    Allowed
      (codes "rsync --server --sender . /restores")
      (main (codes "rsync --server --sender . /restores"))
main-Allowed_example = main-Allowed (codes "rsync --server --sender . /restores")

main-download_example :
    main (codes "scp -f " ++ command_of (codes "/restores/my file" ∷ []))
    ≡ exec_command scp_bin (codes "-f" ∷ codes "/restores/my file" ∷ [])
unfolding byte_length
main-download_example = main-download (codes "/restores/my file") refl refl (omega arith)

filter_environment_lem_example :
    filter_environment
      ((codes "A=1") ∷ (codes "LD_AUDIT" ++ equals_sign ∷ codes "x.so") ∷ codes "B=2" ∷ [])
    ≡ filter_environment (codes "A=1" ∷ []) ++ ([] ++ filter_environment (codes "B=2" ∷ []))
filter_environment_lem_example =
    filter_environment_lem (codes "A=1" ∷ []) (codes "B=2" ∷ []) (codes "LD_AUDIT") (codes "x.so")
      refl
