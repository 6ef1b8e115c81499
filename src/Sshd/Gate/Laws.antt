-- ===== src/Sshd/Gate/Laws.antt =====
-- What the gate lets through.
use oadp_vm_file_restore.Prelude.{
  ℕ, ◌≤◌, ◌≡◌, refl, inl, inr, arith, List, [], ◌∷◌, ◌++◌, Bool, true, false, Option, none, some,
  All, any, is_empty, ltb, codes, codes_eq, codes_eq→eq, if◌then◌else◌, Bool-cases,
}
use oadp_vm_file_restore.Sshd.Parse.{
  Text, start, parse_rune, parse_runes, end_argument, parse_command,
}
use oadp_vm_file_restore.Sshd.Parse.Laws.{command_of, outside, parse-command_of}
use oadp_vm_file_restore.Sshd.Gate.{
  Outcome, deny, exec_command, sftp_server, rsync_bin, scp_bin, max_command_length, byte_length,
  all_space, is_rsync_command, is_scp_command, contains_flag, is_dangerous,
  contains_any_dangerous_flag, without_name, checked_rsync, handle_rsync, checked_scp, handle_scp,
  main,
}

-- A program is run only like this: sftp on the restores, rsync as a sender without a dangerous
-- flag, or scp that sends and does not receive.
pub data Allowed (cmd : Text) : Outcome → Type 0 where
  denied : Allowed cmd deny
  sftp :
      cmd ≡ codes "internal-sftp"
      → Allowed cmd (exec_command sftp_server (codes "-d" ∷ codes "/restores" ∷ []))
  rsync :
      (args : List Text)
      → contains_flag args "--sender" ≡ true
      → All (λ arg. is_dangerous arg ≡ false) args
      → Allowed cmd (exec_command rsync_bin args)
  scp :
      (args : List Text)
      → contains_flag args "-f" ≡ true
      → contains_flag args "-t" ≡ false
      → Allowed cmd (exec_command scp_bin args)

none-any {ℓ} : {A : Type ℓ} (p : A → Bool) (l : List A) → any p l ≡ false → All (λ a. p a ≡ false) l
none-any p [] h = tt
none-any p (a ∷ l) h = (ground (arith, h), none-any p l (ground (arith, h)))

none-dangerous :
    (args : List Text)
    → contains_any_dangerous_flag args ≡ false
    → All (λ arg. is_dangerous arg ≡ false) args
unfolding contains_any_dangerous_flag
none-dangerous args h = none-any is_dangerous args h

checked_rsync-Allowed :
    (cmd : Text) (parsed : Option (List Text)) → Allowed cmd (checked_rsync parsed)
unfolding checked_rsync
checked_rsync-Allowed cmd none = Allowed.denied
checked_rsync-Allowed cmd (some parsed) =
    elim (Bool-cases (contains_flag (without_name "rsync" parsed) "--sender")) [
      | inr e ↦ rw e Allowed.denied
      | inl e ↦ elim (Bool-cases (contains_any_dangerous_flag (without_name "rsync" parsed))) [
        | inl f ↦ rw (e, f) Allowed.denied
        | inr f ↦ rw (e, f) (Allowed.rsync (without_name "rsync" parsed) e (none-dangerous _ f))
      ]
    ]

checked_scp-Allowed : (cmd : Text) (parsed : Option (List Text)) → Allowed cmd (checked_scp parsed)
unfolding checked_scp
checked_scp-Allowed cmd none = Allowed.denied
checked_scp-Allowed cmd (some parsed) =
    elim (Bool-cases (contains_flag (without_name "scp" parsed) "-f")) [
      | inr e ↦ rw e Allowed.denied
      | inl e ↦ elim (Bool-cases (contains_flag (without_name "scp" parsed) "-t")) [
        | inl f ↦ rw (e, f) Allowed.denied
        | inr f ↦ rw (e, f) (Allowed.scp (without_name "scp" parsed) e f)
      ]
    ]

program-Allowed :
    (cmd : Text)
    → Allowed cmd (
        if codes_eq cmd (codes "internal-sftp")
        then exec_command sftp_server (codes "-d" ∷ codes "/restores" ∷ [])
        else if is_rsync_command cmd
        then handle_rsync cmd
        else if is_scp_command cmd
        then handle_scp cmd
        else deny)
unfolding handle_rsync handle_scp
program-Allowed cmd = elim (Bool-cases (codes_eq cmd (codes "internal-sftp"))) [
  | inl e ↦ rw e (Allowed.sftp (codes_eq→eq cmd (codes "internal-sftp") e))
  | inr e ↦ elim (Bool-cases (is_rsync_command cmd)) [
    | inl f ↦ rw (e, f) (checked_rsync-Allowed cmd (parse_command cmd))
    | inr f ↦ elim (Bool-cases (is_scp_command cmd)) [
      | inl g ↦ rw (e, f, g) (checked_scp-Allowed cmd (parse_command cmd))
      | inr g ↦ rw (e, f, g) Allowed.denied
    ]
  ]
]

fits_lem : (n : ℕ) → n ≤ max_command_length → ltb max_command_length n ≡ false
fits_lem n h = ground (arith, h)

parse-name :
    (rest : Text)
    → parse_runes start (codes "scp -f " ++ rest)
      ≡ parse_runes (outside (codes "scp" ∷ codes "-f" ∷ []) []) rest
unfolding parse_runes parse_rune end_argument
parse-name rest = refl

parse-download :
    (path : Text)
    → is_empty path ≡ false
    → parse_command (codes "scp -f " ++ command_of (path ∷ []))
      ≡ some (codes "scp" ∷ codes "-f" ∷ path ∷ [])
unfolding parse_command end_argument
parse-download path h =
    rw
      (
        parse-name (command_of (path ∷ [])),
        parse-command_of (codes "scp" ∷ codes "-f" ∷ []) (path ∷ []) (h, tt),
      )
      refl

-- Whatever command arrives, it is denied, or it is the sftp request, or it runs rsync as a sender
-- without a dangerous flag, or scp with `-f` and without `-t`.
pub main-Allowed : (cmd : Text) → Allowed cmd (main cmd)
unfolding main handle_rsync handle_scp
main-Allowed cmd = elim (Bool-cases (ltb max_command_length (byte_length cmd))) [
  | inl long ↦ rw long Allowed.denied
  | inr short ↦ elim (Bool-cases (is_empty cmd)) [
    | inl nothing ↦ rw (short, nothing) Allowed.denied
    | inr given ↦ elim (Bool-cases (all_space cmd)) [
      | inl blank ↦ rw (short, given, blank) Allowed.denied
      | inr word ↦ rw (short, given, word) (program-Allowed cmd)
    ]
  ]
]

-- A path is downloaded: `scp -f` with the path in double quotes runs scp on just that path, be its
-- characters what they may, when the path is neither empty nor the upload flag and the command is
-- not too long.
pub main-download :
    (path : Text)
    → is_empty path ≡ false
    → codes_eq path (codes "-t") ≡ false
    → byte_length (codes "scp -f " ++ command_of (path ∷ [])) ≤ max_command_length
    → main (codes "scp -f " ++ command_of (path ∷ []))
      ≡ exec_command scp_bin (codes "-f" ∷ path ∷ [])
unfolding main handle_scp
main-download path some_path no_upload short = rw (fits, parsed) accepted
  where
    fits : ltb max_command_length (byte_length (codes "scp -f " ++ command_of (path ∷ []))) ≡ false
    fits = fits_lem (byte_length (codes "scp -f " ++ command_of (path ∷ []))) short

    parsed :
        parse_command (codes "scp -f " ++ command_of (path ∷ []))
        ≡ some (codes "scp" ∷ codes "-f" ∷ path ∷ [])
    parsed = parse-download path some_path

    accepted :
        checked_scp (some (codes "scp" ∷ codes "-f" ∷ path ∷ []))
        ≡ exec_command scp_bin (codes "-f" ∷ path ∷ [])
    accepted = unfold checked_scp contains_flag in rw no_upload refl
