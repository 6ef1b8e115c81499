-- ===== src/Sshd/Gate.antt =====
-- containers/side-containers/sshd/oadp-sshd.go: main, handleRsync, handleScp and the tests that
-- they make. A run ends in `deny`, which is os.Exit(1), or in execCommand, which never returns.
pub mod Laws
use oadp_vm_file_restore.Prelude.{
  is_empty, ℕ, ◌+◌, List, [], ◌∷◌, Bool, true, false, ◌||◌, ◌&&◌, not, Option, none, some, any, ltb,
  leb, ◌==◌, codes, codes_eq, if◌then◌else◌, String,
}
use oadp_vm_file_restore.Sshd.Parse.{Text, parse_command}

-- What becomes of a command.
pub data Outcome : Type 0 where
  deny : Outcome
  exec_command : String → List Text → Outcome

abbrev pub sftp_server : String
sftp_server = "/usr/libexec/openssh/sftp-server"

abbrev pub rsync_bin : String
rsync_bin = "/bin/rsync"

abbrev pub scp_bin : String
scp_bin = "/bin/scp"

abbrev pub max_command_length : ℕ
max_command_length = 10_240

abbrev pub dangerous_flags : List Text
dangerous_flags =
    codes "--rsh="
    ∷ codes "--config="
    ∷ codes "--rsync-path="
    ∷ codes "--daemon"
    ∷ codes "--delete"
    ∷ []

-- The bytes of a character in UTF-8, and len(cmd).
abbrev pub rune_length : ℕ → ℕ
rune_length r = if ltb r 128 then 1 else if ltb r 2048 then 2 else if ltb r 65_536 then 3 else 4

unfoldable pub byte_length : Text → ℕ
byte_length [] = 0
byte_length (r ∷ cmd) = rune_length r + byte_length cmd

-- unicode.IsSpace, which strings.TrimSpace takes off
is_space : ℕ → Bool
is_space r =
    (leb 9 r && leb r 13)
    || (r == 32)
    || (r == 133)
    || (r == 160)
    || (r == 5760)
    || (leb 8192 r && leb r 8202)
    || (r == 8232)
    || (r == 8233)
    || (r == 8239)
    || (r == 8287)
    || (r == 12_288)

-- strings.HasPrefix
abbrev pub has_prefix : Text → Text → Bool
has_prefix cmd [] = true
has_prefix [] (p ∷ prefix) = false
has_prefix (r ∷ cmd) (p ∷ prefix) = (r == p) && has_prefix cmd prefix

-- `\s` of a regular expression
abbrev is_re_space : ℕ → Bool
is_re_space r = (r == 9) || (r == 10) || (r == 12) || (r == 13) || (r == 32)

-- `\s*--server`, at the start
server_follows : Text → Bool
server_follows [] = false
server_follows (r ∷ cmd) =
    let later = server_follows cmd in
    if is_re_space r then later else has_prefix (r ∷ cmd) (codes "--server")

-- `\s+--server`, at the start
spaced_server : Text → Bool
unfolding server_follows
spaced_server [] = false
spaced_server (r ∷ cmd) = is_re_space r && server_follows cmd

-- What follows a prefix, if it is there.
after_prefix : Text → Text → Option Text
after_prefix cmd [] = some cmd
after_prefix [] (p ∷ prefix) = none
after_prefix (r ∷ cmd) (p ∷ prefix) = if r == p then after_prefix cmd prefix else none

-- isRsyncCommand: ^rsync\s+--server
unfoldable pub is_rsync_command : Text → Bool
unfolding spaced_server after_prefix
is_rsync_command cmd = elim (after_prefix cmd (codes "rsync")) [
  | none ↦ false
  | some rest ↦ spaced_server rest
]

unfoldable pub is_scp_command : Text → Bool
is_scp_command cmd = has_prefix cmd (codes "scp ")

unfoldable pub contains_flag : List Text → String → Bool
contains_flag args flag = any (λ arg. codes_eq arg (codes flag)) args

unfoldable pub is_dangerous : Text → Bool
is_dangerous arg =
    any (λ dangerous. codes_eq arg dangerous || has_prefix arg dangerous) dangerous_flags

unfoldable pub contains_any_dangerous_flag : List Text → Bool
unfolding is_dangerous
contains_any_dangerous_flag args = any is_dangerous args

-- The command's name is taken off.
abbrev pub without_name : String → List Text → List Text
without_name name [] = []
without_name name (arg ∷ args) = if codes_eq arg (codes name) then args else arg ∷ args

unfoldable pub checked_rsync : Option (List Text) → Outcome
unfolding contains_flag contains_any_dangerous_flag
checked_rsync none = deny
checked_rsync (some parsed) =
    let args = without_name "rsync" parsed in
    if not (contains_flag args "--sender")
    then deny
    else if contains_any_dangerous_flag args
    then deny
    else exec_command rsync_bin args

unfoldable pub handle_rsync : Text → Outcome
unfolding checked_rsync
handle_rsync cmd = checked_rsync (parse_command cmd)

unfoldable pub checked_scp : Option (List Text) → Outcome
unfolding contains_flag
checked_scp none = deny
checked_scp (some parsed) =
    let args = without_name "scp" parsed in
    if contains_flag args "-f" && not (contains_flag args "-t")
    then exec_command scp_bin args
    else deny

unfoldable pub handle_scp : Text → Outcome
unfolding checked_scp
handle_scp cmd = checked_scp (parse_command cmd)

unfoldable pub all_space : Text → Bool
unfolding is_space
all_space [] = true
all_space (r ∷ cmd) = is_space r && all_space cmd

-- main
unfoldable pub main : Text → Outcome
unfolding byte_length all_space is_rsync_command is_scp_command handle_rsync handle_scp
main cmd =
    if ltb max_command_length (byte_length cmd)
    then deny
    else if is_empty cmd
    then deny
    else if all_space cmd
    then deny
    else if codes_eq cmd (codes "internal-sftp")
    then exec_command sftp_server (codes "-d" ∷ codes "/restores" ∷ [])
    else if is_rsync_command cmd
    then handle_rsync cmd
    else if is_scp_command cmd
    then handle_scp cmd
    else deny
