-- ===== src/Tests/World.antt =====
-- A server that stores one object and a list of backups, and answers at once.
use Prim.Native.Char.{code}
use oadp_vm_file_restore.Prelude.{
  ℕ, zero, suc, String, str_eq, ◌==◌, List, [], ◌∷◌, Option, none, some, ◌≡◌, refl, sym, ap, ◌∙◌,
  inl, if◌then◌else◌, pos, arith, ◌≢◌, ◌*◌, ◌/◌,
}
use oadp_vm_file_restore.Api.{
  Backup, BackupPhase, BackupsDiscovery, DiscoverySpec, DiscoveryPhase, DiscoveryStatusOf,
}
use oadp_vm_file_restore.Discovery.Cluster.{Cluster, IsServer, Result, ok, err, not_found}
use oadp_vm_file_restore.Discovery.TimeRange.{TimeFormats, GoTime, utc, second, day, IsTimeFormats}
use oadp_vm_file_restore.Discovery.Controller.{Reconciler}

abbrev pub nightly : Backup
nightly = record {
  name = "nightly";
  namespace = "velero";
  creation_timestamp = 500;
  included_namespaces = "vms" ∷ [];
  excluded_namespaces = [];
  phase = BackupPhase.completed;
  completion_timestamp = some 510;
  operations_attempted = pos 0;
  operations_completed = pos 0;
  operations_failed = pos 0;
}

abbrev pub weekly : Backup
weekly = record nightly { name = "weekly"; creation_timestamp = 700 }

abbrev pub spec : DiscoverySpec
spec = record {
  virtual_machine_name = "web";
  virtual_machine_namespace = "vms";
  start_time = none;
  end_time = none;
  requested_backups = "nightly" ∷ "gone" ∷ [];
}

abbrev pub status : DiscoveryStatusOf
status = record {
  phase = DiscoveryPhase.new;
  observed_generation = 0;
  conditions = [];
  valid_backups = [];
  invalid_backups = [];
  backup_discovery_progress = [];
  discovery_stats = none;
}

abbrev pub discovery : BackupsDiscovery
discovery = record {
  name = "find";
  namespace = "velero";
  generation = 1;
  resource_version = 1;
  spec = spec;
  status = status;
}

abbrev find_backup : String → List Backup → Result Backup
find_backup name [] = err not_found
find_backup name (b ∷ backups) = if str_eq b.name name then ok b else find_backup name backups

abbrev pub cluster : Cluster
cluster = record {
  World = BackupsDiscovery;
  get = λ w. (w, ok w);
  update_status = λ v w. (record w { status = v.status }, ok (record w { status = v.status }));
  list_backups = λ w. (w, ok (nightly ∷ weekly ∷ []));
  get_backup = λ name w. find_backup name (nightly ∷ weekly ∷ []);
  now = λ w. 1000;
}

abbrev or_this : BackupsDiscovery → Result BackupsDiscovery → BackupsDiscovery
or_this w (ok o) = o
or_this w (err e) = w

unfoldable pub server : IsServer cluster
server = record {
  seen = λ w o. o ≡ w;
  get_seen = λ w {w'} {o} e. sym (ap (λ p. or_this w p.1) e) ∙ ap (λ p. p.0) e;
  get_keeps = λ w o h. (o, h, refl);
  list_keeps = λ w o h. (o, h, refl);
  update_returns = λ v w {w'} {o} e. sym (ap (λ p. (or_this w p.1).status) e);
  update_seen = λ v w {w'} {o} e. sym (ap (λ p. or_this w p.1) e) ∙ ap (λ p. p.0) e;
  update_keeps = λ v w o h. inl (ap (λ p. p.status) h);
}

-- Times are written in unary, a first character and one for each second; the only date is "first",
-- the day after the zero time.
unfoldable pub unary : ℕ → String
unary zero = ""
unary (suc n) = String.◌∷◌ "x" (unary n)

unfoldable pub characters : String → ℕ
characters String.[] = 0
characters (String.◌∷◌ c s) = suc (characters s)

unfoldable pub parse_unary : String → Option GoTime
unfolding characters
parse_unary String.[] = none
parse_unary (String.◌∷◌ c s) = if code c == b'x' then some (utc (characters s * second)) else none

unfoldable pub formats : TimeFormats
unfolding unary parse_unary
formats = record {
  parse_rfc3339 = parse_unary;
  parse_date = λ s. if str_eq s "first" then some (utc day) else none;
  format_rfc3339 = λ t. String.◌∷◌ "x" (unary (t.wall / second));
}

characters-unary : (n : ℕ) → characters (unary n) ≡ n
unfolding characters unary
characters-unary zero = refl
characters-unary (suc n) = ap suc (characters-unary n)

no_length : (s : String) → characters (String.◌∷◌ "x" s) ≢ 0
unfolding characters
no_length s e = omega (arith, e)

pub are_formats : IsTimeFormats formats
unfolding formats parse_unary characters
are_formats = record {
  parse-format = λ t. ap (λ n. some (utc (n * second))) (characters-unary (t / second));
  format-ne-nil = λ t e. no_length (unary (t / second)) (ap characters e);
}

abbrev pub reconciler : Reconciler
reconciler = record {
  cluster = cluster;
  oadp_namespace = "velero";
  reader = some (λ b. some (("v1/VirtualMachine.kubevirt.io", "vms/web" ∷ []) ∷ []));
  formats = formats;
  set_status_condition = λ old new. new ∷ old;
}
