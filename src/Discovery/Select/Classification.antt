-- ===== src/Discovery/Select/Classification.antt =====
-- What classifyRequestedBackups finds out about each requested name.
use oadp_vm_file_restore.Prelude.{
  ℕ, suc, ◌≡◌, refl, sym, ap, ◌∙◌, arith, String, str_eq_refl, List, [], ◌∷◌, ◌++◌, map, Bool, true,
  false, ◌||◌, Option, none, keep, count_if, if◌then◌else◌,
}
use oadp_vm_file_restore.Api.{Backup, DiscoverySpec, InvalidBackupInfo}
use oadp_vm_file_restore.Discovery.Select.{
  find, RequestedStatus, missing, filtered, candidate, async_incomplete, mark_missing,
  check_backups, Maps, Classified, not_found_info, filtered_progress, async_info, add_status,
  collect_statuses, classify_requested_backups,
}
use oadp_vm_file_restore.Discovery.Select.Maps.{
  has_name, names_of, last_named, judgement, Distinct, tabulate, names_of-Distinct,
  mark_missing-tabulate, Found, check_backups-Found,
}

-- What is reported about a requested name, given what the cluster has of it.
unfoldable pub report : String → String → Option Backup → RequestedStatus → List InvalidBackupInfo
report ns name found missing = not_found_info ns name ∷ []
report ns name found async_incomplete = async_info ns name found ∷ []
report ns name found filtered = []
report ns name found candidate = []

abbrev pub is_missing : RequestedStatus → Bool
is_missing missing = true
is_missing _ = false

abbrev pub is_filtered : RequestedStatus → Bool
is_filtered filtered = true
is_filtered _ = false

unfoldable pub reports :
    String
    → (String → Option Backup)
    → (String → RequestedStatus)
    → List String
    → List InvalidBackupInfo
reports ns found status [] = []
reports ns found status (n ∷ names) =
    report ns n (found n) (status n) ++ reports ns found status names

abbrev classified_as :
    String → ℕ → (String → Option Backup) → (String → RequestedStatus) → List String → Classified
classified_as ns now found status names = record {
  invalid_backups = reports ns found status names;
  missing_backups_count = count_if (λ n. is_missing (status n)) names;
  filtered_out_backups = map (filtered_progress ns now) (keep (λ n. is_filtered (status n)) names);
}

count_if-value {ℓ} :
    {A : Type ℓ} (p : A → Bool) (a : A) (l : List A) (v : Bool)
    → p a ≡ v
    → count_if p (a ∷ l) ≡ (if v then suc (count_if p l) else count_if p l)
count_if-value p a l v e = ground (arith, e)

keep-value {ℓ} :
    {A : Type ℓ} (p : A → Bool) (a : A) (l : List A) (v : Bool)
    → p a ≡ v
    → keep p (a ∷ l) ≡ (if v then a ∷ keep p l else keep p l)
keep-value p a l v e = ground (arith, e)

classified_cons :
    (ns : String) (now : ℕ) (found : String → Option Backup) (status : String → RequestedStatus)
    (n : String) (names : List String) (s : RequestedStatus)
    → status n ≡ s
    → classified_as ns now found status (n ∷ names) ≡ record {
      invalid_backups = report ns n (found n) s ++ reports ns found status names;
      missing_backups_count =
          if is_missing s
          then suc (count_if (λ m. is_missing (status m)) names)
          else count_if (λ m. is_missing (status m)) names;
      filtered_out_backups = map (filtered_progress ns now) (
          if is_filtered s
          then n ∷ keep (λ m. is_filtered (status m)) names
          else keep (λ m. is_filtered (status m)) names);
    }
unfolding reports
classified_cons ns now found status n names s e = rw (
  e,
  count_if-value (λ m. is_missing (status m)) n names (is_missing s) (ap is_missing e),
  keep-value (λ m. is_filtered (status m)) n names (is_filtered s) (ap is_filtered e),
)

add_status-report :
    (ns : String) (now : ℕ) (refs : List (String × Backup)) (found : String → Option Backup)
    (status : String → RequestedStatus) (n : String) (names : List String) (s : RequestedStatus)
    → status n ≡ s
    → find n refs ≡ found n
    → add_status ns now refs n s (classified_as ns now found status names)
      ≡ classified_as ns now found status (n ∷ names)
unfolding add_status reports report
add_status-report ns now refs found status n names missing e f =
    sym (classified_cons ns now found status n names missing e)
add_status-report ns now refs found status n names filtered e f =
    sym (classified_cons ns now found status n names filtered e)
add_status-report ns now refs found status n names candidate e f =
    sym (classified_cons ns now found status n names candidate e)
add_status-report ns now refs found status n names async_incomplete e f =
    rw f (sym (classified_cons ns now found status n names async_incomplete e))

any-cons-true : (n m : String) (l : List String) → has_name n l ≡ true → has_name n (m ∷ l) ≡ true
any-cons-true n m l h = ground (arith, h)

collect_statuses-reports :
    (ns : String) (now : ℕ) (refs : List (String × Backup)) (found : String → Option Backup)
    (status : String → RequestedStatus) (names : List String)
    → ((n : String) → has_name n names ≡ true → find n refs ≡ found n)
    → collect_statuses ns now refs (tabulate names status) ≡ classified_as ns now found status names
unfolding collect_statuses reports
collect_statuses-reports ns now refs found status [] h = refl
collect_statuses-reports ns now refs found status (n ∷ names) h =
    ap (add_status ns now refs n (status n)) (
      collect_statuses-reports ns now refs found status names
        (λ m k. h m (any-cons-true m n names k)))
    ∙ add_status-report ns now refs found status n names (status n) refl
        (h n (ap (λ b. b || has_name n names) (str_eq_refl n)))

abbrev pub verdict : String → List Backup → String → RequestedStatus
verdict vm_namespace backups n = judgement vm_namespace (last_named none n backups)

-- Each requested name, taken once, is judged by the backup of that name that the cluster lists
-- last: without one it is counted as missing and reported as not found, with incomplete operations
-- it is reported with the reason, and with a spec that does not cover the machine's namespace it
-- becomes a skipped entry. Nothing else is reported, counted or entered.
pub classify_requested_backups_lem :
    (ns : String) (now : ℕ) (spec : DiscoverySpec) (backups : List Backup)
    → classify_requested_backups ns now spec backups ≡ record {
      invalid_backups =
          reports ns
            (λ n. last_named none n backups)
            (verdict spec.virtual_machine_namespace backups)
            (names_of [] spec.requested_backups);
      missing_backups_count =
          count_if
            (λ n. is_missing (verdict spec.virtual_machine_namespace backups n))
            (names_of [] spec.requested_backups);
      filtered_out_backups = map (filtered_progress ns now) (
          keep
            (λ n. is_filtered (verdict spec.virtual_machine_namespace backups n))
            (names_of [] spec.requested_backups));
    }
unfolding classify_requested_backups judgement
classify_requested_backups_lem ns now spec backups =
    ap (collect_statuses ns now (check_backups spec.virtual_machine_namespace backups start).1)
      all.statuses_eq
    ∙ collect_statuses-reports ns now _ (λ n. last_named none n backups)
        (verdict spec.virtual_machine_namespace backups) names all.refs_eq
  where
    names : List String
    names = names_of [] spec.requested_backups

    start : Maps
    start = (mark_missing spec.requested_backups [], [])

    all :
        Found spec.virtual_machine_namespace names
          (λ n. last_named none n backups)
          (check_backups spec.virtual_machine_namespace backups start)
    all =
        check_backups-Found spec.virtual_machine_namespace names backups (λ _. none) start
          (names_of-Distinct [] spec.requested_backups (unfold Distinct in tt))
          (record {
            statuses_eq = mark_missing-tabulate [] spec.requested_backups (unfold Distinct in tt);
            refs_eq = λ n h. refl;
          })
