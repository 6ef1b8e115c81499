-- ===== src/Discovery/Finalize/Unready.antt =====
-- Requested backups that the cluster has, but that are not completed.
use mathlib.Core.List.{Mem, mem-cons_self, mem-cons_of_mem, mem-append_right}
use mathlib.Core.Bool.{true≢false}
use oadp_vm_file_restore.Prelude.{
  ℕ, ◌≡◌, refl, sym, subst, ap, ◌∙◌, String, str_eq, str_eq→eq, List, [], ◌∷◌, ◌++◌, Bool, true,
  false, not, ◌&&◌, ◌||◌, any, any-append, keep, map, arith, Bool-cases, inl, inr, ltb, Option,
  none, some, is_empty, if◌then◌else◌,
}
use oadp_vm_file_restore.Api.{
  Backup, is_completed_backup, InvalidBackupInfo, BackupDiscoveryProgress, DiscoverySpec,
  DiscoveryStatusOf,
}
use oadp_vm_file_restore.Velero.Spec.{
  validate_vm_in_backup_spec, backup_async_operations_incomplete,
}
use oadp_vm_file_restore.Velero.Spec.Laws.{Names}
use oadp_vm_file_restore.Discovery.Select.{
  RequestedStatus, missing, filtered, candidate, async_incomplete, is_candidate, insert_newest,
  sort_newest, select_candidates, status_of_backup, classify_requested_backups, not_found_info,
  async_info, filtered_progress, Classified,
}
use oadp_vm_file_restore.Discovery.Select.Maps.{last_named, judgement, names_of}
use oadp_vm_file_restore.Discovery.Select.Classification.{
  report, reports, is_filtered, verdict, classify_requested_backups_lem,
}
use oadp_vm_file_restore.Discovery.Finalize.{
  has_invalid, has_progress, relevant_existing, missing_of, invalid_of, all_invalid,
}
use oadp_vm_file_restore.Discovery.Controller.{initialized, new_progress}

-- No element of a list with a property, and lists made of it.
module _ {ℓ} {A : Type ℓ} (p : A → Bool) where
  none-keep : (q : A → Bool) (l : List A) → any p l ≡ false → any p (keep q l) ≡ false
  none-keep q [] h = refl
  none-keep q (a ∷ l) h = ground (arith, h, none-keep q l (ground (arith, h)))

  none-keep_both :
      (q r : A → Bool) (l : List A)
      → ((a : A) → p a ≡ true → q a ≡ true → r a ≡ true)
      → any (λ a. p a && r a) l ≡ false
      → any p (keep q l) ≡ false
  none-keep_both q r [] k h = refl
  none-keep_both q r (a ∷ l) k h =
      ground (arith, h, k a, none-keep_both q r l k (ground (arith, h)))

  none-keep_out :
      (q : A → Bool) (l : List A) → ((a : A) → p a ≡ true → q a ≡ false) → any p (keep q l) ≡ false
  none-keep_out q [] k = refl
  none-keep_out q (a ∷ l) k = ground (arith, k a, none-keep_out q l k)

any-map {ℓ κ} :
    {A : Type ℓ} {B : Type κ} (p : B → Bool) (f : A → B) (l : List A)
    → any p (map f l) ≡ any (λ a. p (f a)) l
any-map p f [] = refl
any-map p f (a ∷ l) = ap (◌||◌ (p (f a))) (any-map p f l)

any-insert :
    (p : Backup → Bool) (b : Backup) (l : List Backup)
    → any p (insert_newest b l) ≡ (p b || any p l)
unfolding insert_newest
any-insert p b [] = refl
any-insert p b (c ∷ l) = elim (Bool-cases (ltb b.creation_timestamp c.creation_timestamp)) [
  | inl e ↦ rw (e, any-insert p b l) (ground arith)
  | inr e ↦ rw e refl
]

any-sort : (p : Backup → Bool) (l : List Backup) → any p (sort_newest l) ≡ any p l
unfolding sort_newest
any-sort p [] = refl
any-sort p (b ∷ l) = any-insert p b (sort_newest l) ∙ ap (◌||◌ (p b)) (any-sort p l)

keep-true {ℓ} :
    {A : Type ℓ} (q : A → Bool) (a : A) (l : List A) → q a ≡ true → keep q (a ∷ l) ≡ a ∷ keep q l
keep-true q a l h = ground (arith, h)

keep-false {ℓ} :
    {A : Type ℓ} (q : A → Bool) (a : A) (l : List A) → q a ≡ false → keep q (a ∷ l) ≡ keep q l
keep-false q a l h = ground (arith, h)

mem-missing {ℓ} :
    {B : Type ℓ} (f : String → B) (q : String → Bool) (n : String) (l : List String)
    → Names n l
    → q n ≡ true
    → Mem (f n) (map f (keep q l))
mem-missing f q n [] h k = absurd (cc)
mem-missing f q n (m ∷ l) h k = elim (Bool-cases (str_eq m n)) [
  | inl e ↦
      subst (λ kept. Mem (f n) (map f kept)) (sym (keep-true q m l (ap q (str_eq→eq m n e) ∙ k)))
        (subst (λ x. Mem (f n) (f x ∷ map f (keep q l))) (sym (str_eq→eq m n e)) mem-cons_self)
  | inr e ↦
      (let rest = mem-missing f q n l (ground (arith, h, e)) k in
        elim (Bool-cases (q m)) [
          | inl g ↦
              subst (λ kept. Mem (f n) (map f kept)) (sym (keep-true q m l g))
                (mem-cons_of_mem (f m) rest)
          | inr g ↦ subst (λ kept. Mem (f n) (map f kept)) (sym (keep-false q m l g)) rest
        ])
]

module _ (ns n : String) (found : String → Option Backup) (status : String → RequestedStatus)
    (judged : status n ≡ candidate) where
  report-named :
      (m : String) (o : Option Backup) (s : RequestedStatus)
      → str_eq m n ≡ false
      → has_invalid n (report ns m o s) ≡ false
  unfolding report async_info
  report-named m o missing h = ground (arith, h)
  report-named m none async_incomplete h = ground (arith, h)
  report-named m (some b) async_incomplete h = ground (arith, h)
  report-named m o filtered h = refl
  report-named m o candidate h = refl

  reports-named : (names : List String) → has_invalid n (reports ns found status names) ≡ false
  unfolding reports report
  reports-named [] = refl
  reports-named (m ∷ names) = elim (Bool-cases (str_eq m n)) [
    | inl e ↦ rw (ap status (str_eq→eq m n e) ∙ judged) (reports-named names)
    | inr e ↦
        any-append _ (report ns m (found m) (status m)) (reports ns found status names)
        ∙ ground (arith, report-named m (found m) (status m) e, reports-named names)
  ]

  filtered-named :
      (now : ℕ) (names : List String)
      → has_progress n (map (filtered_progress ns now) (keep (λ m. is_filtered (status m)) names))
        ≡ false
  unfolding filtered_progress
  filtered-named now names =
      any-map _ (filtered_progress ns now) (keep (λ m. is_filtered (status m)) names)
      ∙ none-keep_out (λ m. str_eq m n) (λ m. is_filtered (status m)) names
          (λ m e. ap is_filtered (ap status (str_eq→eq m n e) ∙ judged))

is_candidate-completed :
    (start_time end_time : ℕ) (spec : DiscoverySpec) (b : Backup)
    → is_candidate start_time end_time spec b ≡ true
    → is_completed_backup b.phase ≡ true
unfolding is_candidate
is_candidate-completed start_time end_time spec b h =
    elim (Bool-cases (is_completed_backup b.phase)) [
      | inl e ↦ e
      | inr e ↦ absurd (true≢false (sym h ∙ rw e refl))
    ]

-- If the last backup that the cluster lists under a requested name covers the machine's namespace
-- and has no incomplete operation, and no backup of that name is completed, then the finalization
-- of the status that a discovery starts with reports that the name was not found in the cluster,
-- whatever else is requested and listed.
pub all_invalid-not_found_info :
    (ns n : String) (now start_time end_time : ℕ) (spec : DiscoverySpec) (backups : List Backup)
    (b : Backup) (s : DiscoveryStatusOf)
    → Names n spec.requested_backups
    → last_named none n backups ≡ some b
    → backup_async_operations_incomplete b ≡ false
    → validate_vm_in_backup_spec b spec.virtual_machine_namespace ≡ true
    → any (λ other. str_eq other.name n && is_completed_backup other.phase) backups ≡ false
    → Mem (not_found_info ns n) (
        all_invalid ns spec.requested_backups (
          initialized ns now spec
            (select_candidates start_time end_time spec backups)
            (classify_requested_backups ns now spec backups)
            s))
unfolding all_invalid initialized missing_of relevant_existing new_progress select_candidates
all_invalid-not_found_info ns n now start_time end_time spec backups b s wanted listed no_operations
      covered not_completed =
    mem-append_right existing (
      mem-append_right (keep (λ i. not (has_invalid i.name existing)) (invalid_of progress)) (
        mem-missing (not_found_info ns)
          (λ m. not (has_progress m progress) && not (has_invalid m existing)) n
          spec.requested_backups wanted (ground (arith, not_existing, not_in_progress))))
  where
    judged : verdict spec.virtual_machine_namespace backups n ≡ candidate
    judged = unfold judgement status_of_backup in rw (listed, no_operations, covered) refl

    classified : Classified
    classified = classify_requested_backups ns now spec backups

    unreported : has_invalid n classified.invalid_backups ≡ false
    unreported =
        ap (λ (x : Classified). has_invalid n x.invalid_backups)
          (classify_requested_backups_lem ns now spec backups)
        ∙ reports-named ns n _ _ judged (names_of [] spec.requested_backups)

    not_filtered : has_progress n classified.filtered_out_backups ≡ false
    not_filtered =
        ap (λ (x : Classified). has_progress n x.filtered_out_backups)
          (classify_requested_backups_lem ns now spec backups)
        ∙ filtered-named ns n (λ m. last_named none m backups) _ judged now
            (names_of [] spec.requested_backups)

    no_candidate :
        any (λ c. str_eq c.name n) (select_candidates start_time end_time spec backups) ≡ false
    no_candidate =
        any-sort _ (keep (is_candidate start_time end_time spec) backups)
        ∙ none-keep_both _ (is_candidate start_time end_time spec)
            (λ c. is_completed_backup c.phase) backups
            (λ c _ h. is_candidate-completed start_time end_time spec c h) not_completed

    progress : List BackupDiscoveryProgress
    progress =
        map (new_progress ns now) (select_candidates start_time end_time spec backups)
        ++ classified.filtered_out_backups

    not_in_progress : has_progress n progress ≡ false
    not_in_progress =
        any-append _
          (map (new_progress ns now) (select_candidates start_time end_time spec backups))
          classified.filtered_out_backups
        ∙ ground (
          arith,
          any-map (λ (p : BackupDiscoveryProgress). str_eq p.name n) (new_progress ns now)
                (select_candidates start_time end_time spec backups)
              ∙ no_candidate,
          not_filtered,
        )

    given : List InvalidBackupInfo
    given = if is_empty spec.requested_backups then [] else classified.invalid_backups

    not_given : has_invalid n given ≡ false
    not_given = elim (Bool-cases (is_empty spec.requested_backups)) [
      | inl e ↦ rw e refl
      | inr e ↦ rw e unreported
    ]

    existing : List InvalidBackupInfo
    existing = relevant_existing spec.requested_backups given

    not_existing : has_invalid n existing ≡ false
    not_existing =
        none-keep _ (λ i. any (λ m. str_eq m i.name) spec.requested_backups) given not_given
