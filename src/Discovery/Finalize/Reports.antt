-- ===== src/Discovery/Finalize/Reports.antt =====
-- What finalizeDiscoveryProcess reports.
use oadp_vm_file_restore.Prelude.{
  ℕ, ◌≡◌, refl, ap, ◌∙◌, inl, inr, arith, String, str_eq, str_eq→eq, List, [], ◌∷◌, ◌++◌, Bool,
  true, false, not, ◌&&◌, ◌||◌, any, any-append, keep, map, Bool-cases,
}
use oadp_vm_file_restore.Api.{
  VeleroBackupInfo, InvalidBackupInfo, is_completed, BackupDiscoveryProgress, DiscoveryStatusOf,
  BackupsDiscovery, Condition,
}
use oadp_vm_file_restore.Velero.Spec.Laws.{Names}
use oadp_vm_file_restore.Discovery.Select.{not_found_info}
use oadp_vm_file_restore.Discovery.Finalize.{
  valid_of, invalid_of, relevant_existing, has_invalid, has_progress, missing_of, all_invalid,
  finalized,
}

abbrev pub has_valid : String → List VeleroBackupInfo → Bool
has_valid name l = any (λ i. str_eq i.name name) l

-- Every entry is reported on one side.
progress-reported :
    (n : String) (l : List BackupDiscoveryProgress)
    → has_progress n l ≡ (has_valid n (valid_of l) || has_invalid n (invalid_of l))
unfolding valid_of invalid_of
progress-reported n [] = refl
progress-reported n (b ∷ l) = elim (Bool-cases (is_completed b.status)) [
  | inl e ↦ rw (e, progress-reported n l) (ground arith)
  | inr e ↦ rw (e, progress-reported n l) (ground arith)
]

any-keep_other {ℓ} :
    {A : Type ℓ} (p q : A → Bool) (l : List A)
    → ((a : A) → p a ≡ true → q a ≡ true)
    → any p (keep q l) ≡ any p l
any-keep_other p q [] h = refl
any-keep_other p q (a ∷ l) h = ground (arith, any-keep_other p q l h, h a)

-- A name that is not among the earlier reports keeps its entry.
new_invalid-kept :
    (n : String) (existing l : List InvalidBackupInfo)
    → has_invalid n existing ≡ false
    → has_invalid n (keep (λ i. not (has_invalid i.name existing)) l) ≡ has_invalid n l
new_invalid-kept n existing l h =
    any-keep_other (λ i. str_eq i.name n) (λ i. not (has_invalid i.name existing)) l
      (λ i e. ap (λ m. not (has_invalid m existing)) (str_eq→eq i.name n e) ∙ ap not h)

not_found-named :
    (ns n : String) (l : List String)
    → has_invalid n (map (not_found_info ns) l) ≡ any (λ m. str_eq m n) l
not_found-named ns n [] = refl
not_found-named ns n (m ∷ l) = ap (◌||◌ (str_eq m n)) (not_found-named ns n l)

missing-reported :
    (ns n : String) (requested : List String) (progress : List BackupDiscoveryProgress)
    (existing : List InvalidBackupInfo)
    → has_progress n progress ≡ false
    → has_invalid n existing ≡ false
    → has_invalid n (missing_of ns requested progress existing) ≡ any (λ m. str_eq m n) requested
unfolding missing_of
missing-reported ns n requested progress existing h k =
    not_found-named ns n _
    ∙ any-keep_other (λ m. str_eq m n)
        (λ m. not (has_progress m progress) && not (has_invalid m existing)) requested
        (λ m e.
          ap (λ x. not (has_progress x progress) && not (has_invalid x existing)) (str_eq→eq m n e)
          ∙ ground (arith, h, k))

relevant-named :
    (n : String) (requested : List String) (existing : List InvalidBackupInfo)
    → Names n requested
    → has_invalid n (relevant_existing requested existing) ≡ has_invalid n existing
unfolding relevant_existing
relevant-named n requested existing h =
    any-keep_other (λ i. str_eq i.name n) (λ i. any (λ m. str_eq m i.name) requested) existing
      (λ i e. ap (λ x. any (λ m. str_eq m x) requested) (str_eq→eq i.name n e) ∙ h)

or_known :
    (a p v x w m : Bool)
    → p ≡ (v || x)
    → (a ≡ false → w ≡ x)
    → (p ≡ false → a ≡ false → m ≡ true)
    → v || (a || (w || m)) ≡ true
or_known a p v x w m h k l = ground arith

-- After finalization every requested name is the name of a valid or of an invalid backup.
pub finalized-Names :
    (set_status_condition : List Condition → Condition → List Condition) (ns : String) (now : ℕ)
    (requested : List String) (s : DiscoveryStatusOf) (fresh : BackupsDiscovery) (n : String)
    → Names n requested
    → has_valid n (finalized set_status_condition ns now requested s fresh).status.valid_backups
        || has_invalid n
            (finalized set_status_condition ns now requested s fresh).status.invalid_backups
      ≡ true
unfolding finalized all_invalid
finalized-Names set_status_condition ns now requested s fresh n h =
    ap (◌||◌ (has_valid n (valid_of s.backup_discovery_progress))) (
      any-append _ existing (others ++ missing)
      ∙ ap (◌||◌ (has_invalid n existing)) (any-append _ others missing))
    ∙ or_known (has_invalid n existing) (has_progress n s.backup_discovery_progress) _
        (has_invalid n (invalid_of s.backup_discovery_progress)) _ _
        (progress-reported n s.backup_discovery_progress)
        (new_invalid-kept n existing (invalid_of s.backup_discovery_progress))
        (λ p a. missing-reported ns n requested s.backup_discovery_progress existing p a ∙ h)
  where
    existing : List InvalidBackupInfo
    existing = relevant_existing requested s.invalid_backups

    others : List InvalidBackupInfo
    others = keep (λ i. not (has_invalid i.name existing)) (invalid_of s.backup_discovery_progress)

    missing : List InvalidBackupInfo
    missing = missing_of ns requested s.backup_discovery_progress existing
