-- ===== src/Velero/Spec/Laws.antt =====
-- What ValidateVMInBackupSpec and the tests of the asynchronous operations decide.
use text.Mathlib.TextEquality.{eq_iff}
use text.Mathlib.TextLemmas.{append-eq-nil_iff}
use oadp_vm_file_restore.Prelude.{
  String, ◌<>◌, str_eq, List, [], ◌∷◌, Bool, true, false, ◌||◌, ◌≡◌, refl, ◌↔◌, ◌≢◌, arith, any,
  if◌then◌else◌, pos, int_eq, Bool-cases, inl, inr, ◌⊎◌,
}
use oadp_vm_file_restore.Api.{Backup}
use oadp_vm_file_restore.Velero.Spec.{
  validate_vm_in_backup_spec, backup_async_operations_incomplete, backup_async_operations_reason,
}

-- A name is in the list.
abbrev pub Names : String → List String → Type 0
Names n l = any (λ m. str_eq m n) l ≡ true

any_or {ℓ} :
    {A : Type ℓ} (p q : A → Bool) (l : List A) → any (λ a. p a || q a) l ≡ (any p l || any q l)
any_or p q [] = refl
any_or p q (a ∷ l) = ground (arith, any_or p q l)

included_covers : List String → String → Bool
included_covers [] ns = true
included_covers (i ∷ is) ns = any (λ n. str_eq n "*") (i ∷ is) || any (λ n. str_eq n ns) (i ∷ is)

validate-included :
    (backup : Backup) (included : List String) (ns : String)
    → validate_vm_in_backup_spec (record backup { included_namespaces = included }) ns ≡ (
        if any (λ n. str_eq n ns) backup.excluded_namespaces
        then false
        else included_covers included ns)
unfolding validate_vm_in_backup_spec included_covers
validate-included backup [] ns = ground arith
validate-included backup (i ∷ is) ns =
    ground (arith, any_or (λ n. str_eq n "*") (λ n. str_eq n ns) (i ∷ is))

included_covers_iff :
    (l : List String) (ns : String)
    → (included_covers l ns ≡ true) ↔ ((l ≡ []) ⊎ Names "*" l ⊎ Names ns l)
unfolding included_covers
included_covers_iff [] ns = (λ h. inl refl, λ h. refl)
included_covers_iff (i ∷ is) ns = (λ h. ground arith, λ h. ground arith)

-- The namespace is covered exactly when it is not excluded, and the list of included namespaces
-- is empty, has the wildcard or has the namespace.
pub validate_vm_in_backup_spec_iff :
    (backup : Backup) (ns : String)
    → (validate_vm_in_backup_spec backup ns ≡ true) ↔ (
        (¬ Names ns backup.excluded_namespaces)
        × ((backup.included_namespaces ≡ [])
            ⊎ Names "*" backup.included_namespaces
            ⊎ Names ns backup.included_namespaces))
validate_vm_in_backup_spec_iff backup ns = ground (
  arith,
  validate-included backup backup.included_namespaces ns,
  included_covers_iff backup.included_namespaces ns,
)

abbrev incomplete : String
incomplete = "backup has incomplete async operations (data mover upload may not have finished); "

incomplete-ne-nil : incomplete ≢ ""
incomplete-ne-nil = ground (arith, eq_iff incomplete "")

append-ne-nil : (s t : String) → s ≢ "" → s <> t ≢ ""
append-ne-nil s t h e = h (append-eq-nil_iff.0 e).0

-- The reason is empty exactly when the operations are not incomplete.
pub backup_async_operations_reason-eq-nil :
    (backup : Backup)
    → (backup_async_operations_reason backup ≡ "")
      ↔ (backup_async_operations_incomplete backup ≡ false)
unfolding backup_async_operations_reason backup_async_operations_incomplete
backup_async_operations_reason-eq-nil backup =
    elim (Bool-cases (int_eq backup.operations_attempted (pos 0))) [
      | inl none_attempted ↦ rw none_attempted (λ _. refl, λ _. refl)
      | inr attempted ↦
          elim (Bool-cases (int_eq backup.operations_completed backup.operations_attempted)) [
            | inl done ↦ rw (attempted, done) (λ _. refl, λ _. refl)
            | inr open_ ↦
                rw (attempted, open_)
                  (λ e. absurd (append-ne-nil incomplete _ incomplete-ne-nil e), λ e. cc)
          ]
    ]
