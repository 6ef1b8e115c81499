-- ===== src/FileRestore/Selection/Served.antt =====
-- What getFilteredBackupsToServe serves.
use mathlib.Core.List.{Mem, mem-cons_self, mem-cons_of_mem}
use mathlib.Core.Bool.{true≢false}
use oadp_vm_file_restore.Prelude.{
  is_empty, String, str_eq, str_eq→eq, ◌≡◌, refl, sym, subst, ap, ap₂, ◌∙◌, arith, List, [], ◌∷◌,
  ◌++◌, append_assoc, append-nil, map, Bool, true, false, not, ◌||◌, none, some, any, All, is_some,
  Bool-cases, Option-cases, inl, inr, if◌then◌else◌,
}
use oadp_vm_file_restore.Api.{VeleroBackupInfo}
use oadp_vm_file_restore.Discovery.Cluster.{Result, ok, err}
use oadp_vm_file_restore.Discovery.Select.{find, assign}
use oadp_vm_file_restore.Discovery.Select.Maps.{find-assign}
use oadp_vm_file_restore.FileRestore.Selection.{
  valid_backup_names, select_backups, get_filtered_backups_to_serve,
}

abbrev pub is_valid_name : List VeleroBackupInfo → String → Bool
is_valid_name valid n = any (λ b. str_eq b.name n) valid

-- What the caller may expect of a result.
pub Serves : List String → List VeleroBackupInfo → Result (List VeleroBackupInfo) → Type 0
Serves selected valid (ok to_serve) =
    (map (λ (b : VeleroBackupInfo). b.name) to_serve ≡ selected) × All (λ b. Mem b valid) to_serve
Serves selected valid (err e) = any (λ n. not (is_valid_name valid n)) selected ≡ true

-- The map holds valid backups under their names.
IsKeyed : List VeleroBackupInfo → List (String × VeleroBackupInfo) → Type 0
IsKeyed valid m =
    (n : String) (b : VeleroBackupInfo) → find n m ≡ some b → (b.name ≡ n) × Mem b valid

some-inj {ℓ} : {A : Type ℓ} {a b : A} → some a ≡ some b → a ≡ b
some-inj e = cc

assign-IsKeyed :
    (valid : List VeleroBackupInfo) (b : VeleroBackupInfo) (m : List (String × VeleroBackupInfo))
    → Mem b valid
    → IsKeyed valid m
    → IsKeyed valid (assign b.name b m)
unfolding IsKeyed
assign-IsKeyed valid b m h k n c e = elim (Bool-cases (str_eq b.name n)) [
  | inl same ↦
      let equal : b ≡ c = some-inj (sym (stored n same) ∙ e) in
      (
        ap (λ (x : VeleroBackupInfo). x.name) (sym equal) ∙ str_eq→eq b.name n same,
        subst (λ x. Mem x valid) equal h,
      )
  | inr o ↦ k n c (sym (kept n o) ∙ e)
]
  where
    stored : (n : String) → str_eq b.name n ≡ true → find n (assign b.name b m) ≡ some b
    stored n s = find-assign n b.name b m ∙ rw s refl

    kept : (n : String) → str_eq b.name n ≡ false → find n (assign b.name b m) ≡ find n m
    kept n o = find-assign n b.name b m ∙ rw o refl

valid_backup_names-IsKeyed :
    (valid rest : List VeleroBackupInfo) (m : List (String × VeleroBackupInfo))
    → All (λ b. Mem b valid) rest
    → IsKeyed valid m
    → IsKeyed valid (valid_backup_names rest m)
unfolding valid_backup_names
valid_backup_names-IsKeyed valid [] m h k = k
valid_backup_names-IsKeyed valid (b ∷ rest) m h k =
    valid_backup_names-IsKeyed valid rest _ h.1 (assign-IsKeyed valid b m h.0 k)

is_some-valid_backup_names :
    (n : String) (rest : List VeleroBackupInfo) (m : List (String × VeleroBackupInfo))
    → is_some (find n (valid_backup_names rest m)) ≡ (is_valid_name rest n || is_some (find n m))
unfolding valid_backup_names
is_some-valid_backup_names n [] m = refl
is_some-valid_backup_names n (b ∷ rest) m =
    is_some-valid_backup_names n rest _
    ∙ ap (λ o. is_valid_name rest n || is_some o) (find-assign n b.name b m)
    ∙ either (str_eq b.name n) (is_valid_name rest n)
  where
    either :
        (x y : Bool)
        → (y || is_some (if x then some b else find n m)) ≡ ((x || y) || is_some (find n m))
    either true y = ground arith
    either false y = refl

found : List (String × VeleroBackupInfo) → List String → List VeleroBackupInfo
found m [] = []
found m (n ∷ rest) = elim (find n m) [ some b ↦ b ∷ found m rest | none ↦ found m rest ]

unfound : List (String × VeleroBackupInfo) → List String → List String
unfound m [] = []
unfound m (n ∷ rest) = elim (find n m) [ some b ↦ unfound m rest | none ↦ n ∷ unfound m rest ]

select_backups_lem :
    (m : List (String × VeleroBackupInfo)) (selected : List String)
    (to_serve : List VeleroBackupInfo) (unknown : List String)
    → select_backups m selected (to_serve, unknown)
      ≡ (to_serve ++ found m selected, unknown ++ unfound m selected)
unfolding select_backups found unfound
select_backups_lem m [] to_serve unknown =
    ap₂ (λ a b. (a, b)) (sym (append-nil to_serve)) (sym (append-nil unknown))
select_backups_lem m (n ∷ rest) to_serve unknown = elim (Option-cases (find n m)) [
  | inl e ↦
      rw (select_backups, found, unfound, e)
        (select_backups_lem m rest to_serve (unknown ++ n ∷ [])
          ∙ ap (λ x. (to_serve ++ found m rest, x))
              (append_assoc unknown (n ∷ []) (unfound m rest)))
  | inr (b, e) ↦
      rw (select_backups, found, unfound, e)
        (select_backups_lem m rest (to_serve ++ b ∷ []) unknown
          ∙ ap (λ x. (x, unknown ++ unfound m rest))
              (append_assoc to_serve (b ∷ []) (found m rest)))
]

found-Serves :
    (valid : List VeleroBackupInfo) (m : List (String × VeleroBackupInfo)) (selected : List String)
    → IsKeyed valid m
    → is_empty (unfound m selected) ≡ true
    → (map (λ (b : VeleroBackupInfo). b.name) (found m selected) ≡ selected)
      × All (λ b. Mem b valid) (found m selected)
unfolding found unfound IsKeyed
found-Serves valid m [] k e = (refl, tt)
found-Serves valid m (n ∷ rest) k e = elim (Option-cases (find n m)) [
  | inl o ↦ absurd (true≢false (sym e ∙ rw (unfound, o) refl))
  | inr (b, o) ↦
      let r = found-Serves valid m rest k (sym (rw (unfound, o) refl) ∙ e) in
      rw (found, o) (ap₂ (◌∷◌) (k n b o).0 r.0, ((k n b o).1, r.1))
]

unfound-any :
    (valid : List VeleroBackupInfo) (m : List (String × VeleroBackupInfo)) (selected : List String)
    → ((n : String) → is_some (find n m) ≡ is_valid_name valid n)
    → is_empty (unfound m selected) ≡ false
    → any (λ n. not (is_valid_name valid n)) selected ≡ true
unfolding unfound
unfound-any valid m [] h e = absurd (true≢false e)
unfound-any valid m (n ∷ rest) h e = elim (Option-cases (find n m)) [
  | inl o ↦ rw (sym (h n), o) refl
  | inr (b, o) ↦ rw (sym (h n), o) (unfound-any valid m rest h (sym (rw (unfound, o) refl) ∙ e))
]

Mem-All : {A : Type 0} (l m : List A) → ((a : A) → Mem a l → Mem a m) → All (λ a. Mem a m) l
Mem-All [] m h = tt
Mem-All (a ∷ l) m h = (h a (mem-cons_self), Mem-All l m (λ b k. h b (mem-cons_of_mem a k)))

-- With a selection, the served backups are the selected ones, by their names and in their order,
-- and each is a valid backup of the discovery; the call fails only if a selected name is not that
-- of a valid backup.
pub get_filtered_backups_to_serve-Serves :
    (selected : List String) (valid : List VeleroBackupInfo)
    → is_empty selected ≡ false
    → Serves selected valid (get_filtered_backups_to_serve selected valid)
unfolding Serves get_filtered_backups_to_serve IsKeyed
get_filtered_backups_to_serve-Serves selected valid s =
    rw (s, select_backups_lem (valid_backup_names valid []) selected [] [])
      (elim (Bool-cases (is_empty (unfound (valid_backup_names valid []) selected))) [
        | inl e ↦ rw e (found-Serves valid _ selected keyed e)
        | inr e ↦ rw e (unfound-any valid _ selected known e)
      ])
  where
    keyed : IsKeyed valid (valid_backup_names valid [])
    keyed =
        valid_backup_names-IsKeyed valid valid [] (Mem-All valid valid (λ _ h. h))
          (λ n b e. absurd (cc))

    known : (n : String) → is_some (find n (valid_backup_names valid [])) ≡ is_valid_name valid n
    known n = is_some-valid_backup_names n valid [] ∙ ground arith
