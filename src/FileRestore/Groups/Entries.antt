-- ===== src/FileRestore/Groups/Entries.antt =====
-- The entries that processDiscoveryResults writes, one for each PVC.
use oadp_vm_file_restore.Prelude.{
  String, str_eq, str_eq→eq, ◌≡◌, refl, sym, ap, ◌∙◌, arith, List, [], ◌∷◌, ◌++◌, append_assoc,
  append-nil, Perm, map, Bool, true, false, Option, none, some, any, keep, Bool-cases, Option-cases,
  inl, inr, if◌then◌else◌, subst,
}
use oadp_vm_file_restore.Api.{PvcInfo, BackupDiscoveryProgress}
use oadp_vm_file_restore.Discovery.Select.{find, assign}
use oadp_vm_file_restore.Discovery.Select.Maps.{find-assign}
use oadp_vm_file_restore.FileRestore.Types.{RestoreInfo, PvcRestoreInfo}
use oadp_vm_file_restore.FileRestore.Restores.{sort_restores_by_timestamp}
use oadp_vm_file_restore.FileRestore.Restores.Sorted.{IsNewestFirst, sort_restores_by_timestamp_lem}
use oadp_vm_file_restore.FileRestore.Groups.Keys.{IsKeyed-nil, group_by_pvc-IsKeyed, keep-find}
use oadp_vm_file_restore.FileRestore.Groups.{
  PvcMap, state_of, is_backup_failure, synthetic_uid, restore_info, entry_of, add_pvc, add_pvcs,
  add_progress, group_by_pvc, pvc_restores_of,
}

-- What a backup has to say of the PVC with the UID `k`.
unfoldable pub contribution : String → BackupDiscoveryProgress → List RestoreInfo
contribution k b = elim (state_of b) [
  | none ↦ []
  | some state ↦
      if is_backup_failure b state
      then []
      else map (λ _. restore_info b state) (keep (λ p. str_eq p.pvc_uid k) b.pvcs)
]

-- What all of them have to say, in the order of the results.
unfoldable pub restores_for : String → List BackupDiscoveryProgress → List RestoreInfo
restores_for k [] = []
restores_for k (b ∷ rest) = contribution k b ++ restores_for k rest

abbrev pub is_synthetic : String → List BackupDiscoveryProgress → Bool
is_synthetic k results = any (λ b. str_eq (synthetic_uid b) k) results

-- The entries of a PVC: one at most, which holds all that the backups have to say, newest first.
pub IsEntryOf : String → List BackupDiscoveryProgress → List PvcRestoreInfo → Type 0
IsEntryOf k results [] = restores_for k results ≡ []
IsEntryOf k results (e ∷ []) = IsNewestFirst e.restores × Perm (restores_for k results) e.restores
IsEntryOf k results (e ∷ f ∷ rest) = ⊥

restores_in : Option PvcRestoreInfo → List RestoreInfo
restores_in none = []
restores_in (some e) = e.restores

restores_at-assign :
    (k j : String) (e : PvcRestoreInfo) (m : PvcMap)
    → restores_in (find k (assign j e m))
      ≡ (if str_eq j k then e.restores else restores_in (find k m))
unfolding restores_in
restores_at-assign k j e m = ap restores_in (find-assign k j e m) ∙ inside (str_eq j k)
  where
    inside :
        (x : Bool)
        → restores_in (if x then some e else find k m)
          ≡ (if x then e.restores else restores_in (find k m))
    inside true = refl
    inside false = refl

restores-entry_of :
    (pvc : PvcInfo) (o : Option PvcRestoreInfo) → (entry_of pvc o).restores ≡ restores_in o
unfolding entry_of restores_in
restores-entry_of pvc none = refl
restores-entry_of pvc (some e) = refl

restores_at-add_pvc :
    (k : String) (r : RestoreInfo) (pvc : PvcInfo) (m : PvcMap)
    → restores_in (find k (add_pvc r pvc m))
      ≡ restores_in (find k m) ++ (if str_eq pvc.pvc_uid k then r ∷ [] else [])
unfolding add_pvc
restores_at-add_pvc k r pvc m =
    restores_at-assign k pvc.pvc_uid _ m ∙ elim (Bool-cases (str_eq pvc.pvc_uid k)) [
      | inl same ↦ rw same (
          ap (λ l. l ++ r ∷ [])
            (restores-entry_of pvc (find pvc.pvc_uid m)
              ∙ ap (λ n. restores_in (find n m)) (str_eq→eq pvc.pvc_uid k same)))
      | inr o ↦ rw o (sym (append-nil _))
    ]

restores_at-add_pvcs :
    (k : String) (r : RestoreInfo) (pvcs : List PvcInfo) (m : PvcMap)
    → restores_in (find k (add_pvcs r pvcs m))
      ≡ restores_in (find k m) ++ map (λ _. r) (keep (λ p. str_eq p.pvc_uid k) pvcs)
unfolding add_pvcs
restores_at-add_pvcs k r [] m = sym (append-nil _)
restores_at-add_pvcs k r (pvc ∷ rest) m =
    restores_at-add_pvcs k r rest _
    ∙ ap (λ l. l ++ map (λ _. r) (keep (λ p. str_eq p.pvc_uid k) rest))
        (restores_at-add_pvc k r pvc m)
    ∙ append_assoc (restores_in (find k m)) _ _
    ∙ ap (λ l. restores_in (find k m) ++ l)
        (elim (Bool-cases (str_eq pvc.pvc_uid k)) [
          | inl same ↦ rw (keep, same) refl
          | inr o ↦ rw (keep, o) refl
        ])

restores_at-add_progress :
    (k : String) (b : BackupDiscoveryProgress) (m : PvcMap)
    → str_eq (synthetic_uid b) k ≡ false
    → restores_in (find k (add_progress b m)) ≡ restores_in (find k m) ++ contribution k b
unfolding add_progress contribution
restores_at-add_progress k b m h = elim (Option-cases (state_of b)) [
  | inl e ↦ rw (add_progress, contribution, e) (sym (append-nil _))
  | inr (state, e) ↦
      rw (add_progress, contribution, e)
        (elim (Bool-cases (is_backup_failure b state)) [
          | inl f ↦ rw f (restores_at-assign k (synthetic_uid b) _ m ∙ rw h (sym (append-nil _)))
          | inr f ↦ rw f (restores_at-add_pvcs k (restore_info b state) b.pvcs m)
        ])
]

restores_at-group_by_pvc :
    (k : String) (results : List BackupDiscoveryProgress) (m : PvcMap)
    → is_synthetic k results ≡ false
    → restores_in (find k (group_by_pvc results m))
      ≡ restores_in (find k m) ++ restores_for k results
unfolding group_by_pvc restores_for
restores_at-group_by_pvc k [] m h = sym (append-nil _)
restores_at-group_by_pvc k (b ∷ rest) m h =
    restores_at-group_by_pvc k rest _ (ground (arith, h))
    ∙ ap (λ l. l ++ restores_for k rest) (restores_at-add_progress k b m (ground (arith, h)))
    ∙ append_assoc (restores_in (find k m)) _ _

-- Once the results are grouped, each PVC whose UID is not that of a failed backup has one entry at
-- most. It holds the restore from every backup that was not passed over and that names the PVC,
-- newest first; without an entry, no backup names the PVC.
pub pvc_restores_of-IsEntryOf :
    (k : String) (results : List BackupDiscoveryProgress)
    → is_synthetic k results ≡ false
    → IsEntryOf k results (keep (λ e. str_eq e.pvc_uid k) (pvc_restores_of results))
unfolding pvc_restores_of IsEntryOf restores_in
pvc_restores_of-IsEntryOf k results h =
    rw
      (keep-find k sorted (group_by_pvc results []) (λ _. refl)
        (group_by_pvc-IsKeyed results [] IsKeyed-nil))
      (elim (Option-cases (find k (group_by_pvc results []))) [
        | inl e ↦ rw e (sym restores ∙ rw e refl)
        | inr (f, e) ↦ rw e (
          (sort_restores_by_timestamp_lem f.restores).0,
          subst (λ l. Perm l (sort_restores_by_timestamp f.restores)) (sym (rw e refl) ∙ restores)
              (sort_restores_by_timestamp_lem f.restores).1,
        )
      ])
  where
    sorted : PvcRestoreInfo → PvcRestoreInfo
    sorted e = record e { restores = sort_restores_by_timestamp e.restores }

    restores : restores_in (find k (group_by_pvc results [])) ≡ restores_for k results
    restores = restores_at-group_by_pvc k results [] h
