-- ===== src/FileRestore/Groups/Keys.antt =====
-- The keys of the map in which processDiscoveryResults groups the PVCs.
use oadp_vm_file_restore.Prelude.{
  String, str_eq, str_eq→eq, ◌≡◌, refl, sym, ap, ◌∙◌, arith, List, [], ◌∷◌, map, false, ◌||◌, none,
  some, keep, All, Bool-cases, Option-cases, inl, inr,
}
use oadp_vm_file_restore.Api.{PvcInfo, BackupDiscoveryProgress}
use oadp_vm_file_restore.Discovery.Select.{find, assign}
use oadp_vm_file_restore.Discovery.Select.Maps.{has_name, Distinct, str_eq_sym}
use oadp_vm_file_restore.FileRestore.Types.{RestoreInfo, PvcRestoreInfo}
use oadp_vm_file_restore.FileRestore.Groups.{
  PvcMap, state_of, is_backup_failure, synthetic_uid, synthetic_entry, restore_info, entry_of,
  add_pvc, add_pvcs, add_progress, group_by_pvc,
}

-- Every entry stands under its UID, and no key occurs twice.
pub record IsKeyed (m : PvcMap) : Type 0 where
  pub uids : All (λ (entry : String × PvcRestoreInfo). entry.1.pvc_uid ≡ entry.0) m
  pub distinct : Distinct (map (λ (entry : String × PvcRestoreInfo). entry.0) m)

keys : PvcMap → List String
keys m = map (λ (entry : String × PvcRestoreInfo). entry.0) m

has_name-assign :
    (n j : String) (e : PvcRestoreInfo) (m : PvcMap)
    → has_name n (keys (assign j e m)) ≡ (has_name n (keys m) || str_eq j n)
unfolding keys
has_name-assign n j e [] = ground arith
has_name-assign n j e ((i, f) ∷ m) = elim (Bool-cases (str_eq i j)) [
  | inl same ↦ rw same (ground (arith, ap (λ x. str_eq x n) (str_eq→eq i j same)))
  | inr o ↦ rw o (ap (λ x. str_eq i n || x) (has_name-assign n j e m) ∙ ground arith)
]

assign-Distinct :
    (j : String) (e : PvcRestoreInfo) (m : PvcMap)
    → Distinct (keys m)
    → Distinct (keys (assign j e m))
unfolding keys Distinct
assign-Distinct j e [] d = (refl, tt)
assign-Distinct j e ((i, f) ∷ m) d = elim (Bool-cases (str_eq i j)) [
  | inl same ↦ rw same d
  | inr o ↦
      rw o (
        has_name-assign i j e m ∙ ground (arith, d.0, str_eq_sym i j, o),
        assign-Distinct j e m d.1,
      )
]

assign-uids :
    (j : String) (e : PvcRestoreInfo) (m : PvcMap)
    → e.pvc_uid ≡ j
    → All (λ (entry : String × PvcRestoreInfo). entry.1.pvc_uid ≡ entry.0) m
    → All (λ (entry : String × PvcRestoreInfo). entry.1.pvc_uid ≡ entry.0) (assign j e m)
assign-uids j e [] h a = (h, tt)
assign-uids j e ((i, f) ∷ m) h a = elim (Bool-cases (str_eq i j)) [
  | inl same ↦ rw same (h ∙ sym (str_eq→eq i j same), a.1)
  | inr o ↦ rw o (a.0, assign-uids j e m h a.1)
]

some-inj : {e f : PvcRestoreInfo} → some e ≡ some f → e ≡ f
some-inj h = cc

uid_of : PvcRestoreInfo → String
uid_of e = e.pvc_uid

find-uid :
    (j : String) (m : PvcMap) (e : PvcRestoreInfo)
    → All (λ (entry : String × PvcRestoreInfo). entry.1.pvc_uid ≡ entry.0) m
    → find j m ≡ some e
    → e.pvc_uid ≡ j
unfolding uid_of
find-uid j [] e a h = absurd (cc)
find-uid j ((i, f) ∷ m) e a h = elim (Bool-cases (str_eq i j)) [
  | inl same ↦
      let found : some f ≡ some e = sym (rw same refl) ∙ h in
      ap uid_of (some-inj (sym found)) ∙ a.0 ∙ str_eq→eq i j same
  | inr o ↦ find-uid j m e a.1 (sym (rw o refl) ∙ h)
]

assign-IsKeyed :
    (j : String) (e : PvcRestoreInfo) (m : PvcMap)
    → e.pvc_uid ≡ j
    → IsKeyed m
    → IsKeyed (assign j e m)
unfolding keys
assign-IsKeyed j e m h k = record {
  uids = assign-uids j e m h k.uids;
  distinct = assign-Distinct j e m k.distinct;
}

add_pvcs-IsKeyed :
    (r : RestoreInfo) (pvcs : List PvcInfo) (m : PvcMap) → IsKeyed m → IsKeyed (add_pvcs r pvcs m)
unfolding add_pvcs add_pvc entry_of
add_pvcs-IsKeyed r [] m k = k
add_pvcs-IsKeyed r (pvc ∷ rest) m k =
    add_pvcs-IsKeyed r rest _ (assign-IsKeyed pvc.pvc_uid _ m uid k)
  where
    uid : (entry_of pvc (find pvc.pvc_uid m)).pvc_uid ≡ pvc.pvc_uid
    uid = elim (Option-cases (find pvc.pvc_uid m)) [
      | inl e ↦ rw e refl
      | inr (f, e) ↦ rw e (find-uid pvc.pvc_uid m f k.uids e)
    ]

add_progress-IsKeyed :
    (b : BackupDiscoveryProgress) (m : PvcMap) → IsKeyed m → IsKeyed (add_progress b m)
unfolding synthetic_entry add_progress
add_progress-IsKeyed b m k = elim (Option-cases (state_of b)) [
  | inl e ↦ rw (add_progress, e) k
  | inr (state, e) ↦
      rw (add_progress, e)
        (elim (Bool-cases (is_backup_failure b state)) [
          | inl f ↦ rw f (assign-IsKeyed (synthetic_uid b) (synthetic_entry b state) m refl k)
          | inr f ↦ rw f (add_pvcs-IsKeyed (restore_info b state) b.pvcs m k)
        ])
]

pub group_by_pvc-IsKeyed :
    (results : List BackupDiscoveryProgress) (m : PvcMap)
    → IsKeyed m
    → IsKeyed (group_by_pvc results m)
unfolding group_by_pvc
group_by_pvc-IsKeyed [] m k = k
group_by_pvc-IsKeyed (b ∷ rest) m k = group_by_pvc-IsKeyed rest _ (add_progress-IsKeyed b m k)

pub IsKeyed-nil : IsKeyed []
unfolding Distinct
IsKeyed-nil = record { uids = tt; distinct = tt }

keep-absent :
    (k : String) (g : PvcRestoreInfo → PvcRestoreInfo) (m : PvcMap)
    → ((e : PvcRestoreInfo) → (g e).pvc_uid ≡ e.pvc_uid)
    → All (λ (entry : String × PvcRestoreInfo). entry.1.pvc_uid ≡ entry.0) m
    → has_name k (keys m) ≡ false
    → keep (λ e. str_eq e.pvc_uid k) (map (λ (entry : String × PvcRestoreInfo). g entry.1) m) ≡ []
unfolding keys
keep-absent k g [] h a n = refl
keep-absent k g ((j, e) ∷ m) h a n =
    let apart : str_eq j k ≡ false = ground (arith, n) in
    rw (keep, ap (λ x. str_eq x k) (h e ∙ a.0) ∙ apart)
      (keep-absent k g m h a.1 (ground (arith, n)))

-- The entries with a UID are what the map holds under it.
pub keep-find :
    (k : String) (g : PvcRestoreInfo → PvcRestoreInfo) (m : PvcMap)
    → ((e : PvcRestoreInfo) → (g e).pvc_uid ≡ e.pvc_uid)
    → IsKeyed m
    → keep (λ e. str_eq e.pvc_uid k) (map (λ (entry : String × PvcRestoreInfo). g entry.1) m)
      ≡ elim (find k m) [ none ↦ [] | some e ↦ g e ∷ [] ]
unfolding keys Distinct
keep-find k g [] h i = refl
keep-find k g ((j, e) ∷ m) h i = elim (Bool-cases (str_eq j k)) [
  | inl same ↦
      rw (keep, ap (λ x. str_eq x k) (h e ∙ i.uids.0) ∙ same, same)
        (ap (◌∷◌ (g e)) (
          keep-absent k g m h i.uids.1
            (ap (λ x. has_name x (keys m)) (sym (str_eq→eq j k same)) ∙ i.distinct.0)))
  | inr o ↦
      rw (keep, ap (λ x. str_eq x k) (h e ∙ i.uids.0) ∙ o, o)
        (keep-find k g m h (record { uids = i.uids.1; distinct = i.distinct.1 }))
]
