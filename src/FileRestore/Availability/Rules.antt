-- ===== src/FileRestore/Availability/Rules.antt =====
-- The rules of validateAndDiscoverPVCs, in terms of the PVCs.
use oadp_vm_file_restore.Prelude.{
  suc, ◌≡◌, refl, ap, ap₂, ◌∙◌, arith, ltb, str_eq, List, [], ◌∷◌, Bool, true, false, not, ◌&&◌,
  ◌||◌, any, Bool-cases, inl, inr, if◌then◌else◌,
}
use oadp_vm_file_restore.FileRestore.Types.{
  RestoreInfo, PvcRestoreInfo, available, backup_level_failure,
}
use oadp_vm_file_restore.FileRestore.Availability.{
  PvcCounts, no_pvcs, scan_restores, count_pvc, count_pvcs, Verdict, no_available_backups,
  partial_availability, proceed, judge,
}

abbrev pub is_available : RestoreInfo → Bool
is_available r = str_eq r.state available

-- An entry that stands for a PVC, not for a failed backup.
abbrev pub is_real : PvcRestoreInfo → Bool
is_real pvc = not (str_eq pvc.pvc_name backup_level_failure)

abbrev pub is_usable : PvcRestoreInfo → Bool
is_usable pvc = is_real pvc && any is_available pvc.restores

-- A PVC without restores, or with one that is not available.
abbrev pub is_flawed : PvcRestoreInfo → Bool
is_flawed pvc =
    is_real pvc
    && (not (any is_available pvc.restores) || any (λ r. not (is_available r)) pvc.restores)

-- The verdict in words.
unfoldable pub verdict : List PvcRestoreInfo → Verdict
verdict pvcs =
    if not (any is_usable pvcs)
    then no_available_backups
    else if any is_flawed pvcs
    then partial_availability
    else proceed

scan_restores_lem :
    (rs : List RestoreInfo) (a h : Bool)
    → scan_restores rs (a, h)
      ≡ (a && not (any (λ r. not (is_available r)) rs), h || any is_available rs)
unfolding scan_restores
scan_restores_lem [] a h = ap₂ (λ x y. (x, y)) (ground arith) (ground arith)
scan_restores_lem (r ∷ rest) a h = elim (Bool-cases (is_available r)) [
  | inl e ↦
      rw (scan_restores, e)
        (scan_restores_lem rest a true ∙ ap₂ (λ x y. (x, y)) refl (ground arith))
  | inr e ↦
      rw (scan_restores, e)
        (scan_restores_lem rest false h ∙ ap₂ (λ x y. (x, y)) (ground arith) refl)
]

has_usable : PvcCounts → Bool
has_usable c = ltb 0 c.fully_available || ltb 0 c.partially_available

has_flawed : PvcCounts → Bool
has_flawed c = ltb 0 c.partially_available || ltb 0 c.unavailable

-- `count_pvc`, by its tests.
counted : Bool → Bool → Bool → PvcCounts → PvcCounts
counted named all_available has_available c =
    if named
    then c
    else if all_available && has_available
    then record c { total = suc c.total; fully_available = suc c.fully_available }
    else if has_available
    then record c { total = suc c.total; partially_available = suc c.partially_available }
    else record c { total = suc c.total; unavailable = suc c.unavailable }

counted_lem :
    (named flawed usable : Bool) (c : PvcCounts)
    → (has_usable (counted named (not flawed) usable c) ≡ (has_usable c || (not named && usable)))
      × (has_flawed (counted named (not flawed) usable c)
          ≡ (has_flawed c || (not named && (not usable || flawed))))
unfolding has_usable has_flawed counted
counted_lem true flawed usable c = (ground arith, ground arith)
counted_lem false true true c = (ground arith, ground arith)
counted_lem false true false c = (ground arith, ground arith)
counted_lem false false true c = (ground arith, ground arith)
counted_lem false false false c = (ground arith, ground arith)

count_pvc-counted :
    (pvc : PvcRestoreInfo) (c : PvcCounts)
    → count_pvc pvc c
      ≡ counted
          (str_eq pvc.pvc_name backup_level_failure)
          (not (any (λ r. not (is_available r)) pvc.restores))
          (any is_available pvc.restores)
          c
unfolding count_pvc counted
count_pvc-counted pvc c = rw (scan_restores_lem pvc.restores true false) refl

-- There is a PVC of a kind if there is one among those counted so far, or among the others.
count_pvcs_lem :
    (pvcs : List PvcRestoreInfo) (c : PvcCounts)
    → (has_usable (count_pvcs pvcs c) ≡ (has_usable c || any is_usable pvcs))
      × (has_flawed (count_pvcs pvcs c) ≡ (has_flawed c || any is_flawed pvcs))
unfolding count_pvcs
count_pvcs_lem [] c = (ground arith, ground arith)
count_pvcs_lem (pvc ∷ rest) c =
    let step =
      counted_lem (str_eq pvc.pvc_name backup_level_failure)
        (any (λ r. not (is_available r)) pvc.restores) (any is_available pvc.restores) c in
    let after = count_pvcs_lem rest (count_pvc pvc c) in
    (
      after.0
          ∙ ap (λ x. x || any is_usable rest) (ap has_usable (count_pvc-counted pvc c) ∙ step.0)
          ∙ or_assoc (has_usable c) (is_usable pvc) _,
      after.1
          ∙ ap (λ x. x || any is_flawed rest) (ap has_flawed (count_pvc-counted pvc c) ∙ step.1)
          ∙ or_assoc (has_flawed c) (is_flawed pvc) _,
    )
  where
    or_assoc : (x y z : Bool) → ((x || y) || z) ≡ (x || (y || z))
    or_assoc true y z = refl
    or_assoc false y z = refl

judge_lem :
    (c : PvcCounts)
    → judge c ≡ (
        if not (has_usable c)
        then no_available_backups
        else if has_flawed c
        then partial_availability
        else proceed)
unfolding judge has_usable has_flawed
judge_lem c = ground arith

-- The rules on the counts decide as follows: without a PVC that has an available restore, the
-- validation fails; otherwise it fails in part if some PVC has a restore that is not available, or
-- none at all; otherwise the restore goes on. Entries for failed backups do not count.
pub judge-verdict : (pvcs : List PvcRestoreInfo) → judge (count_pvcs pvcs no_pvcs) ≡ verdict pvcs
unfolding has_usable has_flawed verdict
judge-verdict pvcs =
    judge_lem (count_pvcs pvcs no_pvcs)
    ∙ ap₂
        (λ u f. if not u then no_available_backups else if f then partial_availability else proceed)
        (count_pvcs_lem pvcs no_pvcs).0 (count_pvcs_lem pvcs no_pvcs).1
