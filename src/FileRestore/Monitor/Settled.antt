-- ===== src/FileRestore/Monitor/Settled.antt =====
-- What one look of monitorVeleroRestores leaves for the next.
use mathlib.Core.Bool.{true≢false}
use oadp_vm_file_restore.Prelude.{
  ℕ, ◌+◌, length, ◌≡◌, refl, ◌∙◌, ap, ap₂, sym, String, str_eq, str_eq→eq, str_eq_refl, List, [],
  ◌∷◌, Bool, true, false, not, ◌&&◌, ◌||◌, Bool-cases, inl, inr, All, if◌then◌else◌, arith,
}
use oadp_vm_file_restore.FileRestore.Types.{RestoreInfo, PvcRestoreInfo, backup_level_failure}
use oadp_vm_file_restore.FileRestore.Client.{VeleroRestore}
use oadp_vm_file_restore.FileRestore.Monitor.{
  is_completed_restore, is_failed_restore, count_phase, normalized_phase, is_match,
  update_restore_info, update_infos, update_pvcs, Monitored, monitor, nothing_monitored,
}

-- Whether a Velero restore has something to change.
changes : VeleroRestore → RestoreInfo → Bool
changes x r =
    is_match x r
    && (str_eq r.velero_restore_name "" || not (str_eq r.phase (normalized_phase x.phase)))

-- Velero restores with names, no two of them the same.
unfoldable pub AreNamed : List VeleroRestore → Type 0
AreNamed [] = Unit
AreNamed (x ∷ rest) =
    (str_eq x.name "" ≡ false) × All (λ y. str_eq y.name x.name ≡ false) rest × AreNamed rest

AreNamed-names : (l : List VeleroRestore) → AreNamed l → All (λ x. str_eq x.name "" ≡ false) l
unfolding AreNamed
AreNamed-names [] h = tt
AreNamed-names (x ∷ rest) h = (h.0, AreNamed-names rest h.2)

-- The Velero restores counted.
abbrev pub total_of : Monitored → ℕ
total_of m = m.completed + m.failed + m.in_progress

module _ (ns : String) where
  update-changes :
      (x : VeleroRestore) (r : RestoreInfo) → (update_restore_info ns x r).1 ≡ changes x r
  unfolding update_restore_info changes
  update-changes x r = elim (Bool-cases (is_match x r)) [
    | inr e ↦ rw e refl
    | inl e ↦ elim (Bool-cases (str_eq r.phase (normalized_phase x.phase))) [
      | inl p ↦ rw (e, p) (ground arith)
      | inr p ↦ rw (e, p) (ground arith)
    ]
  ]

  -- The name goes to a restore without one, and the phase becomes that of the Velero restore.
  update-match :
      (x : VeleroRestore) (r : RestoreInfo)
      → is_match x r ≡ true
      → let r' = (update_restore_info ns x r).0 in
        (r'.velero_restore_name
          ≡ (if str_eq r.velero_restore_name "" then x.name else r.velero_restore_name))
        × (r'.velero_backup_name ≡ r.velero_backup_name)
        × (r'.state ≡ r.state)
        × (str_eq r'.phase (normalized_phase x.phase) ≡ true)
  unfolding update_restore_info
  update-match x r e = elim (Bool-cases (str_eq r.phase (normalized_phase x.phase))) [
    | inl p ↦ elim (Bool-cases (str_eq r.velero_restore_name "")) [
      | inl n ↦ rw (e, p, n) (refl, refl, refl, p)
      | inr n ↦ rw (e, p, n) (refl, refl, refl, p)
    ]
    | inr p ↦ elim (Bool-cases (str_eq r.velero_restore_name "")) [
      | inl n ↦ rw (e, p, n) (refl, refl, refl, str_eq_refl (normalized_phase x.phase))
      | inr n ↦ rw (e, p, n) (refl, refl, refl, str_eq_refl (normalized_phase x.phase))
    ]
  ]

  update-not_match :
      (x : VeleroRestore) (r : RestoreInfo)
      → is_match x r ≡ false
      → (update_restore_info ns x r).0 ≡ r
  unfolding update_restore_info
  update-not_match x r e = rw e refl

  update_kept :
      (x : VeleroRestore) (r : RestoreInfo)
      → (update_restore_info ns x r).1 ≡ false
      → (update_restore_info ns x r).0 ≡ r
  unfolding update_restore_info changes
  update_kept x r c = elim (Bool-cases (is_match x r)) [
    | inr e ↦ rw e refl
    | inl e ↦ elim (Bool-cases (str_eq r.phase (normalized_phase x.phase))) [
      | inl p ↦ elim (Bool-cases (str_eq r.velero_restore_name "")) [
        | inl n ↦ absurd (true≢false (ground (arith, sym (update-changes x r) ∙ c, e, n)))
        | inr n ↦ rw (e, p, n) refl
      ]
      | inr p ↦ absurd (true≢false (ground (arith, sym (update-changes x r) ∙ c, e, p)))
    ]
  ]

  -- Once looked at, a Velero restore has nothing more to change.
  changes-update :
      (x : VeleroRestore) (r : RestoreInfo)
      → str_eq x.name "" ≡ false
      → changes x (update_restore_info ns x r).0 ≡ false
  unfolding changes
  changes-update x r h = elim (Bool-cases (is_match x r)) [
    | inl e ↦
        (let u = update-match x r e in
          elim (Bool-cases (str_eq r.velero_restore_name "")) [
            | inl n ↦ rw (u.0, n, h, u.3) (ground arith)
            | inr n ↦ rw (u.0, n, u.3) (ground (arith, n))
          ])
    | inr e ↦ rw (update-not_match x r e, e) refl
  ]

  other_name :
      (y x : VeleroRestore) (r : RestoreInfo)
      → is_match y r ≡ true
      → str_eq r.velero_restore_name "" ≡ false
      → str_eq y.name x.name ≡ false
      → str_eq r.velero_restore_name x.name ≡ false
  unfolding is_match
  other_name y x r e n d =
      ap (λ k. str_eq k x.name) (str_eq→eq r.velero_restore_name y.name (ground (arith, e, n))) ∙ d

  -- Another Velero restore takes nothing back.
  changes-other :
      (x y : VeleroRestore) (r : RestoreInfo)
      → str_eq y.name "" ≡ false
      → str_eq y.name x.name ≡ false
      → changes x r ≡ false
      → changes x (update_restore_info ns y r).0 ≡ false
  unfolding changes is_match
  changes-other x y r h d c = elim (Bool-cases (is_match y r)) [
    | inl e ↦
        (let u = update-match y r e in
          elim (Bool-cases (str_eq r.velero_restore_name "")) [
            | inl n ↦ rw (u.0, u.1, u.2, n, h, d) (ground arith)
            | inr n ↦ rw (u.0, u.1, u.2, n) (ground (arith, n, other_name y x r e n d))
          ])
    | inr e ↦ rw (update-not_match y r e) c
  ]

  -- The same for the restores of an entry, and for all the entries.
  infos_again :
      (x : VeleroRestore) (l : List RestoreInfo)
      → str_eq x.name "" ≡ false
      → (update_infos ns x (update_infos ns x l).0).1 ≡ false
  unfolding update_infos
  infos_again x [] h = refl
  infos_again x (r ∷ l) h =
      rw (update-changes x (update_restore_info ns x r).0, changes-update x r h) (infos_again x l h)

  infos_other :
      (x y : VeleroRestore) (l : List RestoreInfo)
      → str_eq y.name "" ≡ false
      → str_eq y.name x.name ≡ false
      → (update_infos ns x l).1 ≡ false
      → (update_infos ns x (update_infos ns y l).0).1 ≡ false
  unfolding update_infos
  infos_other x y [] h d c = refl
  infos_other x y (r ∷ l) h d c =
      rw
        (
          update-changes x (update_restore_info ns y r).0,
          changes-other x y r h d (sym (update-changes x r) ∙ ground (arith, c)),
        )
        (infos_other x y l h d (ground (arith, c)))

  infos_kept :
      (x : VeleroRestore) (l : List RestoreInfo)
      → (update_infos ns x l).1 ≡ false
      → (update_infos ns x l).0 ≡ l
  unfolding update_infos
  infos_kept x [] c = refl
  infos_kept x (r ∷ l) c =
      ap₂ (λ a b. a ∷ b) (update_kept x r (ground (arith, c))) (infos_kept x l (ground (arith, c)))

  pvcs_parts :
      (x : VeleroRestore) (p : PvcRestoreInfo) (l : List PvcRestoreInfo)
      → (update_pvcs ns x (p ∷ l)).1
        ≡ (not (str_eq p.pvc_name backup_level_failure) && (update_infos ns x p.restores).1)
          || (update_pvcs ns x l).1
  unfolding update_pvcs
  pvcs_parts x p l = elim (Bool-cases (str_eq p.pvc_name backup_level_failure)) [
    | inl e ↦ rw e refl
    | inr e ↦ rw e refl
  ]

  pvcs_again :
      (x : VeleroRestore) (l : List PvcRestoreInfo)
      → str_eq x.name "" ≡ false
      → (update_pvcs ns x (update_pvcs ns x l).0).1 ≡ false
  unfolding update_pvcs
  pvcs_again x [] h = refl
  pvcs_again x (p ∷ l) h = elim (Bool-cases (str_eq p.pvc_name backup_level_failure)) [
    | inl e ↦ rw (e, e) (pvcs_again x l h)
    | inr e ↦ rw (e, e, infos_again x p.restores h) (pvcs_again x l h)
  ]

  pvcs_other :
      (x y : VeleroRestore) (l : List PvcRestoreInfo)
      → str_eq y.name "" ≡ false
      → str_eq y.name x.name ≡ false
      → (update_pvcs ns x l).1 ≡ false
      → (update_pvcs ns x (update_pvcs ns y l).0).1 ≡ false
  unfolding update_pvcs
  pvcs_other x y [] h d c = refl
  pvcs_other x y (p ∷ l) h d c = elim (Bool-cases (str_eq p.pvc_name backup_level_failure)) [
    | inl e ↦ rw (e, e) (pvcs_other x y l h d (ground (arith, sym (pvcs_parts x p l) ∙ c, e)))
    | inr e ↦
        rw (e, e, infos_other x y p.restores h d (ground (arith, sym (pvcs_parts x p l) ∙ c, e)))
          (pvcs_other x y l h d (ground (arith, sym (pvcs_parts x p l) ∙ c, e)))
  ]

  pvcs_kept :
      (x : VeleroRestore) (l : List PvcRestoreInfo)
      → (update_pvcs ns x l).1 ≡ false
      → (update_pvcs ns x l).0 ≡ l
  unfolding update_pvcs
  pvcs_kept x [] c = refl
  pvcs_kept x (p ∷ l) c = elim (Bool-cases (str_eq p.pvc_name backup_level_failure)) [
    | inl e ↦ rw e (ap (λ m. p ∷ m) (pvcs_kept x l (ground (arith, sym (pvcs_parts x p l) ∙ c, e))))
    | inr e ↦ rw e (
        ap₂ (λ a b. record p { restores = a } ∷ b)
          (infos_kept x p.restores (ground (arith, sym (pvcs_parts x p l) ∙ c, e)))
          (pvcs_kept x l (ground (arith, sym (pvcs_parts x p l) ∙ c, e))))
  ]

  -- The state of the loop after one Velero restore.
  abbrev looked : VeleroRestore → Monitored → Monitored
  looked x m =
      let p = update_pvcs ns x m.pvc_restores in
      record {
        counts = count_phase x.phase m.counts;
        status_updated = m.status_updated || p.1;
        pvc_restores = p.0;
      }

  settled_after :
      (x : VeleroRestore) (rest : List VeleroRestore) (m : Monitored)
      → All (λ y. str_eq y.name "" ≡ false) rest
      → All (λ y. str_eq y.name x.name ≡ false) rest
      → (update_pvcs ns x m.pvc_restores).1 ≡ false
      → (update_pvcs ns x (monitor ns rest m).pvc_restores).1 ≡ false
  unfolding monitor
  settled_after x [] m h d c = c
  settled_after x (y ∷ rest) m h d c =
      settled_after x rest (looked y m) h.1 d.1 (pvcs_other x y m.pvc_restores h.0 d.0 c)

  monitor_settled :
      (l : List VeleroRestore) (m : Monitored)
      → AreNamed l
      → All (λ x. (update_pvcs ns x (monitor ns l m).pvc_restores).1 ≡ false) l
  unfolding monitor AreNamed
  monitor_settled [] m h = tt
  monitor_settled (x ∷ rest) m h = (
    settled_after x rest (looked x m) (AreNamed-names rest h.2) h.1
        (pvcs_again x m.pvc_restores h.0),
    monitor_settled rest (looked x m) h.2,
  )

  monitor_kept :
      (l : List VeleroRestore) (m : Monitored) (q : List PvcRestoreInfo)
      → All (λ x. (update_pvcs ns x q).1 ≡ false) l
      → monitor ns l (record m { status_updated = false; pvc_restores = q })
        ≡ record (monitor ns l m) { status_updated = false; pvc_restores = q }
  unfolding monitor
  monitor_kept [] m q a = refl
  monitor_kept (x ∷ rest) m q a = rw (a.0, pvcs_kept x q a.0) (monitor_kept rest (looked x m) q a.1)

  counts_after :
      (l : List VeleroRestore) (m : Monitored) → total_of (monitor ns l m) ≡ length l + total_of m
  unfolding monitor count_phase
  counts_after [] m = omega arith
  counts_after (x ∷ rest) m =
      counts_after rest (looked x m) ∙ elim (Bool-cases (is_completed_restore x.phase)) [
        | inl e ↦ rw e (omega arith)
        | inr e ↦ elim (Bool-cases (is_failed_restore x.phase)) [
          | inl f ↦ rw (e, f) (omega arith)
          | inr f ↦ rw (e, f) (omega arith)
        ]
      ]

  -- A look counts each Velero restore once, and a second look at the same ones gives the counts and
  -- the entries of the first and reports no change, where the Velero restores have names, no
  -- two of them the same.
  pub monitor_again :
      (l : List VeleroRestore) (pvcs : List PvcRestoreInfo)
      → AreNamed l
      → let m = monitor ns l (nothing_monitored pvcs) in
        (total_of m ≡ length l)
        × (monitor ns l (nothing_monitored m.pvc_restores) ≡ record m { status_updated = false })
  monitor_again l pvcs h =
      let m = monitor ns l (nothing_monitored pvcs) in
      (
        counts_after l (nothing_monitored pvcs) ∙ omega arith,
        monitor_kept l (nothing_monitored pvcs) m.pvc_restores
            (monitor_settled l (nothing_monitored pvcs) h),
      )
