-- ===== src/FileRestore/Stage/Validates.antt =====
-- How validateAndDiscoverPVCs moves the stage of a file restore.
use mathlib.Core.Bool.{true≢false}
use oadp_vm_file_restore.Prelude.{
  ◌≡◌, refl, sym, subst, ap, ◌∙◌, inl, inr, ℕ, String, List, length, Bool, true, false, not, ◌&&◌,
  Option, none, some, is_empty, arith, Bool-cases,
}
use oadp_vm_file_restore.Api.{
  BackupsDiscovery, BackupDiscoveryProgress, VeleroBackupInfo, Condition,
}
use oadp_vm_file_restore.Discovery.Cluster.{not_found, conflict, other, Result, ok, err, ◌>>=◌}
use oadp_vm_file_restore.FileRestore.Types.{FileRestore, FileRestorePhase, is_workflow_reason}
use oadp_vm_file_restore.FileRestore.Client.{Client, Handler, answered, attempt, asks, call}
use oadp_vm_file_restore.FileRestore.Status.{settle}
use oadp_vm_file_restore.FileRestore.Groups.{pvc_restores_of}
use oadp_vm_file_restore.FileRestore.Availability.{
  PvcCounts, no_pvcs, count_pvcs, judge, Verdict, no_available_backups, partial_availability,
  proceed,
}
use oadp_vm_file_restore.FileRestore.Validation.{
  validating_conditions, waiting_conditions, discovering_conditions, validated_conditions,
  is_running, check_discovery, after_selection, validate_referenced_discovery,
  validate_discovery_backups, run_concurrent_pvc_discovery, process_discovery_results,
  conclude_validation, after_processing, act_on, discover_pvcs, begin_validation, after_reference,
  validate_and_discover_pvcs, is_new_phase, wrapped,
}
use oadp_vm_file_restore.FileRestore.Reconcile.{is_active, is_workflow}
use oadp_vm_file_restore.FileRestore.Stage.{
  View, Stage, stage, stage_named, reason_of, Next, is_quiet,
}
use oadp_vm_file_restore.FileRestore.Stage.Rules.{
  Wrote, IsClient, IsCurrent, Keeps, Moves, Moves-bind, Moves-pure, Moves-keeps, Moves-weaken,
  answered-Keeps, Keeps-attempt, Keeps-asks, Keeps-call,
}
use oadp_vm_file_restore.FileRestore.Stage.Writes.{
  IsNamed, stage-IsNamed, Moves-under_way, Moves-patch, Moves-fail_validation,
  Moves-fail_partial_validation,
}

stage_named-other :
    (d : Stage) (reason : String) → is_workflow_reason reason ≡ false → stage_named d reason ≡ d
unfolding stage_named
stage_named-other d reason h = ground (arith, h)

module _ {c : Client} (client : IsClient c) where
  open c use {World, find_status_condition}
  open client use {stored}

  -- Without a requeue, the stage is quiet.
  abbrev pub Answers : Bool → View → Type 0
  Answers requeue x = requeue ≡ false → is_quiet (stage c x) ≡ true

  pub from : (v : View) {t u : Stage} → stage c v ≡ t → Next t u → Next (stage c v) u
  from v {u = u} e n = subst (λ x. Next x u) (sym e) n

  stage-not_workflow :
      (d : Stage) (found : Option Condition)
      → is_workflow found ≡ false
      → stage_named d (reason_of found) ≡ d
  unfolding stage_named
  stage-not_workflow d none h = refl
  stage-not_workflow d (some p) h = stage_named-other d p.reason h

  module _ (first : Stage) where
    Moves-begin :
        (v : View)
        → is_active v.0 ≡ true
        → is_workflow (find_status_condition v.1 "Progressing") ≡ false
        → Moves client first v (begin_validation c) (λ _ x. stage c x ≡ Stage.validating)
    unfolding begin_validation stage stage_named IsNamed
    Moves-begin (FileRestorePhase.new, known) a h s i e r =
        rw (ap (λ (x : View). is_new_phase x.0) (i ∙ e)) (
          Moves-patch client first (FileRestorePhase.new, known) FileRestorePhase.in_progress
            validating_conditions true Stage.validating
            (λ k.
              stage-IsNamed client "Validating" validating_conditions k
                (refl, refl, (refl, (refl, (refl, tt)))))
            (from (FileRestorePhase.new, known)
              (stage-not_workflow Stage.new (find_status_condition known "Progressing") h)
              Next.begin)
            s i e r)
    Moves-begin (FileRestorePhase.in_progress, known) a h s i e r =
        rw (ap (λ (x : View). is_new_phase x.0) (i ∙ e)) (
          Moves-pure client first (λ _ x. stage c x ≡ Stage.validating)
            (FileRestorePhase.in_progress, known) tt
            (stage-not_workflow Stage.validating (find_status_condition known "Progressing") h) s i
            e r)
    Moves-begin (FileRestorePhase.unset, known) a h s i e r = absurd (true≢false (sym a))
    Moves-begin (FileRestorePhase.completed, known) a h s i e r = absurd (true≢false (sym a))
    Moves-begin (FileRestorePhase.partially_failed, known) a h s i e r = absurd (true≢false (sym a))
    Moves-begin (FileRestorePhase.failed, known) a h s i e r = absurd (true≢false (sym a))
    Moves-begin (FileRestorePhase.deleting, known) a h s i e r = absurd (true≢false (sym a))

    Moves-check_discovery :
        (v : View) (ref ns : String) (res : Result BackupsDiscovery)
        → stage c v ≡ Stage.validating
        → Moves client first v (check_discovery c ref ns res) (λ _ x. stage c x ≡ Stage.validating)
    unfolding check_discovery stage_named IsNamed
    Moves-check_discovery v ref ns (err not_found) e =
        Moves-fail_validation client first _ v _ _ (from v e Next.reject)
    Moves-check_discovery v ref ns (err conflict) e =
        Moves-fail_validation client first _ v _ _ (from v e Next.reject)
    Moves-check_discovery v ref ns (err (other x)) e =
        Moves-fail_validation client first _ v _ _ (from v e Next.reject)
    Moves-check_discovery v ref ns (ok vmbd) e = elim (Bool-cases (is_running vmbd.status.phase)) [
      | inl running ↦ rw running (
          Moves-weaken client first _ _ v _
            (Moves-under_way client first v "WaitingForDiscovery" waiting_conditions none
              Stage.validating (λ t. (refl, refl, (refl, (refl, (refl, tt))))) refl
              (from v e Next.await_discovery))
            (λ _ _ q. q.1))
      | inr done ↦ rw done (Moves-pure client first _ v (some vmbd) e)
    ]

    Moves-validate_referenced_discovery :
        (v : View)
        → stage c v ≡ Stage.validating
        → Moves client first v
            (validate_referenced_discovery c)
            (λ _ x. stage c x ≡ Stage.validating)
    unfolding validate_referenced_discovery
    Moves-validate_referenced_discovery v e s =
        let ref = s.1.spec.backups_discovery_ref in
        let ns = s.1.namespace in
        Moves-bind client first (λ _ x. x ≡ v) (λ _ x. stage c x ≡ Stage.validating) v
          (attempt (call (c.get_discovery ref ns))) (check_discovery c ref ns)
          (Moves-keeps client first v _ (
            Keeps-attempt client (call (c.get_discovery ref ns))
              (Keeps-call client (c.get_discovery ref ns) (client.get_discovery_keeps ref ns))))
          (λ res x q. Moves-check_discovery x ref ns res (ap (stage c) q ∙ e)) s

    Moves-selected :
        (v : View) (ref : String) (selected : List String) (res : Result (List VeleroBackupInfo))
        → stage c v ≡ Stage.validating
        → Moves client first v
            (after_selection c ref selected res)
            (λ _ x. stage c x ≡ Stage.validating)
    unfolding after_selection
    Moves-selected v ref selected (err x) e =
        Moves-fail_validation client first _ v _ _ (from v e Next.reject)
    Moves-selected v ref selected (ok to_serve) e =
        elim (Bool-cases (not (is_empty selected) && is_empty to_serve)) [
          | inl none_found ↦
              rw none_found (Moves-fail_validation client first _ v _ _ (from v e Next.reject))
          | inr found ↦ rw found (elim (Bool-cases (is_empty to_serve)) [
            | inl empty ↦
                rw empty (Moves-fail_validation client first _ v _ _ (from v e Next.reject))
            | inr some_left ↦ rw some_left (Moves-pure client first _ v to_serve e)
          ])
        ]

    Moves-validate_discovery_backups :
        (v : View) (vmbd : BackupsDiscovery)
        → stage c v ≡ Stage.validating
        → Moves client first v
            (validate_discovery_backups c vmbd)
            (λ _ x. stage c x ≡ Stage.validating)
    unfolding validate_discovery_backups
    Moves-validate_discovery_backups v vmbd e s =
        elim (Bool-cases (is_empty vmbd.status.valid_backups)) [
          | inl empty ↦
              rw empty (Moves-fail_validation client first _ v _ _ (from v e Next.reject) s)
          | inr valid ↦ rw valid (Moves-selected v _ s.1.spec.selected_backups _ e s)
        ]

    wrapped-Keeps :
        {A : Type 0} (message : String) (before : View) (p : (World × FileRestore) × Result A)
        → IsCurrent client p.0 × (stored p.0.0 ≡ before)
        → IsCurrent client (wrapped message p).0 × (stored (wrapped message p).0.0 ≡ before)
    wrapped-Keeps message before (s, ok a) h = h
    wrapped-Keeps message before (s, err e) h = h

    process_discovery_results-Keeps :
        (results : List BackupDiscoveryProgress)
        → Keeps client (process_discovery_results c results)
    unfolding process_discovery_results
    process_discovery_results-Keeps results s i =
        let modified = record s.1 {
          status = record s.1.status { pvc_restores = pvc_restores_of results };
        } in
        elim (Bool-cases (c.deep_equal s.1.status modified.status)) [
          | inl same ↦ rw same (i, refl)
          | inr changed ↦ rw changed (
              wrapped-Keeps _ (stored s.0) (answered modified (c.patch_status s.1 modified s.0)) (
                answered-Keeps client modified (stored s.0) _ i (
                  subst
                    (λ after. Wrote c stored (stored s.0) after (c.patch_status s.1 modified s.0)) i
                    (client.patch_status_wrote s.1 modified s.0 i))))
        ]

    -- The rules move on a valid restore, and fail any other.
    Moves-act_on :
        (v : View) (counts : PvcCounts) (backups : ℕ) (x : Verdict)
        → stage c v ≡ Stage.discovering
        → Moves client first v (act_on c counts backups x) Answers
    unfolding act_on IsNamed stage_named
    Moves-act_on v counts backups no_available_backups e =
        Moves-fail_validation client first _ v _ _ (from v e Next.find_nothing)
    Moves-act_on v counts backups partial_availability e =
        Moves-fail_partial_validation client first _ v _ _ (from v e Next.find_partial)
    Moves-act_on v counts backups proceed e =
        Moves-weaken client first (λ b x. (b ≡ true) × (stage c x ≡ Stage.validated)) _ v _
          (Moves-under_way client first v "ValidationCompleted" (validated_conditions backups) true
            Stage.validated (λ t. (refl, refl, (refl, (refl, (refl, tt))))) refl
            (from v e Next.validate))
          (λ b x q h. absurd (true≢false (sym q.0 ∙ h)))

    Moves-after_processing :
        (v : View) (backups : ℕ) (res : Result (Unit {0}))
        → stage c v ≡ Stage.discovering
        → Moves client first v (after_processing c backups res) Answers
    unfolding after_processing conclude_validation
    Moves-after_processing v backups (err x) e s =
        Moves-fail_validation client first _ v _ _ (from v e Next.find_nothing) s
    Moves-after_processing v backups (ok done) e s =
        let counts = count_pvcs s.1.status.pvc_restores no_pvcs in
        Moves-act_on v counts backups (judge counts) e s

    Moves-discover_pvcs :
        (v : View) (vmbd : BackupsDiscovery) (to_serve : List VeleroBackupInfo)
        → stage c v ≡ Stage.validating
        → Moves client first v (discover_pvcs c vmbd to_serve) Answers
    unfolding discover_pvcs IsNamed stage_named
    Moves-discover_pvcs v vmbd to_serve e =
        Moves-bind client first IsDiscovering Answers v processed
          (after_processing c (length to_serve))
          (Moves-bind client first IsDiscovering IsDiscovering v discovered
            (λ results. attempt (process_discovery_results c results))
            (Moves-bind client first (λ _ x. stage c x ≡ Stage.discovering) IsDiscovering v begun
              (λ _. asks (λ _ w. run_concurrent_pvc_discovery c vmbd to_serve w))
              (Moves-weaken client first (λ b x. (b ≡ tt) × (stage c x ≡ Stage.discovering)) _ v
                begun
                (Moves-under_way client first v "DiscoveringPVCs"
                  (discovering_conditions (length to_serve)) tt Stage.discovering
                  (λ t. (refl, refl, tt)) refl (from v e Next.discover))
                (λ _ _ q. q.1))
              (λ _ x q.
                stays x _
                  (Keeps-asks client (λ _ w. run_concurrent_pvc_discovery c vmbd to_serve w)) q))
            (λ results x q.
              stays x _
                (Keeps-attempt client (process_discovery_results c results)
                  (process_discovery_results-Keeps results))
                q))
          (λ res x q. Moves-after_processing x (length to_serve) res q)
      where
        IsDiscovering : {A : Type 0} → A → View → Type 0
        IsDiscovering _ x = stage c x ≡ Stage.discovering

        begun : Handler World (Unit {0})
        begun =
            settle c FileRestorePhase.in_progress (discovering_conditions (length to_serve)) false
              tt

        discovered : Handler World (List BackupDiscoveryProgress)
        discovered = begun >>= (λ _. asks (λ _ w. run_concurrent_pvc_discovery c vmbd to_serve w))

        processed : Handler World (Result (Unit {0}))
        processed = discovered >>= (λ results. attempt (process_discovery_results c results))

        stays :
            {A : Type 0} (x : View) (m : Handler World A)
            → Keeps client m
            → stage c x ≡ Stage.discovering
            → Moves client first x m IsDiscovering
        stays x m k q =
            Moves-weaken client first (λ _ y. y ≡ x) _ x m (Moves-keeps client first x m k)
              (λ _ y p. ap (stage c) p ∙ q)

    Moves-after_reference :
        (v : View) (found : Option BackupsDiscovery)
        → stage c v ≡ Stage.validating
        → Moves client first v (after_reference c found) Answers
    unfolding after_reference
    Moves-after_reference v none e =
        Moves-pure client first Answers v true (λ h. absurd (true≢false h))
    Moves-after_reference v (some vmbd) e =
        Moves-bind client first (λ _ x. stage c x ≡ Stage.validating) Answers v
          (validate_discovery_backups c vmbd) (discover_pvcs c vmbd)
          (Moves-validate_discovery_backups v vmbd e)
          (λ to_serve x q. Moves-discover_pvcs x vmbd to_serve q)

    -- From an active phase that is in no workflow.
    pub Moves-validate_and_discover_pvcs :
        (v : View)
        → is_active v.0 ≡ true
        → is_workflow (find_status_condition v.1 "Progressing") ≡ false
        → Moves client first v (validate_and_discover_pvcs c) Answers
    unfolding validate_and_discover_pvcs
    Moves-validate_and_discover_pvcs v a h =
        Moves-bind client first (λ _ x. stage c x ≡ Stage.validating) Answers v
          (begin_validation c >>= (λ _. validate_referenced_discovery c)) (after_reference c)
          (Moves-bind client first (λ _ x. stage c x ≡ Stage.validating)
            (λ _ x. stage c x ≡ Stage.validating) v (begin_validation c)
            (λ _. validate_referenced_discovery c) (Moves-begin v a h)
            (λ _ x q. Moves-validate_referenced_discovery x q))
          (λ found x q. Moves-after_reference x found q)
