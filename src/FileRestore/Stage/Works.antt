-- ===== src/FileRestore/Stage/Works.antt =====
-- How executeFileRestoreWorkflow moves the stage of a file restore.
use mathlib.Core.Bool.{true≢false}
use oadp_vm_file_restore.Prelude.{
  ◌≡◌, refl, sym, subst, ap, ◌∙◌, inl, inr, ℕ, String, List, Bool, true, false, Bool-cases,
}
use oadp_vm_file_restore.Api.{Condition}
use oadp_vm_file_restore.Discovery.Cluster.{Result, ok, err, ◌>>=◌}
use oadp_vm_file_restore.FileRestore.Types.{FileRestorePhase}
use oadp_vm_file_restore.FileRestore.Client.{Client, Handler, attempt}
use oadp_vm_file_restore.FileRestore.Status.{settle}
use oadp_vm_file_restore.FileRestore.Monitor.{check_velero_restores_already_created}
use oadp_vm_file_restore.FileRestore.Workflow.{
  Steps, namespace_ready, waiting_for_restores, value_or_fail, or_fail, advance,
  on_validation_completed, ensure_velero_restores, on_namespace_ready,
}
use oadp_vm_file_restore.FileRestore.Stage.{View, Stage, stage, stage_named, Next}
use oadp_vm_file_restore.FileRestore.Stage.Rules.{
  IsClient, IsSteps, Keeps, Moves, Moves-bind, Moves-pure, Moves-keeps, Moves-weaken, Keeps-attempt,
}
use oadp_vm_file_restore.FileRestore.Stage.Writes.{IsNamed, Moves-under_way, Moves-fail_validation}
use oadp_vm_file_restore.FileRestore.Stage.Validates.{Answers, from}

module _ {c : Client} (client : IsClient c) (steps : Steps c.World)
    (kept : IsSteps c client steps) where
  open c use {World}
  open client use {stored}

  module _ (first : Stage) where
    Moves-value_or_fail :
        {A : Type 0} (v : View) (reason message : String) (res : Result A)
        → Next (stage c v) Stage.failed
        → Moves client first v (value_or_fail c steps reason message res) (λ _ x. x ≡ v)
    unfolding value_or_fail
    Moves-value_or_fail v reason message (err e) n s =
        Moves-fail_validation client first _ v _ _ n s
    Moves-value_or_fail v reason message (ok a) n s =
        Moves-pure client first (λ _ x. x ≡ v) v a refl s

    -- A step that writes neither phase nor conditions, or the failure.
    pub Moves-or_fail :
        {A : Type 0} (v : View) (reason message : String) (m : Handler World A)
        → Keeps client m
        → Next (stage c v) Stage.failed
        → Moves client first v (or_fail c steps reason message m) (λ _ x. x ≡ v)
    unfolding or_fail
    Moves-or_fail v reason message m k n =
        Moves-bind client first (λ _ x. x ≡ v) (λ _ x. x ≡ v) v (attempt m)
          (value_or_fail c steps reason message)
          (Moves-keeps client first v (attempt m) (Keeps-attempt client m k))
          (λ res x q.
            subst
              (λ y. Moves client first y (value_or_fail c steps reason message res) (λ _ z. z ≡ v))
              (sym q) (Moves-value_or_fail v reason message res n))

    pub requeues : (b : Bool) (x : View) → b ≡ true → Answers client b x
    requeues b x e h = absurd (true≢false (sym e ∙ h))

    pub Moves-advance :
        (v : View) (reason : String) (conditions : ℕ → List Condition) (u : Stage)
        → ((t : ℕ) → IsNamed reason (conditions t))
        → stage_named Stage.validating reason ≡ u
        → Next (stage c v) u
        → Moves client first v (advance c steps conditions) (Answers client)
    unfolding advance
    Moves-advance v reason conditions u named h n =
        Moves-weaken client first (λ b x. (b ≡ true) × (stage c x ≡ u)) (Answers client) v
          (settle c FileRestorePhase.in_progress conditions false true)
          (Moves-under_way client first v reason conditions true u named h n)
          (λ b x q. requeues b x q.0)

    -- A step, and the patch that follows it.
    pub Moves-step :
        {A : Type 0} (v : View) (t : Stage) (m : Handler World A) (f : A → Handler World Bool)
        → Moves client first v m (λ _ x. x ≡ v)
        → stage c v ≡ t
        → ((a : A) (x : View) → stage c x ≡ t → Moves client first x (f a) (Answers client))
        → Moves client first v (m >>= f) (Answers client)
    Moves-step v t m f h e k =
        Moves-bind client first (λ _ x. x ≡ v) (Answers client) v m f h
          (λ a x q. k a x (ap (stage c) q ∙ e))

    pub Moves-on_validation_completed :
        (v : View)
        → stage c v ≡ Stage.validated
        → Moves client first v (on_validation_completed c steps) (Answers client)
    unfolding on_validation_completed IsNamed stage_named
    Moves-on_validation_completed v e =
        Moves-step v Stage.validated _ (λ ns. advance c steps (namespace_ready ns))
          (Moves-or_fail v _ _ steps.ensure_restore_namespace kept.namespace_keeps
            (from client v e Next.lack_namespace))
          e
          (λ ns x q.
            Moves-advance x "NamespaceReady" (namespace_ready ns) Stage.namespace_ready
              (λ t. (refl, refl, (refl, (refl, (refl, tt))))) refl
              (from client x q Next.make_namespace))

    Moves-ensure_velero_restores :
        (v : View)
        → stage c v ≡ Stage.namespace_ready
        → Moves client first v (ensure_velero_restores c steps) (λ _ x. x ≡ v)
    unfolding ensure_velero_restores
    Moves-ensure_velero_restores v e s =
        elim (Bool-cases (check_velero_restores_already_created s.1.status.pvc_restores)) [
          | inl created ↦ rw created (Moves-pure client first (λ _ x. x ≡ v) v tt refl s)
          | inr missing ↦ rw missing (
              Moves-or_fail v _ _ steps.create_velero_restores kept.create_keeps
                (from client v e Next.lack_restores) s)
        ]

    pub Moves-on_namespace_ready :
        (v : View)
        → stage c v ≡ Stage.namespace_ready
        → Moves client first v (on_namespace_ready c steps) (Answers client)
    unfolding on_namespace_ready IsNamed stage_named
    Moves-on_namespace_ready v e =
        Moves-step v Stage.namespace_ready (ensure_velero_restores c steps)
          (λ _. advance c steps waiting_for_restores) (Moves-ensure_velero_restores v e) e
          (λ _ x q.
            Moves-advance x "WaitingForRestores" waiting_for_restores Stage.waiting_for_restores
              (λ t. (refl, refl, (refl, (refl, (refl, tt))))) refl
              (from client x q Next.create_restores))
