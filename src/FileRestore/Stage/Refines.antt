-- ===== src/FileRestore/Stage/Refines.antt =====
-- Reconcile carries out the moves between the stages, and nothing else.
use mathlib.Core.Bool.{true≢false}
use oadp_vm_file_restore.Prelude.{
  ◌≡◌, refl, sym, subst, ap, ◌∙◌, inl, inr, List, [], ◌∷◌, Bool, true, false, Option, none, String,
  str_eq, str_eq→eq, eq→str_eq, Bool-cases, arith, ℕ, some, ◌⊎◌, if◌then◌else◌,
}
use oadp_vm_file_restore.Api.{Condition}
use oadp_vm_file_restore.Discovery.Cluster.{ok, continue}
use oadp_vm_file_restore.FileRestore.Types.{FileRestore, FileRestorePhase}
use oadp_vm_file_restore.FileRestore.Client.{Client, pure}
use oadp_vm_file_restore.FileRestore.Status.{settle}
use oadp_vm_file_restore.FileRestore.Validation.{discovering_conditions}
use oadp_vm_file_restore.FileRestore.Workflow.{
  Steps, workflow_case, execute_case, execute_file_restore_workflow,
}
use oadp_vm_file_restore.FileRestore.Reconcile.{
  is_active, is_unset, reconcile_steps, run_steps, after_get, reconcile,
}
use oadp_vm_file_restore.FileRestore.Stage.{view, Stage, stage, stage_named, reason_of, Next, here}
use oadp_vm_file_restore.FileRestore.Stage.Rules.{IsClient, Ends}
use oadp_vm_file_restore.FileRestore.Stage.Writes.{IsNamed, Moves-under_way}

-- `DiscoveringPVCs`, for any client.
module _ (c : Client) (steps : Steps c.World) where
  open c use {World, find_status_condition}

  active-not_unset : (phase : FileRestorePhase) → is_active phase ≡ true → is_unset phase ≡ false
  active-not_unset FileRestorePhase.unset h = absurd (true≢false (sym h))
  active-not_unset FileRestorePhase.new h = refl
  active-not_unset FileRestorePhase.in_progress h = refl
  active-not_unset FileRestorePhase.completed h = refl
  active-not_unset FileRestorePhase.partially_failed h = refl
  active-not_unset FileRestorePhase.failed h = refl
  active-not_unset FileRestorePhase.deleting h = refl

  stuck_steps :
      (o : FileRestore) (p : Condition)
      → o.deletion_timestamp ≡ none
      → is_active o.status.phase ≡ true
      → find_status_condition o.status.conditions "Progressing" ≡ some p
      → p.reason ≡ "DiscoveringPVCs"
      → reconcile_steps c steps o ≡ execute_file_restore_workflow c steps ∷ []
  unfolding reconcile_steps
  stuck_steps o p alive active found reason =
      rw (alive, active-not_unset o.status.phase active, active, found, reason) refl

  stuck_case :
      (found : Option Condition) (p : Condition) (s : World × FileRestore)
      → found ≡ some p
      → p.reason ≡ "DiscoveringPVCs"
      → execute_case c steps found s ≡ (s, ok false)
  unfolding execute_case workflow_case
  stuck_case found p s e reason = rw (e, reason) refl

  reconcile-discovering :
      (w w' : World) (o : FileRestore) (p : Condition)
      → c.get w ≡ (w', ok o)
      → o.deletion_timestamp ≡ none
      → is_active o.status.phase ≡ true
      → find_status_condition o.status.conditions "Progressing" ≡ some p
      → p.reason ≡ "DiscoveringPVCs"
      → reconcile c steps w ≡ (w', ok false)
  unfolding reconcile after_get run_steps execute_file_restore_workflow
  reconcile-discovering w w' o p e alive active found reason =
      ap (after_get c steps) e
      ∙ ap (λ l. let r = run_steps c steps l (w', o) in (r.0.0, r.1))
          (stuck_steps o p alive active found reason)
      ∙ ap
          (λ x.
            let r = continue (λ requeue. if requeue then pure true else pure false) x in
            (r.0.0, r.1))
          (stuck_case (find_status_condition o.status.conditions "Progressing") p (w', o) found
            reason)

-- A discovery of PVCs that is cut short.
module _ {c : Client} (client : IsClient c) (steps : Steps c.World) where
  open c use {World, find_status_condition}
  open client use {stored}

  named-discovering :
      (other_stage : Stage) (reason : String)
      → (other_stage ≡ Stage.new) ⊎ (other_stage ≡ Stage.validating)
      → stage_named other_stage reason ≡ Stage.discovering
      → reason ≡ "DiscoveringPVCs"
  unfolding stage_named
  named-discovering other_stage reason k h = elim (Bool-cases (str_eq reason "DiscoveringPVCs")) [
    | inl e ↦ str_eq→eq reason "DiscoveringPVCs" e
    | inr e ↦ absurd (true≢false (ground (arith, h, e, k)))
  ]

  stage-discovering :
      (phase : FileRestorePhase) (conditions : List Condition)
      → stage c (phase, conditions) ≡ Stage.discovering
      → (is_active phase ≡ true)
        × (reason_of (find_status_condition conditions "Progressing") ≡ "DiscoveringPVCs")
  unfolding stage
  stage-discovering FileRestorePhase.unset conditions h = absurd (cc)
  stage-discovering FileRestorePhase.new conditions h =
      (refl, named-discovering Stage.new _ (inl refl) h)
  stage-discovering FileRestorePhase.in_progress conditions h =
      (refl, named-discovering Stage.validating _ (inr refl) h)
  stage-discovering FileRestorePhase.completed conditions h = absurd (cc)
  stage-discovering FileRestorePhase.partially_failed conditions h = absurd (cc)
  stage-discovering FileRestorePhase.failed conditions h = absurd (cc)
  stage-discovering FileRestorePhase.deleting conditions h = absurd (cc)

  found_reason :
      (found : Option Condition)
      → reason_of found ≡ "DiscoveringPVCs"
      → (p : Condition) × (found ≡ some p) × (p.reason ≡ "DiscoveringPVCs")
  found_reason none h = absurd (true≢false (sym (eq→str_eq "" "DiscoveringPVCs" h)))
  found_reason (some p) h = (p, refl, h)

  discovering_begun :
      (backups : ℕ) (s : World × FileRestore) (w : World) (o : FileRestore)
      → view s.1.status ≡ stored s.0
      → stage c (stored s.0) ≡ Stage.validating
      → settle c FileRestorePhase.in_progress (discovering_conditions backups) false tt s
        ≡ ((w, o), ok tt)
      → stage c (stored w) ≡ Stage.discovering
  unfolding Ends IsNamed stage_named
  discovering_begun backups s w o current e done =
      (subst
        (Ends client (stage c (stored s.0)) (λ b x. (b ≡ tt) × (stage c x ≡ Stage.discovering)))
        done
        (Moves-under_way client (stage c (stored s.0)) (stored s.0) "DiscoveringPVCs"
          (discovering_conditions backups) tt Stage.discovering (λ t. (refl, refl, tt)) refl
          (subst (λ x. Next x Stage.discovering) (sym e) Next.discover) s current refl here)).2.1

  -- A discovery of PVCs that is cut short is never taken up again: once its first patch has
  -- succeeded, from an object that showed what was stored while the file restore was validating,
  -- any reconciliation that reads what this patch stored, of an object that is not being deleted,
  -- calls nothing but that read and does not ask to requeue.
  pub reconcile-interrupted :
      (backups : ℕ) (s : World × FileRestore) (w1 : World) (o1 : FileRestore)
      → view s.1.status ≡ stored s.0
      → stage c (stored s.0) ≡ Stage.validating
      → settle c FileRestorePhase.in_progress (discovering_conditions backups) false tt s
        ≡ ((w1, o1), ok tt)
      → (w w' : World) (o : FileRestore) → c.get w ≡ (w', ok o)
      → view o.status ≡ stored w1
      → o.deletion_timestamp ≡ none
      → reconcile c steps w ≡ (w', ok false)
  reconcile-interrupted backups s w1 o1 current e done w w' o read same alive =
      let d =
        stage-discovering o.status.phase o.status.conditions
          (ap (stage c) same ∙ discovering_begun backups s w1 o1 current e done) in
      let f = found_reason (find_status_condition o.status.conditions "Progressing") d.1 in
      reconcile-discovering c steps w w' o f.0 read alive d.0 f.1 f.2
