-- ===== src/FileRestore/Stage/Writes.antt =====
-- How the writes of a file restore's status move its stage.
use oadp_vm_file_restore.Prelude.{
  ◌≡◌, refl, sym, subst, ap, ◌∙◌, inl, inr, ℕ, String, ◌<>◌, str_eq, List, [], ◌∷◌, Bool, false,
  All,
}
use oadp_vm_file_restore.Api.{Condition}
use oadp_vm_file_restore.Discovery.Cluster.{other, Result, ok, err}
use oadp_vm_file_restore.FileRestore.Types.{FileRestore, FileRestorePhase}
use oadp_vm_file_restore.FileRestore.Client.{Client, pure, throw, answered}
use oadp_vm_file_restore.FileRestore.Status.{
  set_conditions, with_phase, patch_since, patch_phase_conditions, settle, failed_conditions,
  partially_failed_conditions, fail_validation, fail_partial_validation,
}
use oadp_vm_file_restore.FileRestore.Stage.{
  View, view, Stage, stage, stage_named, reason_of, Reach, next, Next,
}
use oadp_vm_file_restore.FileRestore.Stage.Rules.{
  Wrote, written, unsure, IsClient, Ends, Ends-weaken, Moves, Moves-bind, Moves-pure, Moves-throw,
}

-- Of these conditions only the first is Progressing, and it has this reason.
unfoldable pub IsNamed : String → List Condition → Type 0
IsNamed reason [] = ⊥
IsNamed reason (cond ∷ rest) =
    (cond.type ≡ "Progressing")
    × (cond.reason ≡ reason)
    × All (λ other. str_eq other.type "Progressing" ≡ false) rest

module _ {c : Client} (client : IsClient c) where
  open c use {World, find_status_condition}
  open client use {stored}

  set_conditions-other :
      (rest known : List Condition) (type : String)
      → All (λ cond. str_eq cond.type type ≡ false) rest
      → find_status_condition (set_conditions c rest known) type ≡ find_status_condition known type
  unfolding set_conditions
  set_conditions-other [] known type h = refl
  set_conditions-other (cond ∷ rest) known type h =
      set_conditions-other rest _ type h.1 ∙ client.set_other known cond type h.0

  reason-IsNamed :
      (reason : String) (conditions known : List Condition)
      → IsNamed reason conditions
      → reason_of (find_status_condition (set_conditions c conditions known) "Progressing") ≡ reason
  unfolding IsNamed set_conditions
  reason-IsNamed reason [] known h = absurd h
  reason-IsNamed reason (cond ∷ rest) known h =
      ap reason_of (
        set_conditions-other rest _ "Progressing" h.2
        ∙ ap (find_status_condition (c.set_status_condition known cond)) (sym h.0))
      ∙ client.set_same known cond
      ∙ h.1

  -- The reason names the stage.
  pub stage-IsNamed :
      (reason : String) (conditions known : List Condition)
      → IsNamed reason conditions
      → stage c (FileRestorePhase.in_progress, set_conditions c conditions known)
        ≡ stage_named Stage.validating reason
  unfolding stage
  stage-IsNamed reason conditions known h =
      ap (stage_named Stage.validating) (reason-IsNamed reason conditions known h)

  pub stage_new-IsNamed :
      (reason : String) (conditions known : List Condition)
      → IsNamed reason conditions
      → stage c (FileRestorePhase.new, set_conditions c conditions known)
        ≡ stage_named Stage.new reason
  unfolding stage
  stage_new-IsNamed reason conditions known h =
      ap (stage_named Stage.new) (reason-IsNamed reason conditions known h)

  module _ (first : Stage) where
    pub Ends-answered :
        (modified : FileRestore) (before after : View) (p : World × Result FileRestore)
        → Wrote c stored before after p
        → Reach first (stage c before)
        → Next (stage c before) (stage c after)
        → Ends client first (λ _ u. u ≡ after) (answered modified p)
    unfolding Ends
    Ends-answered modified before after (w, ok o) (written shown kept) r n =
        (shown ∙ sym kept, subst (λ v. Reach first (stage c v)) (sym kept) (next r n), kept)
    Ends-answered modified before after (w, err e) (unsure (inl same)) r n =
        subst (λ v. Reach first (stage c v)) (sym same) r
    Ends-answered modified before after (w, err e) (unsure (inr kept)) r n =
        subst (λ v. Reach first (stage c v)) (sym kept) (next r n)

    -- A patch against an object that shows what is stored.
    pub Moves-patch_since :
        (base : FileRestore) (v : View) (phase : FileRestorePhase) (conditions : List Condition)
        (observe : Bool) (u : Stage)
        → view base.status ≡ v
        → ((known : List Condition) → stage c (phase, set_conditions c conditions known) ≡ u)
        → Next (stage c v) u
        → Moves client first v (patch_since c base phase conditions observe) (λ _ x. stage c x ≡ u)
    unfolding patch_since with_phase
    Moves-patch_since base v phase conditions observe u b h n s i e r =
        let modified = with_phase c phase conditions observe s.1 in
        let known = s.1.status.conditions in
        let after : View = (phase, set_conditions c conditions known) in
        Ends-weaken client first (λ _ x. x ≡ after) (λ _ x. stage c x ≡ u) _
          (Ends-answered modified (stored s.0) after _
            (client.patch_status_wrote base modified s.0 (b ∙ sym e))
            (subst (λ x. Reach first (stage c x)) (sym e) r)
            (subst (λ x. Next (stage c x) (stage c after)) (sym e)
              (subst (Next (stage c v)) (sym (h known)) n)))
          (λ _ x q. ap (stage c) q ∙ h known)

    pub Moves-patch :
        (v : View) (phase : FileRestorePhase) (conditions : List Condition) (observe : Bool)
        (u : Stage)
        → ((known : List Condition) → stage c (phase, set_conditions c conditions known) ≡ u)
        → Next (stage c v) u
        → Moves client first v
            (patch_phase_conditions c phase conditions observe)
            (λ _ x. stage c x ≡ u)
    unfolding patch_phase_conditions
    Moves-patch v phase conditions observe u h n s i e r =
        Moves-patch_since s.1 v phase conditions observe u (i ∙ e) h n s i e r

    pub Moves-settle :
        {A : Type 0} (v : View) (phase : FileRestorePhase) (conditions : ℕ → List Condition)
        (observe : Bool) (a : A) (u : Stage)
        → ((t : ℕ) (known : List Condition)
            → stage c (phase, set_conditions c (conditions t) known) ≡ u)
        → Next (stage c v) u
        → Moves client first v
            (settle c phase conditions observe a)
            (λ b x. (b ≡ a) × (stage c x ≡ u))
    unfolding settle
    Moves-settle v phase conditions observe a u h n s i e r =
        Moves-bind client first (λ _ x. stage c x ≡ u) (λ b x. (b ≡ a) × (stage c x ≡ u)) v
          (patch_phase_conditions c phase (conditions (c.now s.0)) observe) (λ _. pure a)
          (Moves-patch v phase (conditions (c.now s.0)) observe u (h (c.now s.0)) n)
          (λ _ x q. Moves-pure client first (λ b x. (b ≡ a) × (stage c x ≡ u)) x a (refl, q)) s i e
          r

    -- A patch that stays in InProgress, with a reason that names the stage.
    pub Moves-under_way :
        {A : Type 0} (v : View) (reason : String) (conditions : ℕ → List Condition) (a : A)
        (u : Stage)
        → ((t : ℕ) → IsNamed reason (conditions t))
        → stage_named Stage.validating reason ≡ u
        → Next (stage c v) u
        → Moves client first v
            (settle c FileRestorePhase.in_progress conditions false a)
            (λ b x. (b ≡ a) × (stage c x ≡ u))
    Moves-under_way v reason conditions a u named h n =
        Moves-settle v FileRestorePhase.in_progress conditions false a u
          (λ t k. stage-IsNamed reason (conditions t) k (named t) ∙ h) n

    -- A failed validation ends in `failed`, and with an error.
    pub Moves-fail_validation :
        {A : Type 0} (Q : A → View → Type 0) (v : View) (reason message : String)
        → Next (stage c v) Stage.failed
        → Moves client first v (fail_validation c reason message) Q
    unfolding fail_validation stage
    Moves-fail_validation Q v reason message n =
        Moves-bind client first (λ b x. (b ≡ tt) × (stage c x ≡ Stage.failed)) Q v
          (settle c FileRestorePhase.failed (failed_conditions reason message) false tt)
          (λ _. throw (other ("validation failed: " <> message)))
          (Moves-settle v FileRestorePhase.failed (failed_conditions reason message) false tt
            Stage.failed (λ _ _. refl) n)
          (λ _ x _. Moves-throw client first Q x (other ("validation failed: " <> message)))

    pub Moves-fail_partial_validation :
        {A : Type 0} (Q : A → View → Type 0) (v : View) (reason message : String)
        → Next (stage c v) Stage.partially_failed
        → Moves client first v (fail_partial_validation c reason message) Q
    unfolding fail_partial_validation stage
    Moves-fail_partial_validation Q v reason message n =
        Moves-bind client first (λ b x. (b ≡ tt) × (stage c x ≡ Stage.partially_failed)) Q v
          (settle c FileRestorePhase.partially_failed (partially_failed_conditions reason message)
            false tt)
          (λ _. throw (other ("partial validation failed: " <> message)))
          (Moves-settle v FileRestorePhase.partially_failed
            (partially_failed_conditions reason message) false tt Stage.partially_failed
            (λ _ _. refl) n)
          (λ _ x _. Moves-throw client first Q x (other ("partial validation failed: " <> message)))
