-- ===== src/FileRestore/Stage/Serves.antt =====
-- How the last steps of the workflow, up to the file server, move the stage of a file restore.
use mathlib.Core.Bool.{true≢false}
use oadp_vm_file_restore.Prelude.{
  ◌≡◌, refl, sym, ap, ◌∙◌, inl, inr, ℕ, String, str_eq, List, [], ◌∷◌, Bool, true, false, not, ◌&&◌,
  Bool-cases,
}
use oadp_vm_file_restore.Api.{Condition}
use oadp_vm_file_restore.FileRestore.Types.{FileRestore, FileRestorePhase}
use oadp_vm_file_restore.FileRestore.Client.{Client, pure, call}
use oadp_vm_file_restore.FileRestore.Status.{set_conditions, patch_since}
use oadp_vm_file_restore.FileRestore.Workflow.{
  Steps, credentials_ready, waiting_for_route, served, or_fail, advance, on_restores_completed,
  settle_since, publish, on_credentials_ready, publish_route, update_route, on_waiting_for_route,
  external_route_requested, route_ready,
}
use oadp_vm_file_restore.FileRestore.Stage.{View, view, Stage, stage, stage_named, Next, is_quiet}
use oadp_vm_file_restore.FileRestore.Stage.Rules.{
  IsClient, IsSteps, Moves, Moves-bind, Moves-pure, Moves-throw, Moves-keeps, Keeps-call,
}
use oadp_vm_file_restore.FileRestore.Stage.Writes.{IsNamed, Moves-patch_since, stage-IsNamed}
use oadp_vm_file_restore.FileRestore.Stage.Validates.{Answers, from}
use oadp_vm_file_restore.FileRestore.Stage.Works.{
  requeues, Moves-or_fail, Moves-advance, Moves-step,
}

module _ {c : Client} (client : IsClient c) (steps : Steps c.World)
    (kept : IsSteps c client steps) where
  open c use {World}
  open client use {stored}

  module _ (first : Stage) where
    pub Moves-on_restores_completed :
        (v : View)
        → stage c v ≡ Stage.restores_completed
        → Moves client first v (on_restores_completed c steps) (Answers client)
    unfolding on_restores_completed IsNamed stage_named
    Moves-on_restores_completed v e =
        Moves-step client steps kept first v Stage.restores_completed _
          (λ _. advance c steps credentials_ready)
          (Moves-or_fail client steps kept first v _ _ steps.ensure_credentials
            kept.credentials_keep (from client v e Next.lack_credentials))
          e
          (λ _ x q.
            Moves-advance client steps kept first x "CredentialsReady" credentials_ready
              Stage.credentials_ready (λ t. (refl, refl, (refl, (refl, (refl, tt))))) refl
              (from client x q Next.prepare_credentials))

    Moves-settle_since :
        (base : FileRestore) (v : View) (phase : FileRestorePhase) (conditions : ℕ → List Condition)
        (requeue : Bool) (u : Stage)
        → view base.status ≡ v
        → ((t : ℕ) (known : List Condition)
            → stage c (phase, set_conditions c (conditions t) known) ≡ u)
        → (requeue ≡ false → is_quiet u ≡ true)
        → Next (stage c v) u
        → Moves client first v (settle_since c steps base phase conditions requeue) (Answers client)
    unfolding settle_since
    Moves-settle_since base v phase conditions requeue u b h quiet n s =
        Moves-bind client first (λ _ x. stage c x ≡ u) (Answers client) v
          (patch_since c base phase (conditions (c.now s.0)) false) (λ _. pure requeue)
          (Moves-patch_since client first base v phase (conditions (c.now s.0)) false u b
            (h (c.now s.0)) n)
          (λ _ x q.
            Moves-pure client first (Answers client) x requeue (λ p. ap is_quiet q ∙ quiet p))
          s

    Moves-publish :
        (base : FileRestore) (v : View)
        → view base.status ≡ v
        → stage c v ≡ Stage.credentials_ready
        → Moves client first v (publish c steps base) (Answers client)
    unfolding publish IsNamed stage_named stage
    Moves-publish base v b e s =
        elim (Bool-cases (
          external_route_requested s.1.spec.file_access
          && not (route_ready s.1.status.file_serving_info))) [
            | inl wait ↦ rw wait (
                Moves-settle_since base v FileRestorePhase.in_progress waiting_for_route true
                  Stage.waiting_for_route b
                  (λ t k.
                    stage-IsNamed client "WaitingForRoute" (waiting_for_route t) k
                      (refl, refl, (refl, (refl, (refl, tt)))))
                  (λ p. absurd (true≢false p)) (from client v e Next.await_route) s)
            | inr ready ↦ rw ready (
                Moves-settle_since base v FileRestorePhase.completed
                  (served "File server pod and service created, PVCs binding in progress"
                    "File restore completed, files accessible via file server")
                  false Stage.completed b (λ t k. refl) (λ _. refl) (from client v e Next.serve) s)
          ]

    pub Moves-on_credentials_ready :
        (v : View)
        → stage c v ≡ Stage.credentials_ready
        → Moves client first v (on_credentials_ready c steps) (Answers client)
    unfolding on_credentials_ready
    Moves-on_credentials_ready v e s i h =
        Moves-bind client first (λ _ x. x ≡ v) (Answers client) v
          (or_fail c steps "FileServerCreationFailed" "Failed to create file server resources"
            steps.create_file_server_resources)
          (λ _. publish c steps s.1)
          (Moves-or_fail client steps kept first v _ _ steps.create_file_server_resources
            kept.server_keeps (from client v e Next.lack_server))
          (λ _ x q. Moves-publish s.1 x (i ∙ h ∙ sym q) (ap (stage c) q ∙ e)) s i h

    Moves-publish_route :
        (base : FileRestore) (v : View)
        → view base.status ≡ v
        → stage c v ≡ Stage.waiting_for_route
        → Moves client first v (publish_route c steps base) (Answers client)
    unfolding publish_route stage
    Moves-publish_route base v b e s =
        elim (Bool-cases (not (route_ready s.1.status.file_serving_info))) [
          | inl wait ↦ rw wait (
              Moves-pure client first (Answers client) v true
                (requeues client steps kept first true v refl) s)
          | inr ready ↦ rw ready (
              Moves-settle_since base v FileRestorePhase.completed
                (served "File server and external route are ready"
                  "File restore completed, files accessible via file server and external route")
                false Stage.completed b (λ t k. refl) (λ _. refl) (from client v e Next.serve_route)
                s)
        ]

    Moves-update_route :
        (v : View) (services : List String)
        → stage c v ≡ Stage.waiting_for_route
        → Moves client first v (update_route c steps services) (Answers client)
    unfolding update_route
    Moves-update_route v [] e s i h = Moves-throw client first (Answers client) v _ s i h
    Moves-update_route v (service ∷ rest) e s i h =
        Moves-bind client first (λ _ x. x ≡ v) (Answers client) v
          (steps.update_file_serving_info service) (λ _. publish_route c steps s.1)
          (Moves-keeps client first v (steps.update_file_serving_info service)
            (kept.serving_keeps service))
          (λ _ x q. Moves-publish_route s.1 x (i ∙ h ∙ sym q) (ap (stage c) q ∙ e)) s i h

    pub Moves-on_waiting_for_route :
        (v : View)
        → stage c v ≡ Stage.waiting_for_route
        → Moves client first v (on_waiting_for_route c steps) (Answers client)
    unfolding on_waiting_for_route
    Moves-on_waiting_for_route v e s =
        let list = c.list_services s.1.status.created_namespace s.1.uid in
        elim (Bool-cases (str_eq s.1.status.created_namespace "")) [
          | inl nowhere ↦ rw nowhere (Moves-throw client first (Answers client) v _ s)
          | inr somewhere ↦ rw somewhere (
              Moves-step client steps kept first v Stage.waiting_for_route (call list)
                (update_route c steps)
                (Moves-keeps client first v (call list) (
                  Keeps-call client list
                    (client.list_services_keeps s.1.status.created_namespace s.1.uid)))
                e (λ services x q. Moves-update_route x services q) s)
        ]
