-- ===== src/Discovery/Reconcile/Update.antt =====
-- updateStatusWithRetry.
use oadp_vm_file_restore.Prelude.{
  ◌≡◌, refl, ◌∙◌, ◌⊎◌, inl, inr, ℕ, zero, suc, Bool, true, false, ◌==◌,
}
use oadp_vm_file_restore.Api.{BackupsDiscovery, DiscoveryStatusOf}
use oadp_vm_file_restore.Discovery.Cluster.{
  IsServer, not_found, conflict, other, Result, ok, err, M, continue,
}
use oadp_vm_file_restore.Discovery.Controller.{
  Reconciler, after_update, update_loop, update_status_with_retry,
}
use oadp_vm_file_restore.Discovery.Reconcile.Triple.{Returns, Keeps-update_status_with_retry}

module _ (r : Reconciler) (server : IsServer r.cluster) (status : DiscoveryStatusOf) where
  open r use {cluster}
  open cluster use {World, get, update_status}
  open server use {seen, update_seen, update_returns}

  -- A success comes with a stored version that has the status.
  abbrev Succeeds : {A : Type 0} → World × Result A → Type 0
  Succeeds p = Returns (λ _. (o : BackupsDiscovery) × seen p.0 o × (o.status ≡ status)) p.1

  Succeeds-continue :
      {A B : Type 0} (f : A → M World B) (p : World × Result A)
      → ((a : A) (w : World) → Succeeds (f a w))
      → Succeeds (continue f p)
  unfolding Returns
  Succeeds-continue f (w, ok a) h = h a w
  Succeeds-continue f (w, err e) h = tt

  Succeeds-after_update :
      (is_last : Bool) (again : BackupsDiscovery → M World BackupsDiscovery)
      (after : BackupsDiscovery → BackupsDiscovery) (vmbd : BackupsDiscovery)
      (p : World × Result BackupsDiscovery)
      → vmbd.status ≡ status
      → ((v : BackupsDiscovery) → v.status ≡ status → (w : World) → Succeeds (again v w))
      → ((w : World) (o : BackupsDiscovery) → p ≡ (w, ok o) → seen w o × (o.status ≡ status))
      → Succeeds (after_update r is_last again after vmbd p)
  unfolding after_update Returns
  Succeeds-after_update true again after vmbd (w, ok o) e k h = (o, (h w o refl).0, (h w o refl).1)
  Succeeds-after_update false again after vmbd (w, ok o) e k h = (o, (h w o refl).0, (h w o refl).1)
  Succeeds-after_update true again after vmbd (w, err conflict) e k h = tt
  Succeeds-after_update false again after vmbd (w, err conflict) e k h =
      Succeeds-continue _ (get w) (λ fresh. k (record fresh { status = vmbd.status }) e)
  Succeeds-after_update true again after vmbd (w, err not_found) e k h = tt
  Succeeds-after_update false again after vmbd (w, err not_found) e k h = tt
  Succeeds-after_update true again after vmbd (w, err (other s)) e k h = tt
  Succeeds-after_update false again after vmbd (w, err (other s)) e k h = tt

  Succeeds-update_loop :
      (tries : ℕ) (after : BackupsDiscovery → BackupsDiscovery) (caller vmbd : BackupsDiscovery)
      → vmbd.status ≡ status
      → (w : World) → Succeeds (update_loop r tries after caller vmbd w)
  unfolding update_loop Returns
  Succeeds-update_loop zero after caller vmbd e w = tt
  Succeeds-update_loop (suc tries) after caller vmbd e w =
      Succeeds-after_update (tries == 0) (update_loop r tries (λ _. caller) caller) after vmbd
        (update_status vmbd w) e (λ v. Succeeds-update_loop tries (λ _. caller) caller v)
        (λ _ _ answer. (update_seen vmbd w answer, update_returns vmbd w answer ∙ e))

-- Whatever the server answers to each try, every status that it stores afterwards is the one that
-- was to be written or one that it stored before; and if the update succeeds, a version with the
-- status that was to be written is stored, and the caller's object has that status too.
pub update_status_with_retry_lem :
    (r : Reconciler) (server : IsServer r.cluster) (v : BackupsDiscovery) (w : r.cluster.World)
    → let p = update_status_with_retry r v w in
      ((o : BackupsDiscovery)
        → server.seen p.0 o
        → (o.status ≡ v.status)
          ⊎ ((p : BackupsDiscovery) × server.seen w p × (o.status ≡ p.status)))
      × Returns (λ o. o.status ≡ v.status) p.1
      × Returns (λ _. (o : BackupsDiscovery) × server.seen p.0 o × (o.status ≡ v.status)) p.1
unfolding update_status_with_retry
update_status_with_retry_lem r server v w =
    let kept =
      Keeps-update_status_with_retry r server
        (λ status.
          (status ≡ v.status) ⊎ ((p : BackupsDiscovery) × server.seen w p × (status ≡ p.status)))
        v (inl refl) w (λ o h. inr (o, h, refl)) in
    (kept.0, kept.1, Succeeds-update_loop r server v.status 3 (λ o. o) v v refl w)
