-- ===== src/Discovery/Reconcile/Triple.antt =====
-- Rules for handlers: every stored status has a property before and after, and the value that is
-- returned has another.
use oadp_vm_file_restore.Prelude.{
  ℕ, zero, suc, ◌≡◌, refl, sym, subst, Bool, true, false, ◌==◌, inl, inr,
}
use oadp_vm_file_restore.Api.{BackupsDiscovery, DiscoveryStatusOf}
use oadp_vm_file_restore.Discovery.Cluster.{
  IsServer, not_found, conflict, other, Result, ok, err, M, ◌>>=◌, continue,
}
use oadp_vm_file_restore.Discovery.Controller.{
  Reconciler, after_update, update_loop, update_status_with_retry, at_now, pure, write,
}

-- What the result is, if it is a value.
unfoldable pub Returns : {A : Type 0} → (A → Type 0) → Result A → Type 0
Returns Q (ok a) = Q a
Returns Q (err e) = Unit

module _ (r : Reconciler) (server : IsServer r.cluster) (P : DiscoveryStatusOf → Type 0) where
  open r use {cluster}
  open cluster use {World, get, update_status, list_backups, now}
  open server use {seen, get_seen, get_keeps, list_keeps, update_returns, update_keeps}

  abbrev pub Stored : World → Type 0
  Stored w = (o : BackupsDiscovery) → seen w o → P o.status

  abbrev pub Holds : {A : Type 0} → (A → Type 0) → World × Result A → Type 0
  Holds Q p = Stored p.0 × Returns Q p.1

  -- From a world whose stored statuses have the property.
  abbrev pub Keeps : {A : Type 0} → M World A → (A → Type 0) → Type 0
  Keeps m Q = (w : World) → Stored w → Holds Q (m w)

  Holds-continue :
      {A B : Type 0} (Q : A → Type 0) (R : B → Type 0) (f : A → M World B) (p : World × Result A)
      → Holds Q p
      → ((a : A) → Q a → Keeps (f a) R)
      → Holds R (continue f p)
  unfolding Returns
  Holds-continue Q R f (w, ok a) h k = k a h.1 w h.0
  Holds-continue Q R f (w, err e) h k = (h.0, tt)

  pub Keeps-bind :
      {A B : Type 0} (Q : A → Type 0) (R : B → Type 0) (m : M World A) (f : A → M World B)
      → Keeps m Q
      → ((a : A) → Q a → Keeps (f a) R)
      → Keeps (m >>= f) R
  Keeps-bind Q R m f h k w s = Holds-continue Q R f (m w) (h w s) k

  pub Keeps-at_now : {A : Type 0} (f : World → A) → Keeps (at_now f) (λ a. (w : World) × (a ≡ f w))
  unfolding Returns
  Keeps-at_now f w s = (s, (w, refl))

  pub Keeps-pure : {A : Type 0} (a : A) → Keeps (pure a) (λ _. Unit)
  unfolding Returns
  Keeps-pure a w s = (s, tt)

  pub Returns-any : {A : Type 0} (res : Result A) → Returns (λ _. Unit) res
  unfolding Returns
  Returns-any (ok a) = tt
  Returns-any (err e) = tt

  pub Keeps-result : {A : Type 0} (res : Result A) → Keeps (λ w. (w, res)) (λ _. Unit)
  Keeps-result res w s = (s, Returns-any res)

  read :
      (p : World × Result BackupsDiscovery)
      → Stored p.0
      → ((w' : World) (o : BackupsDiscovery) → p ≡ (w', ok o) → seen w' o)
      → Returns (λ o. P o.status) p.1
  unfolding Returns
  read (w, ok o) s h = s o (h w o refl)
  read (w, err e) s h = tt

  -- The object that is read has the property.
  pub Keeps-get : Keeps get (λ o. P o.status)
  Keeps-get w s = (kept, read (get w) kept (λ _ _ e. get_seen w e))
    where
      kept : Stored (get w).0
      kept o h = let (p, before, same) = get_keeps w o h in subst P (sym same) (s p before)

  pub list-Stored : (w : World) → Stored w → Stored (list_backups w).0
  list-Stored w s o h = let (p, before, same) = list_keeps w o h in subst P (sym same) (s p before)

  updated :
      (status : DiscoveryStatusOf) (p : World × Result BackupsDiscovery)
      → ((w' : World) (o : BackupsDiscovery) → p ≡ (w', ok o) → o.status ≡ status)
      → Returns (λ o. o.status ≡ status) p.1
  unfolding Returns
  updated status (w, ok o) h = h w o refl
  updated status (w, err e) h = tt

  Keeps-update_status :
      (v : BackupsDiscovery) → P v.status → Keeps (update_status v) (λ o. o.status ≡ v.status)
  Keeps-update_status v good w s = (
    λ o h. elim (update_keeps v w o h) [
      | inl e ↦ subst P (sym e) good
      | inr (p, before, same) ↦ subst P (sym same) (s p before)
    ],
    updated v.status (update_status v w) (λ _ _ e. update_returns v w e),
  )

  Keeps-after_update :
      (status : DiscoveryStatusOf) (is_last : Bool)
      (again : BackupsDiscovery → M World BackupsDiscovery)
      (after : BackupsDiscovery → BackupsDiscovery) (vmbd : BackupsDiscovery)
      (p : World × Result BackupsDiscovery)
      → vmbd.status ≡ status
      → ((o : BackupsDiscovery) → o.status ≡ status → (after o).status ≡ status)
      → ((v : BackupsDiscovery) → v.status ≡ status → Keeps (again v) (λ o. o.status ≡ status))
      → Holds (λ o. o.status ≡ status) p
      → Holds (λ o. o.status ≡ status) (after_update r is_last again after vmbd p)
  unfolding after_update Returns
  Keeps-after_update status true again after vmbd (w, ok o) e f k h = (h.0, f o h.1)
  Keeps-after_update status false again after vmbd (w, ok o) e f k h = (h.0, f o h.1)
  Keeps-after_update status true again after vmbd (w, err conflict) e f k h = h
  Keeps-after_update status false again after vmbd (w, err conflict) e f k h =
      Keeps-bind (λ o. P o.status) (λ o. o.status ≡ status) get _ Keeps-get
        (λ fresh _. k (record fresh { status = vmbd.status }) e) w h.0
  Keeps-after_update status true again after vmbd (w, err not_found) e f k h = h
  Keeps-after_update status false again after vmbd (w, err not_found) e f k h = h
  Keeps-after_update status true again after vmbd (w, err (other s)) e f k h = h
  Keeps-after_update status false again after vmbd (w, err (other s)) e f k h = h

  Keeps-update_loop :
      (tries : ℕ) (status : DiscoveryStatusOf) (after : BackupsDiscovery → BackupsDiscovery)
      (caller vmbd : BackupsDiscovery)
      → P status
      → caller.status ≡ status
      → vmbd.status ≡ status
      → ((o : BackupsDiscovery) → o.status ≡ status → (after o).status ≡ status)
      → Keeps (update_loop r tries after caller vmbd) (λ o. o.status ≡ status)
  unfolding update_loop Returns
  Keeps-update_loop zero status after caller vmbd good c v f w s = (s, tt)
  Keeps-update_loop (suc tries) status after caller vmbd good c v f w s =
      Keeps-after_update status (tries == 0) (update_loop r tries (λ _. caller) caller) after vmbd
        (update_status vmbd w) v f
        (λ v' e. Keeps-update_loop tries status (λ _. caller) caller v' good c e (λ _ _. c))
        (subst (λ st. Holds (λ o. o.status ≡ st) (update_status vmbd w)) v
          (Keeps-update_status vmbd (subst P (sym v) good) w s))

  -- After a status update that succeeds, the caller's object has the status that was written.
  pub Keeps-update_status_with_retry :
      (v : BackupsDiscovery)
      → P v.status
      → Keeps (update_status_with_retry r v) (λ o. o.status ≡ v.status)
  unfolding update_status_with_retry
  Keeps-update_status_with_retry v good =
      Keeps-update_loop 3 v.status (λ o. o) v v good refl refl (λ o e. e)

  pub Keeps-write :
      (v : BackupsDiscovery) (requeue : Bool) → P v.status → Keeps (write r v requeue) (λ _. Unit)
  Keeps-write v requeue good =
      Keeps-bind (λ o. o.status ≡ v.status) (λ _. Unit) (update_status_with_retry r v)
        (λ _. pure requeue) (Keeps-update_status_with_retry v good) (λ _ _. Keeps-pure requeue)
