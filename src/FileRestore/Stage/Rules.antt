-- ===== src/FileRestore/Stage/Rules.antt =====
-- What the file restore controller relies on, and rules for its handlers: the stage that the server
-- stores is reachable from the first, and the object in hand shows what the server stores.
use oadp_vm_file_restore.Prelude.{
  ◌≡◌, refl, sym, subst, ◌∙◌, ◌⊎◌, inl, inr, String, str_eq, List, false,
}
use oadp_vm_file_restore.Api.{Condition}
use oadp_vm_file_restore.Discovery.Cluster.{Error, Result, ok, err, ◌>>=◌, continue}
use oadp_vm_file_restore.FileRestore.Types.{FileRestore}
use oadp_vm_file_restore.FileRestore.Client.{
  Client, Handler, pure, throw, attempt, call, asks, answered,
}
use oadp_vm_file_restore.FileRestore.Workflow.{Steps}
use oadp_vm_file_restore.FileRestore.Stage.{View, view, Stage, stage, reason_of, Reach}

-- The outcome of a write of a view: the answer shows it, and so does the server; a write that
-- fails may take effect all the same.
pub data Wrote (c : Client) (stored : c.World → View) (before new : View)
    : c.World × Result FileRestore → Type 0 where
  written :
      {w : c.World} {o : FileRestore}
      → view o.status ≡ new
      → stored w ≡ new
      → Wrote c stored before new (w, ok o)
  unsure :
      {w : c.World} {e : Error}
      → (stored w ≡ before) ⊎ (stored w ≡ new)
      → Wrote c stored before new (w, err e)

-- The server stores a phase and conditions for the resource, and nobody else writes these two: then
-- a write whose base shows what is stored leaves what the new object shows. A read that starts a
-- reconciliation goes through a cache, and may return what was stored earlier.
pub record IsClient (c : Client) : Type 1 where
  pub stored : c.World → View
  pub get_keeps : (w : c.World) → stored (c.get w).0 ≡ stored w
  pub patch_status_wrote :
      (base new : FileRestore) (w : c.World)
      → view base.status ≡ stored w
      → Wrote c stored (stored w) (view new.status) (c.patch_status base new w)
  pub update_status_wrote :
      (new : FileRestore) (w : c.World)
      → Wrote c stored (stored w) (view new.status) (c.update_status new w)
  pub patch_wrote :
      (base new : FileRestore) (w : c.World)
      → Wrote c stored (stored w) (stored w) (c.patch base new w)
  pub get_discovery_keeps :
      (name ns : String) (w : c.World) → stored (c.get_discovery name ns w).0 ≡ stored w
  pub list_restores_keeps :
      (ns uid : String) (w : c.World) → stored (c.list_restores ns uid w).0 ≡ stored w
  pub list_services_keeps :
      (ns uid : String) (w : c.World) → stored (c.list_services ns uid w).0 ≡ stored w
  -- meta.SetStatusCondition sets the condition of its type and leaves the others.
  pub set_same :
      (known : List Condition) (cond : Condition)
      → reason_of (c.find_status_condition (c.set_status_condition known cond) cond.type)
        ≡ cond.reason
  pub set_other :
      (known : List Condition) (cond : Condition) (type : String)
      → str_eq cond.type type ≡ false
      → c.find_status_condition (c.set_status_condition known cond) type
        ≡ c.find_status_condition known type

-- The read that starts a reconciliation is not behind.
unfoldable pub IsCurrentRead : (c : Client) → IsClient c → c.World → Type 0
IsCurrentRead c client w =
    (w' : c.World) (o : FileRestore) → c.get w ≡ (w', ok o) → view o.status ≡ client.stored w'

module _ {c : Client} (client : IsClient c) where
  open c use {World}
  open client use {stored}

  -- The object in hand shows what is stored.
  abbrev pub IsCurrent : World × FileRestore → Type 0
  IsCurrent s = view s.1.status ≡ stored s.0

  -- A handler that leaves phase and conditions alone.
  abbrev pub Keeps : {A : Type 0} → Handler World A → Type 0
  Keeps m =
      (s : World × FileRestore) → IsCurrent s → IsCurrent (m s).0 × (stored (m s).0.0 ≡ stored s.0)

  module _ (first : Stage) where
    -- Where a handler may end, with a value or with an error.
    unfoldable pub Ends :
        {A : Type 0} → (A → View → Type 0) → (World × FileRestore) × Result A → Type 0
    Ends Q (s, ok a) = IsCurrent s × Reach first (stage c (stored s.0)) × Q a (stored s.0)
    Ends Q (s, err e) = Reach first (stage c (stored s.0))

    -- From a server that shows `v`.
    abbrev pub Moves : {A : Type 0} → View → Handler World A → (A → View → Type 0) → Type 0
    Moves v m Q =
        (s : World × FileRestore)
        → IsCurrent s
        → stored s.0 ≡ v
        → Reach first (stage c v)
        → Ends Q (m s)

    Ends-continue :
        {A B : Type 0} (Q : A → View → Type 0) (R : B → View → Type 0) (f : A → Handler World B)
        (p : (World × FileRestore) × Result A)
        → Ends Q p
        → ((a : A) (u : View) → Q a u → Moves u (f a) R)
        → Ends R (continue f p)
    unfolding Ends
    Ends-continue Q R f (s, ok a) h k = k a (stored s.0) h.2 s h.0 refl h.1
    Ends-continue Q R f (s, err e) h k = h

    pub Moves-bind :
        {A B : Type 0} (Q : A → View → Type 0) (R : B → View → Type 0) (v : View)
        (m : Handler World A) (f : A → Handler World B)
        → Moves v m Q
        → ((a : A) (u : View) → Q a u → Moves u (f a) R)
        → Moves v (m >>= f) R
    Moves-bind Q R v m f h k s i e r = Ends-continue Q R f (m s) (h s i e r) k

    pub Moves-pure :
        {A : Type 0} (Q : A → View → Type 0) (v : View) (a : A) → Q a v → Moves v (pure a) Q
    unfolding Ends
    Moves-pure Q v a q s i e r =
        (i, subst (λ x. Reach first (stage c x)) (sym e) r, subst (Q a) (sym e) q)

    pub Moves-throw :
        {A : Type 0} (Q : A → View → Type 0) (v : View) (e : Error) → Moves v (throw e) Q
    unfolding Ends
    Moves-throw Q v x s i e r = subst (λ x. Reach first (stage c x)) (sym e) r

    pub Ends-Reach :
        {A : Type 0} (Q : A → View → Type 0) (p : (World × FileRestore) × Result A)
        → Ends Q p
        → Reach first (stage c (stored p.0.0))
    unfolding Ends
    Ends-Reach Q (s, ok a) h = h.1
    Ends-Reach Q (s, err e) h = h

    pub Ends-same :
        {A : Type 0} (v : View) (p : (World × FileRestore) × Result A)
        → IsCurrent p.0
        → stored p.0.0 ≡ v
        → Reach first (stage c v)
        → Ends (λ _ u. u ≡ v) p
    unfolding Ends
    Ends-same v (s, ok a) i e r = (i, subst (λ x. Reach first (stage c x)) (sym e) r, e)
    Ends-same v (s, err x) i e r = subst (λ x. Reach first (stage c x)) (sym e) r

    pub Moves-keeps :
        {A : Type 0} (v : View) (m : Handler World A) → Keeps m → Moves v m (λ _ u. u ≡ v)
    Moves-keeps v m k s i e r = Ends-same v (m s) (k s i).0 ((k s i).1 ∙ e) r

    pub Ends-weaken :
        {A : Type 0} (Q R : A → View → Type 0) (p : (World × FileRestore) × Result A)
        → Ends Q p
        → ((a : A) (u : View) → Q a u → R a u)
        → Ends R p
    unfolding Ends
    Ends-weaken Q R (s, ok a) h k = (h.0, h.1, k a (stored s.0) h.2)
    Ends-weaken Q R (s, err e) h k = h

    pub Moves-weaken :
        {A : Type 0} (Q R : A → View → Type 0) (v : View) (m : Handler World A)
        → Moves v m Q
        → ((a : A) (u : View) → Q a u → R a u)
        → Moves v m R
    Moves-weaken Q R v m h k s i e r = Ends-weaken Q R (m s) (h s i e r) k

  pub Keeps-attempt : {A : Type 0} (m : Handler World A) → Keeps m → Keeps (attempt m)
  Keeps-attempt m k s i = k s i

  Keeps-continue :
      {A B : Type 0} (v : View) (f : A → Handler World B) (p : (World × FileRestore) × Result A)
      → IsCurrent p.0
      → stored p.0.0 ≡ v
      → ((a : A) → Keeps (f a))
      → IsCurrent (continue f p).0 × (stored (continue f p).0.0 ≡ v)
  Keeps-continue v f (s, ok a) i e k = ((k a s i).0, (k a s i).1 ∙ e)
  Keeps-continue v f (s, err x) i e k = (i, e)

  pub Keeps-bind :
      {A B : Type 0} (m : Handler World A) (f : A → Handler World B)
      → Keeps m
      → ((a : A) → Keeps (f a))
      → Keeps (m >>= f)
  Keeps-bind m f h k s i = Keeps-continue (stored s.0) f (m s) (h s i).0 (h s i).1 k

  pub Keeps-pure : {A : Type 0} (a : A) → Keeps (pure a)
  Keeps-pure a s i = (i, refl)

  pub Keeps-asks : {A : Type 0} (f : FileRestore → World → A) → Keeps (asks f)
  Keeps-asks f s i = (i, refl)

  pub Keeps-call :
      {A : Type 0} (f : World → World × Result A)
      → ((w : World) → stored (f w).0 ≡ stored w)
      → Keeps (call f)
  Keeps-call f h s i = (i ∙ sym (h s.0), h s.0)

  -- A write beside the phase and the conditions.
  pub answered-Keeps :
      (modified : FileRestore) (before : View) (p : World × Result FileRestore)
      → view modified.status ≡ before
      → Wrote c stored before before p
      → IsCurrent (answered modified p).0 × (stored (answered modified p).0.0 ≡ before)
  answered-Keeps modified before (w, ok o) h (written shown kept) = (shown ∙ sym kept, kept)
  answered-Keeps modified before (w, err e) h (unsure (inl kept)) = (h ∙ sym kept, kept)
  answered-Keeps modified before (w, err e) h (unsure (inr kept)) = (h ∙ sym kept, kept)

-- What the controller relies on in its steps: they write neither phase nor conditions. In the Go
-- code they patch the status only in ensureRestoreNamespace, for the created namespace, and in
-- createVeleroRestores, for the PVCs; the cleanup patches the finalizers.
pub record IsSteps (c : Client) (client : IsClient c) (steps : Steps c.World) : Type 0 where
  pub namespace_keeps : Keeps client steps.ensure_restore_namespace
  pub create_keeps : Keeps client steps.create_velero_restores
  pub fix_keeps : Keeps client steps.fix_data_download_pvc_names
  pub validate_keeps : Keeps client steps.validate_restored_pvcs
  pub credentials_keep : Keeps client steps.ensure_credentials
  pub server_keeps : Keeps client steps.create_file_server_resources
  pub serving_keeps : (service : String) → Keeps client (steps.update_file_serving_info service)
  pub cleanup_keeps : Keeps client steps.handle_velero_restore_cleanup
  pub resources_keep : Keeps client steps.handle_resource_cleanup
