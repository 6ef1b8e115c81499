-- ===== src/Discovery/Cluster.antt =====
-- What the discovery controller sees of the cluster: the client of controller-runtime, as an
-- interface. A call takes the state of the world to its next state, in which other writers may
-- have been at work, and may fail at any time. `IsServer` says what is relied upon.
use oadp_vm_file_restore.Prelude.{ℕ, String, List, ◌≡◌, ◌⊎◌}
use oadp_vm_file_restore.Api.{Backup, BackupsDiscovery}

-- An error of the client: `errors.IsNotFound`, `errors.IsConflict`, or any other.
pub data Error : Type 0 where
  not_found conflict : Error
  other : String → Error

-- What `%v` prints.
abbrev pub error_text : Error → String
error_text not_found = "not found"
error_text conflict = "conflict"
error_text (other s) = s

pub data Result {ℓ} (A : Type ℓ) : Type ℓ where
  ok : A → Result A
  err : Error → Result A

pub record Cluster : Type 1 where
  pub World : Type 0
  -- r.Get of the resource that is reconciled
  pub get : World → World × Result BackupsDiscovery
  -- r.Status().Update: the result is the object as the server returns it.
  pub update_status : BackupsDiscovery → World → World × Result BackupsDiscovery
  -- r.List of the backups in the OADP namespace
  pub list_backups : World → World × Result (List Backup)
  -- r.Get of a backup by its name, which a worker calls
  pub get_backup : String → World → Result Backup
  -- time.Now()
  pub now : World → ℕ

-- `seen w o`: `o` is a version of the resource that the server has stored, which a read may return,
-- late or not. Only a status update changes a status, and it may take effect though it fails.
pub record IsServer (c : Cluster) : Type 1 where
  pub seen : c.World → BackupsDiscovery → Type 0
  pub get_seen :
      (w : c.World) {w' : c.World} {o : BackupsDiscovery} → c.get w ≡ (w', ok o) → seen w' o
  pub get_keeps :
      (w : c.World) (o : BackupsDiscovery)
      → seen (c.get w).0 o
      → (p : BackupsDiscovery) × seen w p × (o.status ≡ p.status)
  pub list_keeps :
      (w : c.World) (o : BackupsDiscovery)
      → seen (c.list_backups w).0 o
      → (p : BackupsDiscovery) × seen w p × (o.status ≡ p.status)
  pub update_returns :
      (v : BackupsDiscovery) (w : c.World) {w' : c.World} {o : BackupsDiscovery}
      → c.update_status v w ≡ (w', ok o)
      → o.status ≡ v.status
  -- The object that a status update returns is stored.
  pub update_seen :
      (v : BackupsDiscovery) (w : c.World) {w' : c.World} {o : BackupsDiscovery}
      → c.update_status v w ≡ (w', ok o)
      → seen w' o
  pub update_keeps :
      (v : BackupsDiscovery) (w : c.World) (o : BackupsDiscovery)
      → seen (c.update_status v w).0 o
      → (o.status ≡ v.status) ⊎ ((p : BackupsDiscovery) × seen w p × (o.status ≡ p.status))

-- A handler: the world it leaves, and a value or an error.
abbrev pub M : Type 0 → Type 0 → Type 0
M W A = W → W × Result A

abbrev pub continue : {W A B : Type 0} → (A → M W B) → W × Result A → W × Result B
continue f (w, ok a) = f a w
continue f (w, err e) = (w, err e)

infixl 5 ◌>>=◌
abbrev pub ◌>>=◌ : {W A B : Type 0} → M W A → (A → M W B) → M W B
◌>>=◌ m f w = continue f (m w)
