-- ===== src/FileRestore/Client.antt =====
-- What the file restore controller sees of the cluster and of the libraries, as an interface, and
-- its handlers: a handler changes the object in hand as well as the world, and leaves both as they
-- are when it fails.
use oadp_vm_file_restore.Prelude.{ℕ, String, List, Option, Bool}
use oadp_vm_file_restore.Api.{Backup, BackupsDiscovery, BackupDiscoveryProgress, Condition}
use oadp_vm_file_restore.Discovery.Cluster.{Error, Result, ok, err, M}
use oadp_vm_file_restore.FileRestore.Types.{FileRestore, FileRestoreStatus}

-- corev1.PersistentVolumeClaim; the labels may be nil, and so may the request, in bytes.
pub record Pvc : Type 0 where
  pub name : String
  pub namespace : String
  pub uid : String
  pub labels : Option (List (String × String))
  pub storage_request : Option ℕ

-- A volume of a virtual machine: the PVC it claims and the data volume it names, if any.
pub record Volume : Type 0 where
  pub claim_name : Option String
  pub data_volume : Option String

-- BackupContentsReader. A machine is the list of its volumes, which may be nil with its template.
pub record BackupReader : Type 0 where
  pub extract_vm : Backup → String → String → Result (Option (Option (List Volume)))
  pub fetch_pvc : Backup → String → String → Result Pvc

-- Velero's Restore; the phase is Velero's text.
pub record VeleroRestore : Type 0 where
  pub name : String
  pub phase : String
  pub annotations : List (String × String)

pub record Client : Type 1 where
  pub World : Type 0
  -- r.Get of the resource that is reconciled
  pub get : World → World × Result FileRestore
  -- r.Status().Patch, by the object as it was and as it is to be: the result is what the server
  -- returns, which the client writes into the object.
  pub patch_status : FileRestore → FileRestore → World → World × Result FileRestore
  -- r.Status().Update
  pub update_status : FileRestore → World → World × Result FileRestore
  -- r.Patch, which the controller uses for the finalizers
  pub patch : FileRestore → FileRestore → World → World × Result FileRestore
  -- r.Get of a discovery, by its name and namespace
  pub get_discovery : String → String → World → World × Result BackupsDiscovery
  -- r.Get of a backup, by its name and namespace, which a worker calls
  pub get_backup : String → String → World → Result Backup
  -- r.List of the Velero restores of a namespace with the label of a resource's UID
  pub list_restores : String → String → World → World × Result (List VeleroRestore)
  -- r.List of the services of a namespace with that label: their names
  pub list_services : String → String → World → World × Result (List String)
  -- the order in which the workers' results arrive
  pub arrive : List BackupDiscoveryProgress → World → List BackupDiscoveryProgress
  -- time.Now()
  pub now : World → ℕ
  -- meta.FindStatusCondition and meta.SetStatusCondition
  pub find_status_condition : List Condition → String → Option Condition
  pub set_status_condition : List Condition → Condition → List Condition
  -- equality.Semantic.DeepEqual of two statuses
  pub deep_equal : FileRestoreStatus → FileRestoreStatus → Bool
  -- resource.NewQuantity(n, resource.BinarySI).String()
  pub quantity_text : ℕ → String
  -- BackupContentsReader, nil if not configured
  pub reader : Option BackupReader
  pub oadp_namespace : String

-- A handler, from the world and the object in hand.
abbrev pub Handler : Type 0 → Type 0 → Type 0
Handler W A = M (W × FileRestore) A

abbrev pub pure : {W A : Type 0} → A → Handler W A
pure a s = (s, ok a)

abbrev pub throw : {W A : Type 0} → Error → Handler W A
throw e s = (s, err e)

-- The error as a value.
abbrev pub attempt : {W A : Type 0} → Handler W A → Handler W (Result A)
attempt m s = let p = m s in (p.0, ok p.1)

-- A call that leaves the object alone.
abbrev pub call : {W A : Type 0} → (W → W × Result A) → Handler W A
call f s = let p = f s.0 in ((p.0, s.1), p.1)

-- A value of the object and the world.
abbrev pub asks : {W A : Type 0} → (FileRestore → W → A) → Handler W A
asks f s = (s, ok (f s.1 s.0))

-- A write that puts the server's answer in the place of the object; if it fails, the object stays
-- as it was changed in memory.
abbrev pub answered :
    {W : Type 0} → FileRestore → W × Result FileRestore → (W × FileRestore) × Result (Unit {0})
answered modified (w, ok o) = ((w, o), ok tt)
answered modified (w, err e) = ((w, modified), err e)
