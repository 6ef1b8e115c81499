-- ===== src/FileRestore/Extract/Fetching.antt =====
-- What a worker's result says of the backup.
use oadp_vm_file_restore.Prelude.{
  ◌≡◌, refl, sym, subst, ap, ◌∙◌, inl, inr, String, ◌<>◌, contains-prefix, str_eq, str_eq→eq, List,
  [], ◌∷◌, ◌++◌, append_assoc, append-nil, some, Bool-cases, Option-cases,
}
use oadp_vm_file_restore.Api.{Backup, BackupsDiscovery, PvcInfo, VeleroBackupInfo}
use oadp_vm_file_restore.Discovery.Cluster.{Error, error_text, Result, ok, err}
use oadp_vm_file_restore.Discovery.Select.{find}
use oadp_vm_file_restore.FileRestore.Types.{backup_deleted}
use oadp_vm_file_restore.FileRestore.Client.{Pvc, BackupReader, Client}
use oadp_vm_file_restore.FileRestore.Extract.{
  ExtractError, Extracted, extracted, refused, and_then, pvc_uid_label, pvc_info, check_label,
  check_labels, check_fetched, fetch_pvcs, after_metadata, get_backup_metadata,
  build_failed_progress, discover_pvcs_from_single_backup,
}
use oadp_vm_file_restore.FileRestore.Groups.{failure_state, state_of}

extracted-inj : {A : Type 0} {a b : A} → extracted a ≡ extracted b → a ≡ b
extracted-inj e = cc

not_extracted : {A : Type 0} {e : ExtractError} {a : A} → refused e ≡ extracted a → ⊥
not_extracted h = absurd (cc)

and_then-extracted :
    {A B : Type 0} {b : B} (m : Extracted A) (f : A → Extracted B)
    → and_then m f ≡ extracted b
    → (a : A) × (m ≡ extracted a) × (f a ≡ extracted b)
and_then-extracted (extracted a) f h = (a, refl, h)
and_then-extracted (refused e) f h = absurd (not_extracted h)

module _ (c : Client) where
  -- The PVC that the backup holds under a name: it is labelled with its own UID, and `info` tells
  -- of it.
  pub record IsSupported (reader : BackupReader) (backup : Backup) (namespace name : String)
      (info : PvcInfo) : Type 0 where
    pub pvc : Pvc
    pub labels : List (String × String)
    pub fetched_eq : reader.fetch_pvc backup name namespace ≡ ok pvc
    pub labels_eq : pvc.labels ≡ some labels
    pub label_eq : find pvc_uid_label labels ≡ some pvc.uid
    pub info_eq : info ≡ pvc_info c pvc

  -- One for one.
  pub AreSupported : BackupReader → Backup → String → List String → List PvcInfo → Type 0
  AreSupported reader backup namespace [] [] = Unit
  AreSupported reader backup namespace [] (info ∷ infos) = ⊥
  AreSupported reader backup namespace (name ∷ names) [] = ⊥
  AreSupported reader backup namespace (name ∷ names) (info ∷ infos) =
      IsSupported reader backup namespace name info
      × AreSupported reader backup namespace names infos

  check_label-IsSupported :
      (reader : BackupReader) (backup : Backup) (namespace name : String) (pvc : Pvc)
      (labels : List (String × String)) (label : String) (info : PvcInfo)
      → reader.fetch_pvc backup name namespace ≡ ok pvc
      → pvc.labels ≡ some labels
      → find pvc_uid_label labels ≡ some label
      → check_label c pvc (some label) ≡ extracted info
      → IsSupported reader backup namespace name info
  unfolding check_label
  check_label-IsSupported reader backup namespace name pvc labels label info f l found h =
      elim (Bool-cases (str_eq label pvc.uid)) [
        | inl same ↦ record {
          pvc = pvc;
          labels = labels;
          fetched_eq = f;
          labels_eq = l;
          label_eq = found ∙ ap some (str_eq→eq label pvc.uid same);
          info_eq = extracted-inj (sym h ∙ rw same refl);
        }
        | inr differs ↦ absurd (not_extracted (rw differs at h))
      ]

  check_fetched-IsSupported :
      (reader : BackupReader) (backup : Backup) (namespace name : String) (res : Result Pvc)
      (info : PvcInfo)
      → reader.fetch_pvc backup name namespace ≡ res
      → check_fetched c name res ≡ extracted info
      → IsSupported reader backup namespace name info
  unfolding check_fetched check_labels check_label
  check_fetched-IsSupported reader backup namespace name (err e) info f h = absurd (not_extracted h)
  check_fetched-IsSupported reader backup namespace name (ok pvc) info f h =
      elim (Option-cases pvc.labels) [
        | inl l ↦ absurd (not_extracted (sym (ap (check_labels c pvc) l) ∙ h))
        | inr (labels, l) ↦ elim (Option-cases (find pvc_uid_label labels)) [
          | inl n ↦
              absurd
                (not_extracted (sym (ap (check_labels c pvc) l ∙ ap (check_label c pvc) n) ∙ h))
          | inr (label, found) ↦
              check_label-IsSupported reader backup namespace name pvc labels label info f l found
                (sym (ap (check_labels c pvc) l ∙ ap (check_label c pvc) found) ∙ h)
        ]
      ]

  fetch_pvcs_lem :
      (reader : BackupReader) (backup : Backup) (namespace : String) (names : List String)
      (known infos : List PvcInfo)
      → fetch_pvcs c reader backup namespace names known ≡ extracted infos
      → (new : List PvcInfo) × (infos ≡ known ++ new)
        × AreSupported reader backup namespace names new
  unfolding fetch_pvcs AreSupported
  fetch_pvcs_lem reader backup namespace [] known infos h =
      ([], extracted-inj (sym h) ∙ sym (append-nil known), tt)
  fetch_pvcs_lem reader backup namespace (name ∷ rest) known infos h =
      let first = and_then-extracted _ _ h in
      let others =
        fetch_pvcs_lem reader backup namespace rest (known ++ first.0 ∷ []) infos first.2 in
      (
        first.0 ∷ others.0,
        others.1 ∙ append_assoc known (first.0 ∷ []) others.0,
        (check_fetched-IsSupported reader backup namespace name _ first.0 refl first.1, others.2),
      )

  -- If the PVCs of a machine are extracted, there is one for each name, in order: the PVC that the
  -- backup holds under the name, which is labelled with its own UID.
  pub fetch_pvcs-AreSupported :
      (reader : BackupReader) (backup : Backup) (namespace : String) (names : List String)
      (infos : List PvcInfo)
      → fetch_pvcs c reader backup namespace names [] ≡ extracted infos
      → AreSupported reader backup namespace names infos
  fetch_pvcs-AreSupported reader backup namespace names infos h =
      let r = fetch_pvcs_lem reader backup namespace names [] infos h in
      subst (AreSupported reader backup namespace names) (sym r.1) r.2

  -- A failure to get a backup's metadata, for whatever reason, and asynchronous operations that
  -- are not complete, are reported as a backup that was deleted.
  pub metadata_error-deleted :
      (info : VeleroBackupInfo) (vmbd : BackupsDiscovery) (w : c.World) (e : Error)
      → get_backup_metadata c info w ≡ err e
      → state_of (discover_pvcs_from_single_backup c info vmbd w) ≡ some backup_deleted
  unfolding discover_pvcs_from_single_backup after_metadata state_of failure_state
      build_failed_progress
  metadata_error-deleted info vmbd w e h =
      ap (λ res. state_of (after_metadata c info vmbd w res)) h
      ∙ rw (contains-prefix "BackupNotFound" (": " <> error_text e)) refl
