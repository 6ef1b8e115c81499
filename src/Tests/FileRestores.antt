-- ===== src/Tests/FileRestores.antt =====
-- The backups, PVCs and restores of a file restore, at concrete inputs.
use oadp_vm_file_restore.Prelude.{
  ℕ, String, List, [], ◌∷◌, Option, none, some, true, false, ◌≡◌, refl, Perm, keep, str_eq,
}
use oadp_vm_file_restore.Api.{BackupDiscoveryProgress, DiscoveryStatus, PvcInfo, VeleroBackupInfo}
use oadp_vm_file_restore.Discovery.Cluster.{ok, err, other}
use oadp_vm_file_restore.FileRestore.Types.{RestoreInfo, PvcRestoreInfo, backup_deleted}
use oadp_vm_file_restore.FileRestore.Client.{Client, VeleroRestore, BackupReader}
use oadp_vm_file_restore.FileRestore.Restores.{sort_restores_by_timestamp}
use oadp_vm_file_restore.FileRestore.Restores.Sorted.{IsNewestFirst, sort_restores_by_timestamp_lem}
use oadp_vm_file_restore.FileRestore.Selection.{get_filtered_backups_to_serve}
use oadp_vm_file_restore.FileRestore.Selection.Served.{Serves, get_filtered_backups_to_serve-Serves}
use oadp_vm_file_restore.FileRestore.Groups.{pvc_restores_of, state_of}
use oadp_vm_file_restore.FileRestore.Groups.Entries.{IsEntryOf, pvc_restores_of-IsEntryOf}
use oadp_vm_file_restore.FileRestore.Availability.{count_pvcs, no_pvcs, judge}
use oadp_vm_file_restore.FileRestore.Availability.Rules.{verdict, judge-verdict}
use oadp_vm_file_restore.FileRestore.Extract.{
  discover_pvcs_from_single_backup, fetch_pvcs, get_backup_metadata,
}
use oadp_vm_file_restore.FileRestore.Extract.Fetching.{
  AreSupported, fetch_pvcs-AreSupported, metadata_error-deleted,
}
use oadp_vm_file_restore.FileRestore.Monitor.{monitor, nothing_monitored}
use oadp_vm_file_restore.FileRestore.Monitor.Settled.{AreNamed, total_of, monitor_again}
use oadp_vm_file_restore.Tests.World.{nightly, discovery}
use oadp_vm_file_restore.Tests.FileRestore.{client, validated}

abbrev disk : PvcInfo
disk = record { pvc_name = "disk"; pvc_namespace = "vms"; pvc_uid = "d1"; size = "5Gi" }

abbrev backup_info : String → ℕ → List PvcInfo → VeleroBackupInfo
backup_info name created pvcs = record {
  name = name;
  namespace = "velero";
  created_at = some created;
  pvcs = pvcs;
}

abbrev progress : String → ℕ → DiscoveryStatus → String → List PvcInfo → BackupDiscoveryProgress
progress name created status message pvcs = record {
  info = backup_info name created pvcs;
  status = status;
  message = message;
  last_updated = none;
}

abbrev results : List BackupDiscoveryProgress
results =
    progress "nightly" 510 DiscoveryStatus.completed "" (disk ∷ [])
    ∷ progress "gone" 600 DiscoveryStatus.failed "BackupNotFound: it is gone" []
    ∷ progress "weekly" 710 DiscoveryStatus.completed "" (disk ∷ [])
    ∷ []

pvc_restores_of-IsEntryOf_example :
    IsEntryOf "d1" results (keep (λ e. str_eq e.pvc_uid "d1") (pvc_restores_of results))
pvc_restores_of-IsEntryOf_example = pvc_restores_of-IsEntryOf "d1" results refl

judge-verdict_example :
    judge (count_pvcs (pvc_restores_of results) no_pvcs) ≡ verdict (pvc_restores_of results)
judge-verdict_example = judge-verdict (pvc_restores_of results)

abbrev restore_at : Option ℕ → RestoreInfo
restore_at timestamp = record {
  velero_backup_name = "nightly";
  velero_backup_namespace = "velero";
  timestamp = timestamp;
  state = "available";
  velero_restore_name = "";
  velero_restore_namespace = "";
  phase = "";
  created_at = none;
  completed_at = none;
  failure_reason = "";
}

abbrev three : List RestoreInfo
three = restore_at (some 3) ∷ restore_at none ∷ restore_at (some 8) ∷ []

sort_restores_by_timestamp_lem_example :
    IsNewestFirst (sort_restores_by_timestamp three) × Perm three (sort_restores_by_timestamp three)
sort_restores_by_timestamp_lem_example = sort_restores_by_timestamp_lem three

get_filtered_backups_to_serve-Serves_example :
    Serves ("weekly" ∷ []) (backup_info "nightly" 510 [] ∷ backup_info "weekly" 710 [] ∷ []) (
      get_filtered_backups_to_serve
        ("weekly" ∷ [])
        (backup_info "nightly" 510 [] ∷ backup_info "weekly" 710 [] ∷ []))
get_filtered_backups_to_serve-Serves_example =
    get_filtered_backups_to_serve-Serves ("weekly" ∷ [])
      (backup_info "nightly" 510 [] ∷ backup_info "weekly" 710 [] ∷ []) refl

abbrev reader : BackupReader
reader = record {
  extract_vm = λ backup name ns. ok none;
  fetch_pvc = λ backup name ns. ok (record {
    name = name;
    namespace = ns;
    uid = "d1";
    labels = some (("velero.kubevirt.io/pvc-uid", "d1") ∷ []);
    storage_request = some 5368709120;
  });
}

fetch_pvcs-AreSupported_example : AreSupported client reader nightly "vms" ("disk" ∷ []) (disk ∷ [])
unfolding fetch_pvcs
fetch_pvcs-AreSupported_example =
    fetch_pvcs-AreSupported client reader nightly "vms" ("disk" ∷ []) (disk ∷ []) refl

-- Every read of a backup times out.
abbrev slow_client : Client
slow_client = record client { get_backup = λ name ns w. err (other "timeout") }

metadata_error-deleted_example :
    state_of (
      discover_pvcs_from_single_backup slow_client
        (backup_info "nightly" 510 [])
        discovery
        validated)
    ≡ some backup_deleted
unfolding get_backup_metadata
metadata_error-deleted_example =
    metadata_error-deleted slow_client (backup_info "nightly" 510 []) discovery validated
      (other
        "failed to get Velero backup metadata: failed to get Velero backup nightly in namespace velero: timeout")
      refl

abbrev listed : List VeleroRestore
listed =
    record {
      name = "r1";
      phase = "Finalizing";
      annotations = ("oadp.openshift.io/backup-name", "nightly") ∷ [];
    }
    ∷ record {
      name = "r2";
      phase = "InProgress";
      annotations = ("oadp.openshift.io/backup-name", "weekly") ∷ [];
    }
    ∷ []

abbrev served : List PvcRestoreInfo
served = record { info = disk; restores = three } ∷ []

monitor_again_example :
    (total_of (monitor "velero" listed (nothing_monitored served)) ≡ 2)
    × (monitor "velero" listed
          (nothing_monitored (monitor "velero" listed (nothing_monitored served)).pvc_restores)
        ≡ record (monitor "velero" listed (nothing_monitored served)) { status_updated = false })
unfolding AreNamed
monitor_again_example = monitor_again "velero" listed served ((refl, (refl, tt), (refl, tt, tt)))

-- The first look does change the entries.
first_look : (monitor "velero" listed (nothing_monitored served)).status_updated ≡ true
unfolding monitor
first_look = refl
