-- ===== src/Tests/FileRestore.antt =====
-- A server that stores one file restore and answers at once, and runs of the controller on it.
use oadp_vm_file_restore.Prelude.{
  String, str_eq, str_eq→eq, str_eq_refl, List, [], ◌∷◌, Option, none, some, true, false, ◌≡◌, refl,
  ap, ◌∙◌, inl, inr, if◌then◌else◌, Bool-cases,
}
use oadp_vm_file_restore.Api.{Condition}
use oadp_vm_file_restore.Discovery.Cluster.{Result, ok, err, not_found}
use oadp_vm_file_restore.FileRestore.Types.{FileRestore, FileRestorePhase}
use oadp_vm_file_restore.FileRestore.Client.{Client, pure}
use oadp_vm_file_restore.FileRestore.Status.{condition, settle}
use oadp_vm_file_restore.FileRestore.Validation.{discovering_conditions}
use oadp_vm_file_restore.FileRestore.Restored.{RestoredPvc, PvcClient, validate_restored_pvcs}
use oadp_vm_file_restore.FileRestore.Workflow.{Steps}
use oadp_vm_file_restore.FileRestore.Reconcile.{reconcile}
use oadp_vm_file_restore.FileRestore.Stage.{stage, view, reason_of}
use oadp_vm_file_restore.FileRestore.Stage.Rules.{IsClient, written}
use oadp_vm_file_restore.FileRestore.Stage.Refines.{reconcile-interrupted}

abbrev find_condition : List Condition → String → Option Condition
find_condition [] type = none
find_condition (cond ∷ rest) type =
    if str_eq cond.type type then some cond else find_condition rest type

abbrev set_condition : List Condition → Condition → List Condition
set_condition [] new = new ∷ []
set_condition (cond ∷ rest) new =
    if str_eq cond.type new.type then new ∷ rest else cond ∷ set_condition rest new

abbrev or_this : FileRestore → Result FileRestore → FileRestore
or_this w (ok o) = o
or_this w (err e) = w

abbrev pub client : Client
client = record {
  World = FileRestore;
  get = λ w. (w, ok w);
  patch_status =
      λ base new w. (record w { status = new.status }, ok (record w { status = new.status }));
  update_status =
      λ new w. (record w { status = new.status }, ok (record w { status = new.status }));
  patch = λ base new w.
      (record w { finalizers = new.finalizers }, ok (record w { finalizers = new.finalizers }));
  get_discovery = λ name ns w. (w, err not_found);
  get_backup = λ name ns w. err not_found;
  list_restores = λ ns uid w. (w, ok []);
  list_services = λ ns uid w. (w, ok ("file-server" ∷ []));
  arrive = λ results w. results;
  now = λ w. 9;
  find_status_condition = find_condition;
  set_status_condition = set_condition;
  deep_equal = λ a b. false;
  quantity_text = λ n. "5Gi";
  reader = none;
  oadp_namespace = "openshift-adp";
}

find-set_same :
    (known : List Condition) (cond : Condition)
    → reason_of (find_condition (set_condition known cond) cond.type) ≡ cond.reason
find-set_same [] cond = rw (str_eq_refl cond.type) refl
find-set_same (other ∷ rest) cond = elim (Bool-cases (str_eq other.type cond.type)) [
  | inl e ↦ rw (e, str_eq_refl cond.type) refl
  | inr e ↦ rw (e, e) (find-set_same rest cond)
]

find-set_other :
    (known : List Condition) (cond : Condition) (type : String)
    → str_eq cond.type type ≡ false
    → find_condition (set_condition known cond) type ≡ find_condition known type
find-set_other [] cond type h = rw h refl
find-set_other (other ∷ rest) cond type h = elim (Bool-cases (str_eq other.type cond.type)) [
  | inl e ↦ rw (e, h, ap (λ x. str_eq x type) (str_eq→eq other.type cond.type e) ∙ h) refl
  | inr e ↦
      rw e (
        ap (λ x. if str_eq other.type type then some other else x)
          (find-set_other rest cond type h))
]

client-IsClient : IsClient client
client-IsClient = record {
  stored = λ w. view w.status;
  get_keeps = λ w. refl;
  patch_status_wrote = λ base new w h. written refl refl;
  update_status_wrote = λ new w. written refl refl;
  patch_wrote = λ base new w. written refl refl;
  get_discovery_keeps = λ name ns w. refl;
  list_restores_keeps = λ ns uid w. refl;
  list_services_keeps = λ ns uid w. refl;
  set_same = find-set_same;
  set_other = find-set_other;
}

-- Each Velero restore has restored one PVC, of a disk, which is bound.
abbrev restored_pvc : RestoredPvc
restored_pvc = record {
  name = "restored-disk";
  labels = some (("oadp.openshift.io/vmfr-original-name", "disk") ∷ []);
  phase = "Bound";
}

abbrev pvcs : PvcClient FileRestore
pvcs = record {
  list_pvcs = λ ns restore w. (w, ok (restored_pvc ∷ []));
  get_pvc = λ name ns w. (w, ok restored_pvc);
}

abbrev steps : Steps FileRestore
steps = record {
  ensure_restore_namespace = pure "restored";
  create_velero_restores = pure tt;
  fix_data_download_pvc_names = pure 0;
  validate_restored_pvcs = validate_restored_pvcs pvcs;
  ensure_credentials = pure tt;
  create_file_server_resources = pure tt;
  update_file_serving_info = λ service. pure tt;
  handle_velero_restore_cleanup = pure false;
  handle_resource_cleanup = pure false;
}

abbrev pub at_reason : FileRestorePhase → String → FileRestore
at_reason phase reason = record {
  name = "files";
  namespace = "vms";
  uid = "u1";
  generation = 1;
  deletion_timestamp = none;
  finalizers = [];
  spec = record {
    backups_discovery_ref = "find";
    selected_backups = [];
    restore_namespace = "";
    namespace_prefix = "";
    file_access = none;
  };
  status = record {
    phase = phase;
    observed_generation = 1;
    conditions = condition "Progressing" true reason "" 5 ∷ [];
    file_serving_info = none;
    pvc_restores = [];
    created_namespace = "restored";
  };
}

abbrev pub validated : FileRestore
validated = at_reason FileRestorePhase.in_progress "ValidationCompleted"

-- A discovery of PVCs begins.
abbrev validating : FileRestore
validating = at_reason FileRestorePhase.in_progress "Validating"

abbrev begun : (FileRestore × FileRestore) × Result (Unit {0})
begun =
    settle client FileRestorePhase.in_progress (discovering_conditions 2) false tt
      (validating, validating)

reconcile-interrupted_example : reconcile client steps begun.0.0 ≡ (begun.0.0, ok false)
unfolding settle client-IsClient stage
reconcile-interrupted_example =
    reconcile-interrupted client-IsClient steps 2 (validating, validating) begun.0.0 begun.0.1 refl
      refl refl begun.0.0 begun.0.0 begun.0.0 refl refl refl
