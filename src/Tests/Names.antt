-- ===== src/Tests/Names.antt =====
-- Generated names and filtered events at concrete inputs.
use oadp_vm_file_restore.Prelude.{
  any, All, false, [], ◌∷◌, some, none, true, false, ◌≡◌, ◌≤◌, ◌↔◌, refl, arith, codes, length,
  is_empty, replicate,
}
use oadp_vm_file_restore.Names.{
  Name, max_length, normalize_dns1123_label, generate_temporary_vmfr_namespace_name, trim,
  trim_left, trim_right, sanitized, replace_invalid, to_lower,
}
use oadp_vm_file_restore.Names.Runes.{IsLabel, Runes, starts}
use oadp_vm_file_restore.Names.Laws.{
  normalize_dns1123_label-IsLabel, normalize_dns1123_label-none,
  generate_temporary_vmfr_namespace_name_lem,
}
use oadp_vm_file_restore.Predicate.{
  Kind, Object, has_vmfr_label, velero_restore_predicate, updates, IsOurs, updates-unseen_iff,
  vmfr_origin_uuid_label,
}

ssh-IsLabel : IsLabel (codes "ssh")
ssh-IsLabel = record {
  runes = (refl, (refl, (refl, tt)));
  is_started = refl;
  is_ended = refl;
  bounded = omega arith;
}

normalize_dns1123_label-IsLabel_example :
    (l : Name) × (normalize_dns1123_label (codes "My_Restore") (codes "ssh") ≡ some l) × IsLabel l
normalize_dns1123_label-IsLabel_example =
    normalize_dns1123_label-IsLabel (codes "My_Restore") (codes "ssh") ssh-IsLabel (omega arith)

normalize_dns1123_label-none_example :
    normalize_dns1123_label (codes "vm") (replicate 62 b'a') ≡ none
unfolding trim trim_left trim_right sanitized replace_invalid to_lower
normalize_dns1123_label-none_example =
    normalize_dns1123_label-none (codes "vm") (replicate 62 b'a') refl refl

abbrev namespace : Name
namespace =
    generate_temporary_vmfr_namespace_name (codes "vmfr") (codes "vms") (codes "web") (codes "1234")

generate_temporary_vmfr_namespace_name_lem_example :
    (length namespace ≤ max_length)
    × Runes namespace
    × (is_empty namespace ≡ false → starts namespace ≡ true)
generate_temporary_vmfr_namespace_name_lem_example =
    generate_temporary_vmfr_namespace_name_lem (codes "vmfr") (codes "vms") (codes "web")
      (codes "1234")

abbrev running : Object
running = record {
  namespace = "velero";
  labels = some ((vmfr_origin_uuid_label, "1234") ∷ []);
  kind = Kind.restore "InProgress";
}

abbrev finished : Object
finished = record running { kind = Kind.restore "Completed" }

running-IsOurs : IsOurs "velero" running
running-IsOurs = unfold has_vmfr_label in (refl, refl, ("InProgress", refl))

-- The restore is seen twice in progress, and then completed: that update is let through.
updates-unseen_iff_example :
    (any (velero_restore_predicate "velero") (updates running (running ∷ finished ∷ [])) ≡ false)
    ↔ All (λ v. v.kind ≡ Kind.restore "InProgress") (running ∷ finished ∷ [])
updates-unseen_iff_example =
    updates-unseen_iff "velero" "InProgress" running (running ∷ finished ∷ []) refl
      (running-IsOurs, ((unfold has_vmfr_label in (refl, refl, ("Completed", refl))), tt))

completion_seen :
    any (velero_restore_predicate "velero") (updates running (running ∷ finished ∷ [])) ≡ true
unfolding velero_restore_predicate has_vmfr_label
completion_seen = refl
