-- ===== src/Predicate.antt =====
-- internal/predicate: which events start a reconciliation, and HasVMFRLabel of
-- internal/common/function/function.go.
use oadp_vm_file_restore.Prelude.{
  String, str_eq, List, Bool, true, false, ◌&&◌, not, Option, none, some, any, if◌then◌else◌, ◌≡◌,
  ◌↔◌, ap₂, str_eq_refl, refl, ap, sym, ◌∙◌, arith, [], ◌∷◌, All, str_eq→eq,
}

-- client.Object, as far as the predicates read it: the labels, which may be nil, and the phase of a
-- Velero restore. `other_kind` is any object that is not a restore.
pub data Kind : Type 0 where
  restore : String → Kind
  other_kind : Kind

pub record Object : Type 0 where
  pub namespace : String
  pub labels : Option (List (String × String))
  pub kind : Kind

-- The events of controller-runtime.
pub data Event : Type 0 where
  create delete generic : Object → Event
  update : Object → Object → Event

abbrev pub vmfr_origin_uuid_label : String
vmfr_origin_uuid_label = "oadp.openshift.io/vmfr-origin-uuid"

unfoldable pub has_vmfr_label : Object → Bool
has_vmfr_label obj = elim obj.labels [
  | none ↦ false
  | some labels ↦ any (λ l. str_eq l.0 vmfr_origin_uuid_label) labels
]

-- NamespacePredicate
unfoldable pub namespace_predicate : String → Event → Bool
namespace_predicate ns (Event.create obj) = str_eq obj.namespace ns
namespace_predicate ns (Event.update old new) = str_eq new.namespace ns
namespace_predicate ns (Event.delete obj) = str_eq obj.namespace ns
namespace_predicate ns (Event.generic obj) = str_eq obj.namespace ns

abbrev pub phase_changed : Kind → Kind → Bool
phase_changed (Kind.restore old) (Kind.restore new) = not (str_eq old new)
phase_changed _ _ = false

-- VeleroRestorePredicate
unfoldable pub velero_restore_predicate : String → Event → Bool
unfolding has_vmfr_label
velero_restore_predicate ns (Event.create obj) = false
velero_restore_predicate ns (Event.update old new) =
    if str_eq new.namespace ns && has_vmfr_label new then phase_changed old.kind new.kind else false
velero_restore_predicate ns (Event.delete obj) = str_eq obj.namespace ns && has_vmfr_label obj
velero_restore_predicate ns (Event.generic obj) = false

-- RoutePredicate and ServicePredicate
unfoldable pub route_predicate : Event → Bool
unfolding has_vmfr_label
route_predicate (Event.create obj) = has_vmfr_label obj
route_predicate (Event.update old new) = has_vmfr_label new
route_predicate (Event.delete obj) = has_vmfr_label obj
route_predicate (Event.generic obj) = false

unfoldable pub service_predicate : Event → Bool
unfolding has_vmfr_label
service_predicate (Event.create obj) = has_vmfr_label obj
service_predicate (Event.update old new) = has_vmfr_label new
service_predicate (Event.delete obj) = has_vmfr_label obj
service_predicate (Event.generic obj) = false

-- The updates between the versions of an object, from the first.
abbrev pub updates : Object → List Object → List Event
updates old [] = []
updates old (new ∷ rest) = Event.update old new ∷ updates new rest

-- A labelled Velero restore of a namespace.
abbrev pub IsOurs : String → Object → Type 0
IsOurs ns obj =
    (str_eq obj.namespace ns ≡ true)
    × (has_vmfr_label obj ≡ true)
    × ((phase : String) × (obj.kind ≡ Kind.restore phase))

module _ (ns phase : String) where
  unseen :
      (old new : Object)
      → old.kind ≡ Kind.restore phase
      → IsOurs ns new
      → velero_restore_predicate ns (Event.update old new) ≡ false
      → new.kind ≡ Kind.restore phase
  unfolding velero_restore_predicate
  unseen old new was (here, labelled, (q, is)) h =
      is
      ∙ sym (
          ap Kind.restore
            (str_eq→eq phase q (ground (arith, h, here, labelled, ap₂ phase_changed was is))))

  same_unseen :
      (old new : Object)
      → old.kind ≡ Kind.restore phase
      → new.kind ≡ Kind.restore phase
      → velero_restore_predicate ns (Event.update old new) ≡ false
  unfolding velero_restore_predicate
  same_unseen old new was is = ground (arith, ap₂ phase_changed was is, str_eq_refl phase)

  -- No change of phase is missed, and nothing else is let through: none of the updates between the
  -- versions of a labelled Velero restore of the namespace is let through exactly when all the
  -- versions have the phase of the first.
  pub updates-unseen_iff :
      (first : Object) (versions : List Object)
      → first.kind ≡ Kind.restore phase
      → All (IsOurs ns) versions
      → (any (velero_restore_predicate ns) (updates first versions) ≡ false)
        ↔ All (λ v. v.kind ≡ Kind.restore phase) versions
  updates-unseen_iff first [] k a = ((λ _. tt), (λ _. refl))
  updates-unseen_iff first (new ∷ rest) k a = (
    (λ h.
        let e = unseen first new k a.0 (ground (arith, h)) in
        (e, (updates-unseen_iff new rest e a.1).0 (ground (arith, h)))),
    (λ h. ground (arith, same_unseen first new k h.0, (updates-unseen_iff new rest h.0 a.1).1 h.1)),
  )
