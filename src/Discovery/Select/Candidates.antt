-- ===== src/Discovery/Select/Candidates.antt =====
-- Which backups initializeDiscovery chooses, and in which order.
use mathlib.Core.List.Perm
use oadp_vm_file_restore.Prelude.{
  is_empty, String, ℕ, ◌≤◌, ◌≡◌, refl, ap, ◌↔◌, inl, inr, arith, List, [], ◌∷◌, Perm, Bool, true,
  false, not, ◌&&◌, ◌||◌, keep, any, str_eq, All, ltb, is_some, Bool-cases, if◌then◌else◌,
}
use oadp_vm_file_restore.Api.{Backup, is_completed_backup, DiscoverySpec}
use oadp_vm_file_restore.Velero.Spec.{
  validate_vm_in_backup_spec, backup_async_operations_incomplete,
}
use oadp_vm_file_restore.Discovery.Select.{
  should_include, is_candidate, insert_newest, sort_newest, select_candidates,
}

-- The user asked for the backup: it is requested by name, or no name alone decides and it was
-- created within the range.
pub data AskedFor (start_time end_time : ℕ) (spec : DiscoverySpec) (b : Backup) : Type 0 where
  by_name :
      any (λ n. str_eq b.name n) spec.requested_backups ≡ true → AskedFor start_time end_time spec b
  by_time :
      is_empty spec.requested_backups || (is_some spec.start_time || is_some spec.end_time) ≡ true
      → start_time ≤ b.creation_timestamp
      → b.creation_timestamp ≤ end_time
      → AskedFor start_time end_time spec b

-- The same as a test.
asked : ℕ → ℕ → DiscoverySpec → Backup → Bool
asked start_time end_time spec b =
    any (λ n. str_eq b.name n) spec.requested_backups
    || ((is_empty spec.requested_backups || (is_some spec.start_time || is_some spec.end_time))
        && (not (ltb b.creation_timestamp start_time) && not (ltb end_time b.creation_timestamp)))

include_lem :
    (listed in_range with_range : Bool) (l : List String)
    → (l ≡ [] → listed ≡ false)
    → (if not (is_empty l) && with_range
        then listed || in_range
        else if not (is_empty l)
        then listed
        else in_range)
      ≡ (listed || ((is_empty l || with_range) && in_range))
include_lem listed in_range with_range [] h = rw (h refl) refl
include_lem listed in_range with_range (n ∷ l) h = ground arith

should_include-asked :
    (start_time end_time : ℕ) (spec : DiscoverySpec) (b : Backup)
    → should_include start_time end_time spec b ≡ asked start_time end_time spec b
unfolding should_include asked
should_include-asked start_time end_time spec b =
    include_lem (any (λ n. str_eq b.name n) spec.requested_backups)
      (not (ltb b.creation_timestamp start_time) && not (ltb end_time b.creation_timestamp))
      (is_some spec.start_time || is_some spec.end_time) spec.requested_backups
      (λ e. ap (λ l. any (λ n. str_eq b.name n) l) e)

asked_iff :
    (start_time end_time : ℕ) (spec : DiscoverySpec) (b : Backup)
    → (asked start_time end_time spec b ≡ true) ↔ AskedFor start_time end_time spec b
unfolding asked
asked_iff start_time end_time spec b = (there, back)
  where
    there : asked start_time end_time spec b ≡ true → AskedFor start_time end_time spec b
    there h = elim (Bool-cases (any (λ n. str_eq b.name n) spec.requested_backups)) [
      | inl named ↦ AskedFor.by_name named
      | inr unnamed ↦
          AskedFor.by_time (ground (arith, h, unnamed)) (ground (arith, h, unnamed))
            (ground (arith, h, unnamed))
    ]

    back : AskedFor start_time end_time spec b → asked start_time end_time spec b ≡ true
    back (AskedFor.by_name named) = rw named refl
    back (AskedFor.by_time decides from to) = ground arith

-- A backup is a candidate exactly when it is completed, no asynchronous operation of it is
-- incomplete, the user asked for it and its spec covers the machine's namespace.
pub is_candidate_iff :
    (start_time end_time : ℕ) (spec : DiscoverySpec) (b : Backup)
    → (is_candidate start_time end_time spec b ≡ true) ↔ (
        (is_completed_backup b.phase ≡ true)
        × (backup_async_operations_incomplete b ≡ false)
        × AskedFor start_time end_time spec b
        × (validate_vm_in_backup_spec b spec.virtual_machine_namespace ≡ true))
unfolding is_candidate
is_candidate_iff start_time end_time spec b =
    ground
      (arith, should_include-asked start_time end_time spec b, asked_iff start_time end_time spec b)

-- Newest first: no later backup of the list is newer.
pub NewestFirst : List Backup → Type 0
NewestFirst [] = Unit
NewestFirst (b ∷ bs) = All (λ c. c.creation_timestamp ≤ b.creation_timestamp) bs × NewestFirst bs

AtMost : ℕ → List Backup → Type 0
AtMost t l = All (λ c. c.creation_timestamp ≤ t) l

AtMost-mono : (t u : ℕ) (l : List Backup) → t ≤ u → AtMost t l → AtMost u l
unfolding AtMost
AtMost-mono t u [] h a = tt
AtMost-mono t u (c ∷ l) h a = (omega (arith, a.0), AtMost-mono t u l h a.1)

insert_newest-AtMost :
    (t : ℕ) (b : Backup) (l : List Backup)
    → b.creation_timestamp ≤ t
    → AtMost t l
    → AtMost t (insert_newest b l)
unfolding AtMost insert_newest
insert_newest-AtMost t b [] h a = (h, tt)
insert_newest-AtMost t b (c ∷ l) h a =
    elim (Bool-cases (ltb b.creation_timestamp c.creation_timestamp)) [
      | inl e ↦ rw e (a.0, insert_newest-AtMost t b l h a.1)
      | inr e ↦ rw e (h, a)
    ]

insert_newest-NewestFirst :
    (b : Backup) (l : List Backup) → NewestFirst l → NewestFirst (insert_newest b l)
unfolding NewestFirst insert_newest AtMost
insert_newest-NewestFirst b [] s = (tt, tt)
insert_newest-NewestFirst b (c ∷ l) s =
    elim (Bool-cases (ltb b.creation_timestamp c.creation_timestamp)) [
      | inl e ↦ rw e (
        insert_newest-AtMost c.creation_timestamp b l (ground (arith, e)) s.0,
        insert_newest-NewestFirst b l s.1,
      )
      | inr e ↦ rw e (
        (
          ground (arith, e),
          AtMost-mono c.creation_timestamp b.creation_timestamp l (ground (arith, e)) s.0,
        ),
        s,
      )
    ]

insert_newest-perm : (b : Backup) (l : List Backup) → Perm (b ∷ l) (insert_newest b l)
unfolding insert_newest
insert_newest-perm b [] = Perm.rfl
insert_newest-perm b (c ∷ l) = elim (Bool-cases (ltb b.creation_timestamp c.creation_timestamp)) [
  | inl e ↦ rw e (Perm.trans (Perm.swap c b l) (Perm.cons c (insert_newest-perm b l)))
  | inr e ↦ rw e (Perm.rfl)
]

sort_newest-perm : (l : List Backup) → Perm l (sort_newest l)
unfolding sort_newest
sort_newest-perm [] = Perm.rfl
sort_newest-perm (b ∷ l) =
    Perm.trans (Perm.cons b (sort_newest-perm l)) (insert_newest-perm b (sort_newest l))

sort_newest-NewestFirst : (l : List Backup) → NewestFirst (sort_newest l)
unfolding sort_newest NewestFirst
sort_newest-NewestFirst [] = tt
sort_newest-NewestFirst (b ∷ l) = insert_newest-NewestFirst b _ (sort_newest-NewestFirst l)

-- The candidates are the backups of the cluster that pass the test, each as often as the cluster
-- lists it, newest first.
pub select_candidates_lem :
    (start_time end_time : ℕ) (spec : DiscoverySpec) (backups : List Backup)
    → NewestFirst (select_candidates start_time end_time spec backups)
      × Perm
          (keep (is_candidate start_time end_time spec) backups)
          (select_candidates start_time end_time spec backups)
unfolding select_candidates
select_candidates_lem start_time end_time spec backups = (
  sort_newest-NewestFirst (keep (is_candidate start_time end_time spec) backups),
  sort_newest-perm (keep (is_candidate start_time end_time spec) backups),
)
