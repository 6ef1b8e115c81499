-- ===== src/Discovery/Select/Maps.antt =====
-- The maps that classifyRequestedBackups builds from the requested names and the cluster's backups.
use mathlib.Core.Bool.{true≢false}
use oadp_vm_file_restore.Prelude.{
  ◌≡◌, refl, sym, ap, ap₂, ◌∙◌, arith, String, str_eq, str_eq→eq, eq→str_eq, List, [], ◌∷◌, ◌++◌,
  map, Bool, true, false, Option, none, some, any, any-append, is_some, Bool-cases, inl, inr,
  if◌then◌else◌,
}
use oadp_vm_file_restore.Api.{Backup}
use oadp_vm_file_restore.Discovery.Select.{
  find, assign, RequestedStatus, missing, mark_missing, status_of_backup, check_backup,
  check_backups, Maps,
}

-- The requested names without repetition.
abbrev pub has_name : String → List String → Bool
has_name n l = any (λ m. str_eq m n) l

unfoldable pub names_of : List String → List String → List String
names_of known [] = known
names_of known (n ∷ rest) = names_of (if has_name n known then known else known ++ n ∷ []) rest

-- The backup of that name which the cluster lists last.
unfoldable pub last_named : Option Backup → String → List Backup → Option Backup
last_named found n [] = found
last_named found n (b ∷ rest) = last_named (if str_eq b.name n then some b else found) n rest

unfoldable pub judgement : String → Option Backup → RequestedStatus
judgement vm_namespace none = missing
judgement vm_namespace (some b) = status_of_backup vm_namespace b

unfoldable pub Distinct : List String → Type 0
Distinct [] = Unit
Distinct (n ∷ l) = (has_name n l ≡ false) × Distinct l

pub str_eq_sym : (a b : String) → str_eq a b ≡ str_eq b a
str_eq_sym a b = elim (Bool-cases (str_eq a b)) [
  | inl e ↦ e ∙ sym (eq→str_eq b a (sym (str_eq→eq a b e)))
  | inr e ↦ elim (Bool-cases (str_eq b a)) [
    | inl f ↦ absurd (true≢false (sym (eq→str_eq a b (sym (str_eq→eq b a f))) ∙ e))
    | inr f ↦ e ∙ sym f
  ]
]

str_eq_apart : (a b c : String) → str_eq a b ≡ false → str_eq a c ≡ true → str_eq b c ≡ false
str_eq_apart a b c e f = str_eq_sym b c ∙ ap (λ x. str_eq x b) (sym (str_eq→eq a c f)) ∙ e

pub Distinct-snoc :
    (n : String) (l : List String) → Distinct l → has_name n l ≡ false → Distinct (l ++ n ∷ [])
unfolding Distinct
Distinct-snoc n [] d h = (refl, tt)
Distinct-snoc n (m ∷ l) d h = (
  any-append (λ k. str_eq k m) l (n ∷ []) ∙ ground (arith, d.0, str_eq_sym n m, h),
  Distinct-snoc n l d.1 (ground (arith, h)),
)

module _ {ℓ} {V : Type ℓ} where
  -- A map with these keys.
  abbrev pub tabulate : List String → (String → V) → List (String × V)
  tabulate keys f = map (λ n. (n, f n)) keys

  is_some-find :
      (k : String) (keys : List String) (f : String → V)
      → is_some (find k (tabulate keys f)) ≡ has_name k keys
  is_some-find k [] f = refl
  is_some-find k (j ∷ keys) f = elim (Bool-cases (str_eq j k)) [
    | inl e ↦ rw e refl
    | inr e ↦ rw e (is_some-find k keys f)
  ]

  tabulate-ext :
      (k : String) (keys : List String) (f g : String → V)
      → ((n : String) → str_eq n k ≡ false → f n ≡ g n)
      → has_name k keys ≡ false
      → tabulate keys f ≡ tabulate keys g
  tabulate-ext k [] f g h a = refl
  tabulate-ext k (j ∷ keys) f g h a =
      ap₂ (λ v rest. (j, v) ∷ rest) (h j (ground (arith, a)))
        (tabulate-ext k keys f g h (ground (arith, a)))

  assign-tabulate :
      (k : String) (v : V) (keys : List String) (f : String → V)
      → Distinct keys
      → has_name k keys ≡ true
      → assign k v (tabulate keys f) ≡ tabulate keys (λ n. if str_eq n k then v else f n)
  unfolding Distinct
  assign-tabulate k v [] f d h = absurd (cc)
  assign-tabulate k v (j ∷ keys) f d h = elim (Bool-cases (str_eq j k)) [
    | inl e ↦ rw e (
        ap (◌∷◌ (j, v)) (
          tabulate-ext k keys f _ (λ n o. rw o refl)
            (ap (λ x. has_name x keys) (sym (str_eq→eq j k e)) ∙ d.0)))
    | inr e ↦ rw e (ap (◌∷◌ (j, f j)) (assign-tabulate k v keys f d.1 (ground (arith, h, e))))
  ]

  pub find-assign :
      (n k : String) (v : V) (m : List (String × V))
      → find n (assign k v m) ≡ (if str_eq k n then some v else find n m)
  find-assign n k v [] = refl
  find-assign n k v ((j, u) ∷ m) = elim (Bool-cases (str_eq j k)) [
    | inl e ↦ rw e (ground (arith, ap (λ x. str_eq x n) (str_eq→eq j k e)))
    | inr e ↦ rw e (ground (arith, find-assign n k v m, str_eq_apart j k n e))
  ]

  tabulate-cong :
      (keys : List String) (f g : String → V)
      → ((n : String) → f n ≡ g n)
      → tabulate keys f ≡ tabulate keys g
  tabulate-cong [] f g h = refl
  tabulate-cong (k ∷ keys) f g h = ap₂ (λ v rest. (k, v) ∷ rest) (h k) (tabulate-cong keys f g h)

  assign-absent :
      (k : String) (v : V) (keys : List String)
      → has_name k keys ≡ false
      → assign k v (tabulate keys (λ _. v)) ≡ tabulate (keys ++ k ∷ []) (λ _. v)
  assign-absent k v [] h = refl
  assign-absent k v (j ∷ keys) h = elim (Bool-cases (str_eq j k)) [
    | inl e ↦ absurd (true≢false (ground (arith, h, e)))
    | inr e ↦ rw e (ap (◌∷◌ (j, v)) (assign-absent k v keys (ground (arith, h))))
  ]

pub names_of-Distinct : (known rest : List String) → Distinct known → Distinct (names_of known rest)
unfolding names_of
names_of-Distinct known [] d = d
names_of-Distinct known (n ∷ rest) d = elim (Bool-cases (has_name n known)) [
  | inl e ↦ rw e (names_of-Distinct known rest d)
  | inr e ↦ rw e (names_of-Distinct (known ++ n ∷ []) rest (Distinct-snoc n known d e))
]

if_same {ℓ} : {A : Type ℓ} (b : Bool) (a : A) → (if b then a else a) ≡ a
if_same true a = refl
if_same false a = refl

pub mark_missing-tabulate :
    (known rest : List String)
    → Distinct known
    → mark_missing rest (tabulate known (λ _. missing))
      ≡ tabulate (names_of known rest) (λ _. missing)
unfolding mark_missing names_of
mark_missing-tabulate known [] d = refl
mark_missing-tabulate known (n ∷ rest) d = elim (Bool-cases (has_name n known)) [
  | inl e ↦ rw e (
      ap (mark_missing rest) (
        assign-tabulate n missing known (λ _. missing) d e
        ∙ tabulate-cong known _ (λ _. missing) (λ m. if_same (str_eq m n) missing))
      ∙ mark_missing-tabulate known rest d)
  | inr e ↦ rw e (
      ap (mark_missing rest) (assign-absent n missing known e)
      ∙ mark_missing-tabulate (known ++ n ∷ []) rest (Distinct-snoc n known d e))
]

-- The two maps after a part of the cluster's backups, `current` being what was found so far.
pub record Found (vm_namespace : String) (keys : List String) (current : String → Option Backup)
    (maps : Maps) : Type 0 where
  pub statuses_eq : maps.0 ≡ tabulate keys (λ n. judgement vm_namespace (current n))
  pub refs_eq : (n : String) → has_name n keys ≡ true → find n maps.1 ≡ current n

judged_by :
    (vm_namespace : String) (b : Backup) (x : Bool) (o : Option Backup)
    → (if x then status_of_backup vm_namespace b else judgement vm_namespace o)
      ≡ judgement vm_namespace (if x then some b else o)
unfolding judgement
judged_by vm_namespace b true o = refl
judged_by vm_namespace b false o = refl

check_backup-Found :
    (vm_namespace : String) (keys : List String) (current : String → Option Backup) (maps : Maps)
    (b : Backup)
    → Distinct keys
    → Found vm_namespace keys current maps
    → Found vm_namespace keys
        (λ n. if str_eq b.name n then some b else current n)
        (check_backup vm_namespace b maps)
unfolding check_backup judgement
check_backup-Found vm_namespace keys current (statuses, refs) b d f =
    elim (Bool-cases (has_name b.name keys)) [
      | inl e ↦ rw (known ∙ e) (record {
        statuses_eq =
            ap (assign b.name (status_of_backup vm_namespace b)) f.statuses_eq
            ∙ assign-tabulate b.name _ keys _ d e
            ∙ tabulate-cong keys _ _ (λ n.
              ap
                (λ x.
                  if x then status_of_backup vm_namespace b else judgement vm_namespace (current n))
                (str_eq_sym n b.name)
              ∙ judged_by vm_namespace b (str_eq b.name n) (current n));
        refs_eq = λ n h.
            find-assign n b.name b refs
            ∙ ap (λ o. if str_eq b.name n then some b else o) (f.refs_eq n h);
      })
      | inr e ↦ rw (known ∙ e) (record {
        statuses_eq =
            f.statuses_eq
            ∙ tabulate-ext b.name keys _ _
                (λ n o. ap (judgement vm_namespace) (apart n (str_eq_sym b.name n ∙ o))) e;
        refs_eq = λ n h. f.refs_eq n h ∙ other_name n e h;
      })
    ]
  where
    known : is_some (find b.name statuses) ≡ has_name b.name keys
    known = ap (λ m. is_some (find b.name m)) f.statuses_eq ∙ is_some-find b.name keys _

    apart :
        (n : String)
        → str_eq b.name n ≡ false
        → current n ≡ (if str_eq b.name n then some b else current n)
    apart n o = rw o refl

    other_name :
        (n : String)
        → has_name b.name keys ≡ false
        → has_name n keys ≡ true
        → current n ≡ (if str_eq b.name n then some b else current n)
    other_name n e h = elim (Bool-cases (str_eq b.name n)) [
      | inl same ↦
          absurd
            (true≢false (sym h ∙ ap (λ x. has_name x keys) (sym (str_eq→eq b.name n same)) ∙ e))
      | inr o ↦ apart n o
    ]

pub check_backups-Found :
    (vm_namespace : String) (keys : List String) (backups : List Backup)
    (current : String → Option Backup) (maps : Maps)
    → Distinct keys
    → Found vm_namespace keys current maps
    → Found vm_namespace keys
        (λ n. last_named (current n) n backups)
        (check_backups vm_namespace backups maps)
unfolding check_backups last_named
check_backups-Found vm_namespace keys [] current maps d f = f
check_backups-Found vm_namespace keys (b ∷ rest) current maps d f =
    check_backups-Found vm_namespace keys rest _ _ d
      (check_backup-Found vm_namespace keys current maps b d f)
