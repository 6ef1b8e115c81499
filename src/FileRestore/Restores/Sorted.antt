-- ===== src/FileRestore/Restores/Sorted.antt =====
-- What the exchanges of sortRestoresByTimestamp do to a list.
use mathlib.Core.List.Perm
use oadp_vm_file_restore.Prelude.{
  ℕ, zero, suc, ◌≤◌, ◌≡◌, refl, inl, inr, arith, List, [], ◌∷◌, Bool, true, false, Perm, All,
  length, ltb, Bool-cases, if◌then◌else◌,
}
use oadp_vm_file_restore.FileRestore.Types.{RestoreInfo}
use oadp_vm_file_restore.FileRestore.Restores.{
  time_of, exchange, rounds, sort_restores_by_timestamp,
}

-- Newest first: no later restore of the list is newer.
pub IsNewestFirst : List RestoreInfo → Type 0
IsNewestFirst [] = Unit
IsNewestFirst (r ∷ rs) = All (λ s. time_of s ≤ time_of r) rs × IsNewestFirst rs

NoneAfter : ℕ → List RestoreInfo → Type 0
NoneAfter t l = All (λ r. time_of r ≤ t) l

NoneAfter-mono : (t u : ℕ) (l : List RestoreInfo) → t ≤ u → NoneAfter t l → NoneAfter u l
unfolding NoneAfter
NoneAfter-mono t u [] h a = tt
NoneAfter-mono t u (r ∷ l) h a = (omega (arith, a.0), NoneAfter-mono t u l h a.1)

exchange-NoneAfter :
    (t : ℕ) (x : RestoreInfo) (xs : List RestoreInfo)
    → time_of x ≤ t
    → NoneAfter t xs
    → (time_of (exchange x xs).0 ≤ t) × NoneAfter t (exchange x xs).1
unfolding NoneAfter exchange
exchange-NoneAfter t x [] h a = (h, tt)
exchange-NoneAfter t x (y ∷ ys) h a = elim (Bool-cases (ltb (time_of x) (time_of y))) [
  | inl e ↦ rw e (let r = exchange-NoneAfter t y ys a.0 a.1 in (r.0, (h, r.1)))
  | inr e ↦ rw e (let r = exchange-NoneAfter t x ys h a.1 in (r.0, (a.0, r.1)))
]

newest_after :
    (later : Bool) (x y : RestoreInfo) (ys : List RestoreInfo)
    → ltb (time_of x) (time_of y) ≡ later
    → ((z : RestoreInfo)
        → (time_of z ≤ time_of (exchange z ys).0)
          × NoneAfter (time_of (exchange z ys).0) (exchange z ys).1)
    → (time_of x ≤ time_of (exchange (if later then y else x) ys).0)
      × (time_of (if later then x else y) ≤ time_of (exchange (if later then y else x) ys).0)
      × NoneAfter
          (time_of (exchange (if later then y else x) ys).0)
          (exchange (if later then y else x) ys).1
newest_after true x y ys e h = let r = h y in (ground (arith, r.0, e), ground (arith, r.0, e), r.1)
newest_after false x y ys e h = let r = h x in (r.0, ground (arith, r.0, e), r.1)

-- The element that ends in front is as new as the one that was there, and as any other.
exchange-newest :
    (x : RestoreInfo) (xs : List RestoreInfo)
    → (time_of x ≤ time_of (exchange x xs).0)
      × NoneAfter (time_of (exchange x xs).0) (exchange x xs).1
unfolding NoneAfter exchange
exchange-newest x [] = (omega arith, tt)
exchange-newest x (y ∷ ys) =
    let r = newest_after (ltb (time_of x) (time_of y)) x y ys refl (λ z. exchange-newest z ys) in
    (r.0, (r.1, r.2))

exchange-perm :
    (x : RestoreInfo) (xs : List RestoreInfo)
    → Perm (x ∷ xs) ((exchange x xs).0 ∷ (exchange x xs).1)
unfolding exchange
exchange-perm x [] = Perm.rfl
exchange-perm x (y ∷ ys) = elim (Bool-cases (ltb (time_of x) (time_of y))) [
  | inl e ↦ rw e (Perm.trans (Perm.cons x (exchange-perm y ys)) (Perm.swap _ x _))
  | inr e ↦ rw e (
      Perm.trans (Perm.swap y x ys)
        (Perm.trans (Perm.cons y (exchange-perm x ys)) (Perm.swap _ y _)))
]

length-exchange : (x : RestoreInfo) (xs : List RestoreInfo) → length (exchange x xs).1 ≡ length xs
unfolding exchange
length-exchange x [] = refl
length-exchange x (y ∷ ys) = elim (Bool-cases (ltb (time_of x) (time_of y))) [
  | inl e ↦ rw e (ground (arith, length-exchange y ys))
  | inr e ↦ rw e (ground (arith, length-exchange x ys))
]

rounds-NoneAfter : (t n : ℕ) (l : List RestoreInfo) → NoneAfter t l → NoneAfter t (rounds n l)
unfolding NoneAfter rounds
rounds-NoneAfter t zero l a = a
rounds-NoneAfter t (suc n) [] a = tt
rounds-NoneAfter t (suc n) (x ∷ xs) a =
    let r = exchange-NoneAfter t x xs a.0 a.1 in (r.0, rounds-NoneAfter t n _ r.1)

rounds-IsNewestFirst : (n : ℕ) (l : List RestoreInfo) → n ≡ length l → IsNewestFirst (rounds n l)
unfolding IsNewestFirst NoneAfter rounds
rounds-IsNewestFirst zero [] e = tt
rounds-IsNewestFirst zero (x ∷ xs) e = absurd (ground (arith, e))
rounds-IsNewestFirst (suc n) [] e = tt
rounds-IsNewestFirst (suc n) (x ∷ xs) e = (
  rounds-NoneAfter _ n _ (exchange-newest x xs).1,
  rounds-IsNewestFirst n _ (ground (arith, e, length-exchange x xs)),
)

rounds-perm : (n : ℕ) (l : List RestoreInfo) → Perm l (rounds n l)
unfolding rounds
rounds-perm zero l = Perm.rfl
rounds-perm (suc n) [] = Perm.rfl
rounds-perm (suc n) (x ∷ xs) =
    Perm.trans (exchange-perm x xs) (Perm.cons _ (rounds-perm n (exchange x xs).1))

-- The exchanges leave the same restores, newest first; a restore without a time is the oldest.
pub sort_restores_by_timestamp_lem :
    (restores : List RestoreInfo)
    → IsNewestFirst (sort_restores_by_timestamp restores)
      × Perm restores (sort_restores_by_timestamp restores)
unfolding sort_restores_by_timestamp
sort_restores_by_timestamp_lem restores =
    (rounds-IsNewestFirst (length restores) restores refl, rounds-perm (length restores) restores)
