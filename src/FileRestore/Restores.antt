-- ===== src/FileRestore/Restores.antt =====
-- internal/controller/virtualmachinefilerestore_controller.go: sortRestoresByTimestamp, which
-- exchanges elements of a slice in place, and the tests on a PVC's restores.
pub mod Sorted
use oadp_vm_file_restore.Prelude.{
  ℕ, zero, suc, List, [], ◌∷◌, Option, none, some, length, ltb, if◌then◌else◌,
}
use oadp_vm_file_restore.FileRestore.Types.{RestoreInfo}

-- A restore without a time has Go's zero time.
abbrev pub time_of : RestoreInfo → ℕ
time_of r = elim r.timestamp [ none ↦ 0 | some t ↦ t ]

-- The loop over j: `x` is the element at i, and the list holds the elements after it. The result is
-- the element that ends at i, with those after it.
unfoldable pub exchange : RestoreInfo → List RestoreInfo → RestoreInfo × List RestoreInfo
exchange x [] = (x, [])
exchange x (y ∷ ys) =
    let later = ltb (time_of x) (time_of y) in
    let p = exchange (if later then y else x) ys in (p.0, (if later then x else y) ∷ p.1)

-- The loop over i, for as many rounds as there are elements left.
unfoldable pub rounds : ℕ → List RestoreInfo → List RestoreInfo
unfolding exchange
rounds zero l = l
rounds (suc n) [] = []
rounds (suc n) (x ∷ xs) = let p = exchange x xs in p.0 ∷ rounds n p.1

unfoldable pub sort_restores_by_timestamp : List RestoreInfo → List RestoreInfo
unfolding rounds
sort_restores_by_timestamp restores = rounds (length restores) restores
