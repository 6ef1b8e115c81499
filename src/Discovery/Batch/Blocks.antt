-- ===== src/Discovery/Batch/Blocks.antt =====
-- Where the entries with status New stand, and what marking the first of them does.
use oadp_vm_file_restore.Prelude.{
  ℕ, suc, ◌+◌, List, [], ◌∷◌, ◌++◌, map, append_assoc, append-nil, true, false, ◌≡◌, refl, ◌∙◌, ap,
  arith, All, length, length-append, upto, modify, modify-append,
}
use native.Mathlib.Nat.{add-zero, zero-add}
use oadp_vm_file_restore.Api.{BackupDiscoveryProgress, is_new}
use oadp_vm_file_restore.Discovery.Batch.{new_indices, mark_batch, in_progress_entry}

abbrev pub IsNew : BackupDiscoveryProgress → Type 0
IsNew b = is_new b.status ≡ true

abbrev pub NotNew : BackupDiscoveryProgress → Type 0
NotNew b = is_new b.status ≡ false

-- The entries with status New stand together.
pub record Blocks (progress : List BackupDiscoveryProgress) : Type 0 where
  pub before : List BackupDiscoveryProgress
  pub block : List BackupDiscoveryProgress
  pub after : List BackupDiscoveryProgress
  pub split : progress ≡ before ++ (block ++ after)
  pub before_done : All NotNew before
  pub block_new : All IsNew block
  pub after_done : All NotNew after

new_indices-before :
    (i : ℕ) (xs rest : List BackupDiscoveryProgress)
    → All NotNew xs
    → new_indices i (xs ++ rest) ≡ new_indices (i + length xs) rest
unfolding new_indices
new_indices-before i [] rest h = rw add-zero
new_indices-before i (x ∷ xs) rest h =
    rw (h.0, new_indices-before (suc i) xs rest h.1) (ap (λ k. new_indices k rest) (omega arith))

new_indices-block :
    (i : ℕ) (ys rest : List BackupDiscoveryProgress)
    → All IsNew ys
    → new_indices i (ys ++ rest) ≡ upto i (length ys) ++ new_indices (i + length ys) rest
unfolding new_indices
new_indices-block i [] rest h = rw add-zero
new_indices-block i (y ∷ ys) rest h =
    rw (h.0, new_indices-block (suc i) ys rest h.1)
      (ap (λ k. i ∷ (upto (suc i) (length ys) ++ new_indices k rest)) (omega arith))

new_indices-done :
    (i : ℕ) (zs : List BackupDiscoveryProgress) → All NotNew zs → new_indices i zs ≡ []
unfolding new_indices
new_indices-done i [] h = refl
new_indices-done i (z ∷ zs) h = rw h.0 (new_indices-done (suc i) zs h.1)

-- The pending indices are those of the block, in order.
pub new_indices-Blocks :
    (xs ys zs : List BackupDiscoveryProgress)
    → All NotNew xs
    → All IsNew ys
    → All NotNew zs
    → new_indices 0 (xs ++ (ys ++ zs)) ≡ upto (length xs) (length ys)
new_indices-Blocks xs ys zs hx hy hz = rw (
  new_indices-before 0 xs (ys ++ zs) hx,
  new_indices-block (0 + length xs) ys zs hy,
  new_indices-done _ zs hz,
  append-nil,
  zero-add,
)

abbrev Entries : Type 0
Entries = List BackupDiscoveryProgress

pub modify_head :
    (xs rest : Entries) (y : BackupDiscoveryProgress)
    (f : BackupDiscoveryProgress → BackupDiscoveryProgress)
    → modify (xs ++ y ∷ rest) (length xs) f ≡ xs ++ f y ∷ rest
modify_head xs rest y f = rw (add-zero (length xs)) at (modify-append xs (y ∷ rest) 0 f)

length_snoc : (xs : Entries) (y : BackupDiscoveryProgress) → length (xs ++ y ∷ []) ≡ suc (length xs)
length_snoc xs y = omega (arith, length-append xs (y ∷ []))

-- Marking the indices of the block marks the block.
pub mark_batch-block :
    (now : ℕ) (xs ys zs : List BackupDiscoveryProgress)
    → mark_batch now (upto (length xs) (length ys)) (xs ++ (ys ++ zs))
      ≡ xs ++ (map (in_progress_entry now) ys ++ zs)
unfolding mark_batch
mark_batch-block now xs [] zs = refl
mark_batch-block now xs (y ∷ ys) zs =
    let f = in_progress_entry now in
    ap (mark_batch now (upto (suc (length xs)) (length ys))) (modify_head xs (ys ++ zs) y f)
    ∙ (rw (length_snoc xs (f y), append_assoc xs (f y ∷ []) (ys ++ zs), append_assoc xs (f y ∷ []))
        at (mark_batch-block now (xs ++ f y ∷ []) ys zs))
