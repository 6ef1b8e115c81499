-- ===== src/Discovery/Batch/Results.antt =====
-- The slots that the workers of a batch write to, a worker at a time, and writing them back.
use oadp_vm_file_restore.Prelude.{
  ℕ, zero, suc, ◌+◌, ◌%◌, List, [], ◌∷◌, ◌++◌, map, Perm, Bool, ◌≡◌, ◌∙◌, ap, arith, ◌⊎◌, String,
  length, upto, modify, get_elem?, modify-append, get_elem?-append, some, count_if, count_if-append,
  if◌then◌else◌,
}
use oadp_vm_file_restore.Api.{
  VeleroBackupInfo, BackupDiscoveryProgress, DiscoveryStatus, is_completed,
}
use oadp_vm_file_restore.Discovery.Batch.{
  Slot, slot_of, run_workers, results_of, write_result, update_results,
}
use oadp_vm_file_restore.Discovery.Finalize.{valid_of}

abbrev pub Entries : Type 0
Entries = List BackupDiscoveryProgress

-- an index of the block, modulo the size of the batch
pub mod_two :
    (a : ℕ) → (((a + 0) % 2 ≡ 0) × ((a + 1) % 2 ≡ 1)) ⊎ (((a + 0) % 2 ≡ 1) × ((a + 1) % 2 ≡ 0))
mod_two a = grind arith

pub mod_three :
    (a : ℕ)
    → (((a + 0) % 3 ≡ 0) × ((a + 1) % 3 ≡ 1) × ((a + 2) % 3 ≡ 2))
      ⊎ (((a + 0) % 3 ≡ 1) × ((a + 1) % 3 ≡ 2) × ((a + 2) % 3 ≡ 0))
      ⊎ (((a + 0) % 3 ≡ 2) × ((a + 1) % 3 ≡ 0) × ((a + 2) % 3 ≡ 1))
mod_three a = grind arith

pub upto_one : (a : ℕ) → upto a 1 ≡ (a + 0) ∷ []
upto_one a = ground arith

pub upto_two : (a : ℕ) → upto a 2 ≡ (a + 0) ∷ (a + 1) ∷ []
upto_two a = ground arith

pub upto_three : (a : ℕ) → upto a 3 ≡ (a + 0) ∷ (a + 1) ∷ (a + 2) ∷ []
upto_three a = ground arith

module _ (judge : VeleroBackupInfo → DiscoveryStatus × String) where
  -- the slots of a block in its order
  unfoldable pub in_order : ℕ → ℕ → Entries → List Slot
  in_order a k [] = []
  in_order a k (y ∷ ys) = slot_of judge (a + k) y.info ∷ in_order a (suc k) ys

  module _ (now : ℕ) where
    -- an entry with its own result
    abbrev pub judged : BackupDiscoveryProgress → BackupDiscoveryProgress
    judged b = record b {
      status = (judge b.info).0;
      message = (judge b.info).1;
      last_updated = some now;
    }

    pub add_found : BackupDiscoveryProgress → List VeleroBackupInfo → List VeleroBackupInfo
    add_found y found = if is_completed (judge y.info).0 then found ++ y.info ∷ [] else found

    -- A write of the slot at an entry's index writes the entry's own result.
    get-modify :
        (ys : Entries) (k i : ℕ) (y : BackupDiscoveryProgress)
        → get_elem? ys k ≡ some y
        → (get_elem? (modify ys k (write_result now (slot_of judge i y.info))) k ≡ some (judged y))
          × (modify ys k (write_result now (slot_of judge i y.info)) ≡ modify ys k judged)
    unfolding write_result slot_of
    get-modify [] k i y h = cc
    get-modify (x ∷ xs) zero i y h = (ground arith, ground arith)
    get-modify (x ∷ xs) (suc k) i y h =
        ((get-modify xs k i y h).0, ap (◌∷◌ x) (get-modify xs k i y h).1)

    pub update-step :
        (xs ys : Entries) (k : ℕ) (y : BackupDiscoveryProgress) (slots : List Slot)
        (found : List VeleroBackupInfo)
        → get_elem? ys k ≡ some y
        → update_results now (slot_of judge (length xs + k) y.info ∷ slots) (xs ++ ys) found
          ≡ update_results now slots (xs ++ modify ys k judged) (add_found y found)
    unfolding update_results add_found slot_of
    update-step xs ys k y slots found h =
        let slot : Slot = slot_of judge (length xs + k) y.info in
        let written : Entries = modify ys k (write_result now slot) in
        let kept = get-modify ys k (length xs + k) y h in
        let got : get_elem? (xs ++ written) (length xs + k) ≡ some (judged y) =
          get_elem?-append xs written k ∙ kept.0 in
        rw (modify-append xs ys k (write_result now slot), got, kept.1)

    pub count-add_found :
        (p : VeleroBackupInfo → Bool) (y : BackupDiscoveryProgress) (found : List VeleroBackupInfo)
        → count_if p (add_found y found) ≡ count_if p found + count_if p (valid_of (judged y ∷ []))
    unfolding add_found valid_of
    count-add_found p y found = ground (arith, count_if-append p found (y.info ∷ []))

    -- A batch's slots hold the results of its entries, each once; writing them back gives each
    -- entry its own result, and the backups found are those of the completed entries.
    pub record Examined (xs ys zs : Entries) (found : List VeleroBackupInfo) : Type 0 where
      pub slots : List Slot
      pub slots_eq : results_of judge (xs ++ (ys ++ zs)) (upto (length xs) (length ys)) ≡ slots
      pub slots_perm : Perm slots (in_order (length xs) 0 ys)
      pub progress_eq :
          (update_results now slots (xs ++ (ys ++ zs)) found).0 ≡ xs ++ (map judged ys ++ zs)
      pub found_eq :
          (p : VeleroBackupInfo → Bool)
          → count_if p (update_results now slots (xs ++ (ys ++ zs)) found).1
            ≡ count_if p found + count_if p (valid_of (map judged ys))

    pub run-step :
        (size : ℕ) (xs ys : Entries) (k j : ℕ) (batch : List ℕ) (results : List Slot)
        {y : BackupDiscoveryProgress}
        → get_elem? ys k ≡ some y
        → (length xs + k) % size ≡ j
        → run_workers judge size (xs ++ ys) ((length xs + k) ∷ batch) results
          ≡ run_workers judge size
              (xs ++ ys)
              batch
              (modify results j (λ _. slot_of judge (length xs + k) y.info))
    unfolding run_workers
    run-step size xs ys k j batch results h m = rw (get_elem?-append xs ys k ∙ h, m)

    pub count-valid_of-cons :
        (p : VeleroBackupInfo → Bool) (b : BackupDiscoveryProgress) (rest : Entries)
        → count_if p (valid_of (b ∷ rest))
          ≡ count_if p (valid_of (b ∷ [])) + count_if p (valid_of rest)
    unfolding valid_of
    count-valid_of-cons p b rest = ground arith
