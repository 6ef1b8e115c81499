-- ===== src/Discovery/Batch/Examined.antt =====
-- The batches of one, two and three entries: which slot each worker writes, and what is read back.
use mathlib.Core.List.{perm_middle}
use mathlib.Core.List.Perm
use oadp_vm_file_restore.Prelude.{
  ℕ, ◌+◌, ◌%◌, ◌≤◌, List, [], ◌∷◌, ◌++◌, map, Perm, Bool, ◌≡◌, ◌≢◌, refl, ◌∙◌, ap, arith, inl, inr,
  String, length, upto, modify, get_elem?, some, count_if,
}
use oadp_vm_file_restore.Api.{VeleroBackupInfo, BackupDiscoveryProgress, DiscoveryStatus}
use oadp_vm_file_restore.Discovery.Batch.{
  Slot, slot_of, results_of, update_results, empty_slot, run_workers,
}
use oadp_vm_file_restore.Discovery.Finalize.{valid_of}
use oadp_vm_file_restore.Discovery.Batch.Results.{
  Entries, in_order, judged, add_found, update-step, count-add_found, run-step, Examined,
  count-valid_of-cons, mod_two, mod_three, upto_one, upto_two, upto_three,
}

module _ (judge : VeleroBackupInfo → DiscoveryStatus × String) (now : ℕ) (xs zs : Entries)
    (found : List VeleroBackupInfo) where
  abbrev slot : ℕ → BackupDiscoveryProgress → Slot
  slot k y = slot_of judge (length xs + k) y.info

  abbrev mark : ℕ → Entries → Entries
  mark k ys = modify ys k (judged judge now)

  abbrev add : BackupDiscoveryProgress → List VeleroBackupInfo → List VeleroBackupInfo
  add = add_found judge now

  abbrev write_back : List Slot → Entries → Entries × List VeleroBackupInfo
  write_back slots ys = update_results now slots (xs ++ ys) found

  abbrev work : ℕ → Entries → List ℕ → List Slot → List Slot
  work size ys = run_workers judge size (xs ++ ys)

  examined :
      (ys : Entries) (slots : List Slot) (found' : List VeleroBackupInfo)
      → results_of judge (xs ++ (ys ++ zs)) (upto (length xs) (length ys)) ≡ slots
      → Perm slots (in_order judge (length xs) 0 ys)
      → write_back slots (ys ++ zs) ≡ (xs ++ (map (judged judge now) ys ++ zs), found')
      → ((p : VeleroBackupInfo → Bool)
          → count_if p found'
            ≡ count_if p found + count_if p (valid_of (map (judged judge now) ys)))
      → Examined judge now xs ys zs found
  examined ys slots found' results same written counts = record {
    slots = slots;
    slots_eq = results;
    slots_perm = same;
    progress_eq = ap (λ (r : Entries × List VeleroBackupInfo). r.0) written;
    found_eq = λ p. ap (λ (r : Entries × List VeleroBackupInfo). count_if p r.1) written ∙ counts p;
  }

  one_written :
      (ys : Entries) (a : BackupDiscoveryProgress) (i : ℕ)
      → get_elem? ys i ≡ some a
      → write_back (slot i a ∷ []) ys ≡ (xs ++ mark i ys, add a found)
  unfolding update_results
  one_written ys a i ha = update-step judge now xs ys i a [] found ha

  two_written :
      (ys : Entries) (a b : BackupDiscoveryProgress) (i j : ℕ)
      → get_elem? ys i ≡ some a
      → get_elem? (mark i ys) j ≡ some b
      → write_back (slot i a ∷ slot j b ∷ []) ys ≡ (xs ++ mark j (mark i ys), add b (add a found))
  unfolding update_results
  two_written ys a b i j ha hb =
      update-step judge now xs ys i a (slot j b ∷ []) found ha
      ∙ update-step judge now xs (mark i ys) j b [] (add a found) hb

  three_written :
      (ys : Entries) (a b c : BackupDiscoveryProgress) (i j k : ℕ)
      → get_elem? ys i ≡ some a
      → get_elem? (mark i ys) j ≡ some b
      → get_elem? (mark j (mark i ys)) k ≡ some c
      → write_back (slot i a ∷ slot j b ∷ slot k c ∷ []) ys
        ≡ (xs ++ mark k (mark j (mark i ys)), add c (add b (add a found)))
  unfolding update_results
  three_written ys a b c i j k ha hb hc =
      update-step judge now xs ys i a (slot j b ∷ slot k c ∷ []) found ha
      ∙ update-step judge now xs (mark i ys) j b (slot k c ∷ []) (add a found) hb
      ∙ update-step judge now xs (mark j (mark i ys)) k c [] (add b (add a found)) hc

  abbrev counted : (VeleroBackupInfo → Bool) → BackupDiscoveryProgress → ℕ
  counted p y = count_if p (valid_of (judged judge now y ∷ []))

  Examined-one : (y : BackupDiscoveryProgress) → Examined judge now xs (y ∷ []) zs found
  unfolding results_of in_order run_workers
  Examined-one y =
      examined (y ∷ []) (slot 0 y ∷ []) (add y found)
        (rw (upto_one (length xs))
          (run-step judge now 1 xs (y ∷ zs) 0 0 [] (empty_slot ∷ []) refl (omega arith)))
        Perm.rfl (one_written (y ∷ zs) y 0 refl) (λ p. count-add_found judge now p y found)

  -- the counts of two and of three entries, found in any order
  count_two :
      (p : VeleroBackupInfo → Bool) (a b y z : BackupDiscoveryProgress)
      → counted p a + counted p b ≡ counted p y + counted p z
      → count_if p (add b (add a found))
        ≡ count_if p found + count_if p (valid_of (map (judged judge now) (y ∷ z ∷ [])))
  count_two p a b y z h = omega (
    arith,
    count-add_found judge now p b (add a found),
    count-add_found judge now p a found,
    count-valid_of-cons judge now p (judged judge now y) (judged judge now z ∷ []),
  )

  count_three :
      (p : VeleroBackupInfo → Bool) (a b c y z u : BackupDiscoveryProgress)
      → counted p a + counted p b + counted p c ≡ counted p y + counted p z + counted p u
      → count_if p (add c (add b (add a found)))
        ≡ count_if p found + count_if p (valid_of (map (judged judge now) (y ∷ z ∷ u ∷ [])))
  count_three p a b c y z u h = omega (
    arith,
    count-add_found judge now p c (add b (add a found)),
    count-add_found judge now p b (add a found),
    count-add_found judge now p a found,
    count-valid_of-cons judge now p (judged judge now y)
        (judged judge now z ∷ judged judge now u ∷ []),
    count-valid_of-cons judge now p (judged judge now z) (judged judge now u ∷ []),
  )

  worked_two :
      (y z : BackupDiscoveryProgress) (i j : ℕ)
      → (length xs + 0) % 2 ≡ i
      → (length xs + 1) % 2 ≡ j
      → results_of judge (xs ++ (y ∷ z ∷ zs)) (upto (length xs) 2)
        ≡ modify (modify (empty_slot ∷ empty_slot ∷ []) i (λ _. slot 0 y)) j (λ _. slot 1 z)
  unfolding results_of run_workers
  worked_two y z i j hi hj = rw (upto_two (length xs)) (
      run-step judge now 2 xs (y ∷ z ∷ zs) 0 i ((length xs + 1) ∷ []) _ refl hi
      ∙ run-step judge now 2 xs (y ∷ z ∷ zs) 1 j [] _ refl hj)

  worked_three :
      (y z u : BackupDiscoveryProgress) (i j k : ℕ)
      → (length xs + 0) % 3 ≡ i
      → (length xs + 1) % 3 ≡ j
      → (length xs + 2) % 3 ≡ k
      → results_of judge (xs ++ (y ∷ z ∷ u ∷ zs)) (upto (length xs) 3)
        ≡ modify
            (modify
              (modify (empty_slot ∷ empty_slot ∷ empty_slot ∷ []) i (λ _. slot 0 y))
              j
              (λ _. slot 1 z))
            k
            (λ _. slot 2 u)
  unfolding results_of run_workers
  worked_three y z u i j k hi hj hk = rw (upto_three (length xs)) (
      run-step judge now 3 xs (y ∷ z ∷ u ∷ zs) 0 i ((length xs + 1) ∷ (length xs + 2) ∷ []) _ refl
        hi
      ∙ run-step judge now 3 xs (y ∷ z ∷ u ∷ zs) 1 j ((length xs + 2) ∷ []) _ refl hj
      ∙ run-step judge now 3 xs (y ∷ z ∷ u ∷ zs) 2 k [] _ refl hk)

  Examined-two : (y z : BackupDiscoveryProgress) → Examined judge now xs (y ∷ z ∷ []) zs found
  unfolding in_order
  Examined-two y z = elim (mod_two (length xs)) [
    | inl (m, n) ↦
        examined (y ∷ z ∷ []) (slot 0 y ∷ slot 1 z ∷ []) _ (worked_two y z 0 1 m n) Perm.rfl
          (two_written (y ∷ z ∷ zs) y z 0 1 refl refl) (λ p. count_two p y z y z refl)
    | inr (m, n) ↦
        examined (y ∷ z ∷ []) (slot 1 z ∷ slot 0 y ∷ []) _ (worked_two y z 1 0 m n)
          (Perm.swap _ _ []) (two_written (y ∷ z ∷ zs) z y 1 0 refl refl)
          (λ p. count_two p z y y z (omega arith))
  ]

  Examined-three :
      (y z u : BackupDiscoveryProgress) → Examined judge now xs (y ∷ z ∷ u ∷ []) zs found
  unfolding in_order
  Examined-three y z u = elim (mod_three (length xs)) [
    | inl (l, m, n) ↦
        examined (y ∷ z ∷ u ∷ []) (slot 0 y ∷ slot 1 z ∷ slot 2 u ∷ []) _
          (worked_three y z u 0 1 2 l m n) Perm.rfl
          (three_written (y ∷ z ∷ u ∷ zs) y z u 0 1 2 refl refl refl)
          (λ p. count_three p y z u y z u refl)
    | inr rotated ↦ elim rotated [
      | inl (l, m, n) ↦
          examined (y ∷ z ∷ u ∷ []) (slot 2 u ∷ slot 0 y ∷ slot 1 z ∷ []) _
            (worked_three y z u 1 2 0 l m n) (Perm.symm (perm_middle (slot 0 y ∷ slot 1 z ∷ []) []))
            (three_written (y ∷ z ∷ u ∷ zs) u y z 2 0 1 refl refl refl)
            (λ p. count_three p u y z y z u (omega arith))
      | inr (l, m, n) ↦
          examined (y ∷ z ∷ u ∷ []) (slot 1 z ∷ slot 2 u ∷ slot 0 y ∷ []) _
            (worked_three y z u 2 0 1 l m n) (perm_middle (slot 1 z ∷ slot 2 u ∷ []) [])
            (three_written (y ∷ z ∷ u ∷ zs) z u y 1 2 0 refl refl refl)
            (λ p. count_three p z u y y z u (omega arith))
    ]
  ]

  -- In a batch of one to three entries that stand together, wherever it begins, the workers' slots
  -- hold each entry's own result, each once; writing them back gives each entry its own status and
  -- message and leaves the others, and the backups added to those found are the batch's completed
  -- ones, each as often.
  pub batch-Examined : (ys : Entries) → length ys ≤ 3 → ys ≢ [] → Examined judge now xs ys zs found
  batch-Examined [] h e = absurd (e refl)
  batch-Examined (y ∷ []) h e = Examined-one y
  batch-Examined (y ∷ z ∷ []) h e = Examined-two y z
  batch-Examined (y ∷ z ∷ u ∷ []) h e = Examined-three y z u
  batch-Examined (y ∷ z ∷ u ∷ v ∷ ys) h e = absurd (omega arith)
