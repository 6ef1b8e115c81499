-- ===== src/Discovery/Invariant/Finish.antt =====
-- The statistics after the results of a batch are written back.
use oadp_vm_file_restore.Prelude.{
  ℕ, suc, ◌+◌, ◌≤◌, ◌≡◌, refl, sym, ap, ◌∙◌, arith, String, List, [], ◌∷◌, ◌++◌, map, Perm, Bool,
  true, false, ◌||◌, ℤ, pos, ◌+ℤ◌, ◌-ℤ◌, pos-+ℤ, length, length-map, count_if, count_if-perm, All,
  if◌then◌else◌,
}
use oadp_vm_file_restore.Api.{
  VeleroBackupInfo, DiscoveryStatus, is_new, is_in_progress, is_completed, DiscoveryStatistics,
}
use oadp_vm_file_restore.Discovery.Batch.{Slot, slot_of, count_results, count_result}
use oadp_vm_file_restore.Discovery.Batch.Results.{in_order, judged}
use oadp_vm_file_restore.Discovery.Invariant.{is_skipped, is_failed, is_unset, tally, Counts}
use oadp_vm_file_restore.Discovery.Invariant.Operations.{
  Entries, HasStatus, tally-All, tally_replace, length_replace, sub_field, same_field,
}

-- A worker's verdict: found, not found, or failed.
abbrev pub is_final : DiscoveryStatus → Bool
is_final status = is_completed status || is_skipped status || is_failed status

slots_with : (DiscoveryStatus → Bool) → List Slot → ℕ
slots_with test slots = count_if (λ slot. test slot.status) slots

count_if-true {ℓ} : {A : Type ℓ} (l : List A) → count_if (λ _. true) l ≡ length l
count_if-true [] = refl
count_if-true (x ∷ l) = ap suc (count_if-true l)

pub not_final_new : (s : DiscoveryStatus) → is_final s ≡ true → is_new s ≡ false
not_final_new s e = ground arith

not_final_in_progress : (s : DiscoveryStatus) → is_final s ≡ true → is_in_progress s ≡ false
not_final_in_progress s e = ground arith

not_final_unset : (s : DiscoveryStatus) → is_final s ≡ true → is_unset s ≡ false
not_final_unset s e = ground arith

abbrev one_if : Bool → ℕ
one_if true = 1
one_if false = 0

slots_with-perm :
    (test : DiscoveryStatus → Bool) {slots slots' : List Slot}
    → Perm slots slots'
    → slots_with test slots ≡ slots_with test slots'
unfolding slots_with
slots_with-perm test h = count_if-perm (λ slot. test slot.status) h

slots_with-cons :
    (test : DiscoveryStatus → Bool) (slot : Slot) (slots : List Slot)
    → slots_with test (slot ∷ slots) ≡ one_if (test slot.status) + slots_with test slots
unfolding slots_with
slots_with-cons test slot slots = ground arith

-- The counters after some results were counted: so many more completed, skipped and failed ones.
record Counted (t t' : DiscoveryStatistics) (completed skipped failed : ℕ) : Type 0 where
  completed_eq : (n : ℕ) → t.completed ≡ pos n → t'.completed ≡ pos (n + completed)
  skipped_eq : (n : ℕ) → t.skipped ≡ pos n → t'.skipped ≡ pos (n + skipped)
  failed_eq : (n : ℕ) → t.failed ≡ pos n → t'.failed ≡ pos (n + failed)
  pending_eq : t'.pending ≡ t.pending
  in_progress_eq : t'.in_progress ≡ t.in_progress
  total_eq : t'.total_candidates ≡ t.total_candidates

plus_none : (z : ℤ) (n : ℕ) → z ≡ pos n → z ≡ pos (n + 0)
plus_none z n e = e ∙ ap pos (omega arith)

plus_one : (z : ℤ) (n : ℕ) → z ≡ pos n → z +ℤ pos 1 ≡ pos (n + 1)
plus_one z n e = rw e (pos-+ℤ n 1)

count_result_lem :
    (status : DiscoveryStatus) (t : DiscoveryStatistics)
    → Counted t
        (count_result status t)
        (one_if (is_completed status))
        (one_if (is_skipped status))
        (one_if (is_failed status))
unfolding count_result
count_result_lem DiscoveryStatus.completed t = record {
  completed_eq = plus_one t.completed;
  skipped_eq = plus_none t.skipped;
  failed_eq = plus_none t.failed;
  pending_eq = refl;
  in_progress_eq = refl;
  total_eq = refl;
}
count_result_lem DiscoveryStatus.skipped t = record {
  completed_eq = plus_none t.completed;
  skipped_eq = plus_one t.skipped;
  failed_eq = plus_none t.failed;
  pending_eq = refl;
  in_progress_eq = refl;
  total_eq = refl;
}
count_result_lem DiscoveryStatus.failed t = record {
  completed_eq = plus_none t.completed;
  skipped_eq = plus_none t.skipped;
  failed_eq = plus_one t.failed;
  pending_eq = refl;
  in_progress_eq = refl;
  total_eq = refl;
}
count_result_lem _ t = record {
  completed_eq = plus_none t.completed;
  skipped_eq = plus_none t.skipped;
  failed_eq = plus_none t.failed;
  pending_eq = refl;
  in_progress_eq = refl;
  total_eq = refl;
}

then-Counted :
    {t t' t'' : DiscoveryStatistics} (c s f c' s' f' : ℕ)
    → Counted t t' c s f
    → Counted t' t'' c' s' f'
    → Counted t t'' (c + c') (s + s') (f + f')
then-Counted c s f c' s' f' h k = record {
  completed_eq = λ n e. k.completed_eq (n + c) (h.completed_eq n e) ∙ ap pos (omega arith);
  skipped_eq = λ n e. k.skipped_eq (n + s) (h.skipped_eq n e) ∙ ap pos (omega arith);
  failed_eq = λ n e. k.failed_eq (n + f) (h.failed_eq n e) ∙ ap pos (omega arith);
  pending_eq = k.pending_eq ∙ h.pending_eq;
  in_progress_eq = k.in_progress_eq ∙ h.in_progress_eq;
  total_eq = k.total_eq ∙ h.total_eq;
}

count_results_lem :
    (slots : List Slot) (t : DiscoveryStatistics)
    → Counted t
        (count_results slots t)
        (slots_with is_completed slots)
        (slots_with is_skipped slots)
        (slots_with is_failed slots)
unfolding count_results
count_results_lem [] t =
    unfold slots_with in
    record {
      completed_eq = plus_none t.completed;
      skipped_eq = plus_none t.skipped;
      failed_eq = plus_none t.failed;
      pending_eq = refl;
      in_progress_eq = refl;
      total_eq = refl;
    }
count_results_lem (slot ∷ slots) t =
    rw
      (
        slots_with-cons is_completed slot slots,
        slots_with-cons is_skipped slot slots,
        slots_with-cons is_failed slot slots,
      )
      (then-Counted _ _ _ _ _ _ (count_result_lem slot.status t)
        (count_results_lem slots (count_result slot.status t)))

module _ (judge : VeleroBackupInfo → DiscoveryStatus × String) (now : ℕ) where
  -- The slots of a block count as its entries do once they are judged.
  slots_with-in_order :
      (test : DiscoveryStatus → Bool) (a k : ℕ) (ys : Entries)
      → slots_with test (in_order judge a k ys) ≡ tally test (map (judged judge now) ys)
  unfolding slots_with in_order slot_of
  slots_with-in_order test a k [] = refl
  slots_with-in_order test a k (y ∷ ys) = ground (arith, slots_with-in_order test a (suc k) ys)

  length-in_order : (a k : ℕ) (ys : Entries) → length (in_order judge a k ys) ≡ length ys
  unfolding in_order
  length-in_order a k [] = refl
  length-in_order a k (y ∷ ys) = ap suc (length-in_order a (suc k) ys)

  module _ (final : (i : VeleroBackupInfo) → is_final (judge i).0 ≡ true) where
    -- A judged entry is neither pending, nor in progress, nor without a status.
    tally-judged :
        (test : DiscoveryStatus → Bool) (ys : Entries)
        → ((status : DiscoveryStatus) → is_final status ≡ true → test status ≡ false)
        → tally test (map (judged judge now) ys) ≡ 0
    tally-judged test [] h = refl
    tally-judged test (y ∷ ys) h = rw (h (judge y.info).0 (final y.info)) (tally-judged test ys h)

    -- The statistics stay right when a batch of entries in progress gets its results.
    pub finish-Counts :
        (missing : ℕ) (stats : DiscoveryStatistics) (xs ys zs : Entries) (slots : List Slot)
        → All (HasStatus DiscoveryStatus.in_progress) ys
        → Perm slots (in_order judge (length xs) 0 ys)
        → Counts missing stats (xs ++ (ys ++ zs))
        → Counts missing
            (count_results slots
              (record stats { in_progress = stats.in_progress -ℤ pos (length slots) }))
            (xs ++ (map (judged judge now) ys ++ zs))
    finish-Counts missing stats xs ys zs slots busy same c = record {
      pending_eq =
          k.pending_eq
          ∙ same_field _ _ _ c.pending_eq (omega (arith, (r is_new).0, old is_new, gone_new));
      in_progress_eq =
          k.in_progress_eq
          ∙ sub_field _ _ _ _ c.in_progress_eq
              (omega (arith, (r is_in_progress).1, old is_in_progress, size))
              (omega (arith, (r is_in_progress).0, old is_in_progress, gone_in_progress, size));
      completed_eq =
          k.completed_eq _ c.completed_eq
          ∙ ap pos (omega (arith, (r is_completed).0, old is_completed, counted is_completed));
      skipped_eq =
          k.skipped_eq _ c.skipped_eq
          ∙ ap pos (omega (arith, (r is_skipped).0, old is_skipped, counted is_skipped));
      failed_eq =
          k.failed_eq _ c.failed_eq
          ∙ ap pos (omega (arith, (r is_failed).0, old is_failed, counted is_failed));
      total_eq =
          k.total_eq
          ∙ same_field _ _ _ c.total_eq
              (omega (arith, length_replace xs ys ys' zs (sym (length-map (judged judge now) ys))));
      none_unset = omega (arith, (r is_unset).0, old is_unset, gone_unset, c.none_unset);
    }
      where
        ys' : Entries
        ys' = map (judged judge now) ys

        started : DiscoveryStatistics
        started = record stats { in_progress = stats.in_progress -ℤ pos (length slots) }

        k :
            Counted started
              (count_results slots started)
              (slots_with is_completed slots)
              (slots_with is_skipped slots)
              (slots_with is_failed slots)
        k = count_results_lem slots started

        r :
            (test : DiscoveryStatus → Bool)
            → (tally test (xs ++ (ys' ++ zs)) + tally test ys
                ≡ tally test (xs ++ (ys ++ zs)) + tally test ys')
              × (tally test ys ≤ tally test (xs ++ (ys ++ zs)))
        r test = tally_replace test xs ys ys' zs

        old :
            (test : DiscoveryStatus → Bool)
            → tally test ys ≡ (if test DiscoveryStatus.in_progress then length ys else 0)
        old test = tally-All test DiscoveryStatus.in_progress ys busy

        counted : (test : DiscoveryStatus → Bool) → slots_with test slots ≡ tally test ys'
        counted test = slots_with-perm test same ∙ slots_with-in_order test (length xs) 0 ys

        size : length slots ≡ length ys
        size =
            sym (count_if-true slots)
            ∙ count_if-perm (λ _. true) same
            ∙ count_if-true (in_order judge (length xs) 0 ys)
            ∙ length-in_order (length xs) 0 ys

        gone_new : tally is_new ys' ≡ 0
        gone_new = tally-judged is_new ys not_final_new

        gone_in_progress : tally is_in_progress ys' ≡ 0
        gone_in_progress = tally-judged is_in_progress ys not_final_in_progress

        gone_unset : tally is_unset ys' ≡ 0
        gone_unset = tally-judged is_unset ys not_final_unset
