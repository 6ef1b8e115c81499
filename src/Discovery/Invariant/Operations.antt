-- ===== src/Discovery/Invariant/Operations.antt =====
-- Counting entries by their status, and the counters when entries change their status.
use oadp_vm_file_restore.Prelude.{
  ℕ, ◌+◌, ◌-◌, ◌≤◌, ◌≡◌, refl, sym, ap, ◌∙◌, arith, List, [], ◌∷◌, ◌++◌, map, Bool, ℤ, pos, ◌+ℤ◌,
  ◌-ℤ◌, pos-+ℤ, pos--ℤ, length, length-append, count_if-append, All, if◌then◌else◌,
}
use oadp_vm_file_restore.Api.{
  DiscoveryStatus, is_new, is_in_progress, is_completed, BackupDiscoveryProgress,
  DiscoveryStatistics,
}
use oadp_vm_file_restore.Discovery.Batch.{in_progress_entry}
use oadp_vm_file_restore.Discovery.Batch.Blocks.{IsNew}
use oadp_vm_file_restore.Discovery.Invariant.{is_skipped, is_failed, is_unset, tally, Counts}

abbrev pub Entries : Type 0
Entries = List BackupDiscoveryProgress

pub tally-append :
    (test : DiscoveryStatus → Bool) (xs ys : Entries)
    → tally test (xs ++ ys) ≡ tally test xs + tally test ys
tally-append test xs ys = count_if-append _ xs ys

-- entries of one status
abbrev pub HasStatus : DiscoveryStatus → BackupDiscoveryProgress → Type 0
HasStatus status b = b.status ≡ status

pub tally-All :
    (test : DiscoveryStatus → Bool) (status : DiscoveryStatus) (ys : Entries)
    → All (HasStatus status) ys
    → tally test ys ≡ (if test status then length ys else 0)
tally-All test status [] h = ground arith
tally-All test status (y ∷ ys) h = ground (arith, ap test h.0, tally-All test status ys h.1)

pub IsNew-HasStatus : (ys : Entries) → All IsNew ys → All (HasStatus DiscoveryStatus.new) ys
IsNew-HasStatus [] h = tt
IsNew-HasStatus (y ∷ ys) h = (ground arith, IsNew-HasStatus ys h.1)

pub map-in_progress :
    (now : ℕ) (ys : Entries)
    → All (HasStatus DiscoveryStatus.in_progress) (map (in_progress_entry now) ys)
map-in_progress now [] = tt
map-in_progress now (y ∷ ys) = (refl, map-in_progress now ys)

-- A part of the entries is replaced.
pub tally_replace :
    (test : DiscoveryStatus → Bool) (xs ys ys' zs : Entries)
    → (tally test (xs ++ (ys' ++ zs)) + tally test ys
        ≡ tally test (xs ++ (ys ++ zs)) + tally test ys')
      × (tally test ys ≤ tally test (xs ++ (ys ++ zs)))
tally_replace test xs ys ys' zs =
    let outer = tally-append test xs (ys ++ zs) in
    let inner = tally-append test ys zs in
    let outer' = tally-append test xs (ys' ++ zs) in
    let inner' = tally-append test ys' zs in
    (omega (arith, outer, inner, outer', inner'), omega (arith, outer, inner))

pub length_replace :
    (xs ys ys' zs : Entries)
    → length ys ≡ length ys'
    → length (xs ++ (ys' ++ zs)) ≡ length (xs ++ (ys ++ zs))
length_replace xs ys ys' zs h = omega (
  arith,
  length-append xs (ys ++ zs),
  length-append xs (ys' ++ zs),
  length-append ys zs,
  length-append ys' zs,
)

pub sub_field : (z : ℤ) (a b k : ℕ) → z ≡ pos a → k ≤ a → b ≡ a - k → z -ℤ pos k ≡ pos b
sub_field z a b k e h f = rw (e, f) (pos--ℤ a k h)

pub add_field : (z : ℤ) (a b k : ℕ) → z ≡ pos a → b ≡ a + k → z +ℤ pos k ≡ pos b
add_field z a b k e f = rw (e, f) (pos-+ℤ a k)

pub same_field : (z : ℤ) (a b : ℕ) → z ≡ pos a → b ≡ a → z ≡ pos b
same_field z a b e f = rw (e, f)

-- Entries of one status become entries of another.
module _ (xs ys ys' zs : Entries) (old new : DiscoveryStatus) (is_old : All (HasStatus old) ys)
    (is_now : All (HasStatus new) ys') (same_length : length ys ≡ length ys') where
  moved :
      (test : DiscoveryStatus → Bool)
      → (tally test (xs ++ (ys' ++ zs)) + (if test old then length ys else 0)
          ≡ tally test (xs ++ (ys ++ zs)) + (if test new then length ys else 0))
        × ((if test old then length ys else 0) ≤ tally test (xs ++ (ys ++ zs)))
  moved test =
      let r = tally_replace test xs ys ys' zs in
      let e = tally-All test old ys is_old in
      let e' = tally-All test new ys' is_now in
      rw (← e) (
        r.0
            ∙ ap (λ k. tally test (xs ++ (ys ++ zs)) + k) e'
            ∙ ap (λ n. tally test (xs ++ (ys ++ zs)) + (if test new then n else 0))
                (sym same_length),
        r.1,
      )

-- `k` pending entries are now in progress.
pub start-Counts :
    (missing : ℕ) (stats : DiscoveryStatistics) (xs ys ys' zs : Entries)
    → All (HasStatus DiscoveryStatus.new) ys
    → All (HasStatus DiscoveryStatus.in_progress) ys'
    → length ys ≡ length ys'
    → Counts missing stats (xs ++ (ys ++ zs))
    → Counts missing
        (record stats {
          pending = stats.pending -ℤ pos (length ys);
          in_progress = stats.in_progress +ℤ pos (length ys);
        })
        (xs ++ (ys' ++ zs))
start-Counts missing stats xs ys ys' zs is_old is_now same c = record {
  pending_eq = sub_field _ _ _ _ c.pending_eq (m is_new).1 (omega (arith, (m is_new).0));
  in_progress_eq = add_field _ _ _ _ c.in_progress_eq (omega (arith, (m is_in_progress).0));
  completed_eq = same_field _ _ _ c.completed_eq (omega (arith, (m is_completed).0));
  skipped_eq = same_field _ _ _ c.skipped_eq (omega (arith, (m is_skipped).0));
  failed_eq = same_field _ _ _ c.failed_eq (omega (arith, (m is_failed).0));
  total_eq = same_field _ _ _ c.total_eq (omega (arith, length_replace xs ys ys' zs same));
  none_unset = omega (arith, (m is_unset).0, c.none_unset);
}
  where
    m :
        (test : DiscoveryStatus → Bool)
        → (tally test (xs ++ (ys' ++ zs)) + (if test DiscoveryStatus.new then length ys else 0)
            ≡ tally test (xs ++ (ys ++ zs))
              + (if test DiscoveryStatus.in_progress then length ys else 0))
          × ((if test DiscoveryStatus.new then length ys else 0) ≤ tally test (xs ++ (ys ++ zs)))
    m = moved xs ys ys' zs DiscoveryStatus.new DiscoveryStatus.in_progress is_old is_now same

-- One entry in progress is pending again.
pub reset-Counts :
    (missing : ℕ) (stats : DiscoveryStatistics) (xs zs : Entries) (y y' : BackupDiscoveryProgress)
    → HasStatus DiscoveryStatus.in_progress y
    → HasStatus DiscoveryStatus.new y'
    → Counts missing stats (xs ++ (y ∷ zs))
    → Counts missing
        (record stats {
          in_progress = stats.in_progress -ℤ pos 1;
          pending = stats.pending +ℤ pos 1;
        })
        (xs ++ (y' ∷ zs))
reset-Counts missing stats xs zs y y' is_old is_now c = record {
  pending_eq = add_field _ _ _ _ c.pending_eq (omega (arith, (m is_new).0));
  in_progress_eq =
      sub_field _ _ _ _ c.in_progress_eq (m is_in_progress).1 (omega (arith, (m is_in_progress).0));
  completed_eq = same_field _ _ _ c.completed_eq (omega (arith, (m is_completed).0));
  skipped_eq = same_field _ _ _ c.skipped_eq (omega (arith, (m is_skipped).0));
  failed_eq = same_field _ _ _ c.failed_eq (omega (arith, (m is_failed).0));
  total_eq =
      same_field _ _ _ c.total_eq (omega (arith, length_replace xs (y ∷ []) (y' ∷ []) zs refl));
  none_unset = omega (arith, (m is_unset).0, c.none_unset);
}
  where
    m :
        (test : DiscoveryStatus → Bool)
        → (tally test (xs ++ (y' ∷ zs)) + (if test DiscoveryStatus.in_progress then 1 else 0)
            ≡ tally test (xs ++ (y ∷ zs)) + (if test DiscoveryStatus.new then 1 else 0))
          × ((if test DiscoveryStatus.in_progress then 1 else 0) ≤ tally test (xs ++ (y ∷ zs)))
    m =
        moved xs (y ∷ []) (y' ∷ []) zs DiscoveryStatus.in_progress DiscoveryStatus.new (is_old, tt)
          (is_now, tt) refl
