-- ===== src/Discovery/Invariant/Start.antt =====
-- Marking a batch: which entries it takes, and the invariant of the status that is marked.
use mathlib.Core.Option
use oadp_vm_file_restore.Prelude.{
  ℕ, zero, suc, ◌≤◌, ◌<◌, ◌≡◌, ◌≢◌, refl, sym, ap, ◌∙◌, subst, ◌+ℤ◌, ◌-ℤ◌, arith, List, [], ◌∷◌,
  ◌++◌, map, append_assoc, Option, none, some, pos, length, length-map, All, All-append, take, drop,
  upto, take-upto, length-upto, length-take, ap₂,
}
use oadp_vm_file_restore.Api.{DiscoveryStatus, is_new, DiscoveryStatistics, DiscoveryStatusOf}
use oadp_vm_file_restore.Discovery.Batch.{
  new_indices, batch_size, start_batch, in_progress_entry, mark_batch,
}
use oadp_vm_file_restore.Discovery.Batch.Blocks.{
  Blocks, IsNew, NotNew, mark_batch-block, new_indices-Blocks,
}
use oadp_vm_file_restore.Discovery.Invariant.{Counts, CountsOf, IsSound}
use oadp_vm_file_restore.Discovery.Invariant.Operations.{
  Entries, HasStatus, IsNew-HasStatus, map-in_progress, start-Counts,
}

All-take {ℓ κ} : {A : Type ℓ} (P : A → Type κ) (n : ℕ) (l : List A) → All P l → All P (take n l)
All-take P zero l h = tt
All-take P (suc n) [] h = tt
All-take P (suc n) (x ∷ l) h = (h.0, All-take P n l h.1)

All-drop {ℓ κ} : {A : Type ℓ} (P : A → Type κ) (n : ℕ) (l : List A) → All P l → All P (drop n l)
All-drop P zero l h = h
All-drop P (suc n) [] h = tt
All-drop P (suc n) (x ∷ l) h = All-drop P n l h.1

take-append-drop {ℓ} : {A : Type ℓ} (n : ℕ) (l : List A) → take n l ++ drop n l ≡ l
take-append-drop zero l = refl
take-append-drop (suc n) [] = refl
take-append-drop (suc n) (x ∷ l) = ap (◌∷◌ x) (take-append-drop n l)

map-ne-nil {ℓ κ} : {A : Type ℓ} {B : Type κ} (f : A → B) (l : List A) → l ≢ [] → map f l ≢ []
map-ne-nil f [] h = absurd (h refl)
map-ne-nil f (x ∷ l) h = λ e. cc

-- A batch under examination: its entries stand together at the indices of the batch, in front of
-- the entries that are still new.
pub record InBatch (batch : List ℕ) (progress : Entries) : Type 0 where
  pub before : Entries
  pub busy : Entries
  pub block : Entries
  pub after : Entries
  pub split : progress ≡ before ++ (busy ++ (block ++ after))
  pub batch_eq : batch ≡ upto (length before) (length busy)
  pub small : length busy ≤ 3
  pub some_busy : busy ≢ []
  pub before_done : All NotNew before
  pub busy_in_progress : All (HasStatus DiscoveryStatus.in_progress) busy
  pub block_new : All IsNew block
  pub after_done : All NotNew after

pub in_progress-NotNew :
    (ys : Entries) → All (HasStatus DiscoveryStatus.in_progress) ys → All NotNew ys
in_progress-NotNew [] h = tt
in_progress-NotNew (y ∷ ys) h = (ap is_new h.0, in_progress-NotNew ys h.1)

batch_size-le : (n : List ℕ) → (batch_size n ≤ length n) × (batch_size n ≤ 3)
unfolding batch_size
batch_size-le n = ground arith

batch_size_pos : (n : List ℕ) → n ≢ [] → 0 < batch_size n
unfolding batch_size
batch_size_pos [] h = absurd (h refl)
batch_size_pos (x ∷ n) h = ground arith

-- The first entries of the block are taken, and marked.
module _ (now : ℕ) (progress : Entries) (b : Blocks progress) (n : List ℕ)
    (pending : new_indices 0 progress ≡ n) (some_pending : n ≢ []) where
  size : ℕ
  size = batch_size n

  taken : Entries
  unfolding size
  taken = take size b.block

  left : Entries
  unfolding size
  left = drop size b.block

  batch : List ℕ
  unfolding size
  batch = take size n

  n_eq : n ≡ upto (length b.before) (length b.block)
  n_eq =
      sym pending
      ∙ ap (new_indices 0) b.split
      ∙ new_indices-Blocks b.before b.block b.after b.before_done b.block_new b.after_done

  length-n : length n ≡ length b.block
  length-n = ap length n_eq ∙ length-upto (length b.before) (length b.block)

  length-taken : length taken ≡ size
  unfolding taken size
  length-taken = omega (arith, length-take (batch_size n) b.block, batch_size-le n, length-n)

  size-le : size ≤ 3
  unfolding size
  size-le = (batch_size-le n).1

  batch_eq : batch ≡ upto (length b.before) (length taken)
  unfolding batch
  batch_eq =
      ap (take size) n_eq
      ∙ take-upto size (length b.before) (length b.block)
          (unfold size in (omega (arith, batch_size-le n, length-n)))
      ∙ ap (upto (length b.before)) (sym length-taken)

  taken-ne-nil : taken ≢ []
  taken-ne-nil e =
      absurd
        (unfold size in (omega (arith, ap length e, length-taken, batch_size_pos n some_pending)))

  regrouped : progress ≡ b.before ++ (taken ++ (left ++ b.after))
  unfolding taken left
  regrouped =
      b.split
      ∙ ap (λ (l : Entries). b.before ++ l)
          (ap (λ (l : Entries). l ++ b.after) (sym (take-append-drop size b.block))
            ∙ append_assoc (take size b.block) (drop size b.block) b.after)

  marked :
      mark_batch now batch progress
      ≡ b.before ++ (map (in_progress_entry now) taken ++ (left ++ b.after))
  marked =
      ap₂ (mark_batch now) batch_eq regrouped
      ∙ mark_batch-block now b.before taken (left ++ b.after)

  start-InBatch : InBatch batch (mark_batch now batch progress)
  start-InBatch = record {
    before = b.before;
    busy = map (in_progress_entry now) taken;
    block = left;
    after = b.after;
    split = marked;
    batch_eq =
        batch_eq ∙ ap (upto (length b.before)) (sym (length-map (in_progress_entry now) taken));
    small = omega (arith, length-map (in_progress_entry now) taken, length-taken, size-le);
    some_busy = map-ne-nil (in_progress_entry now) taken taken-ne-nil;
    before_done = b.before_done;
    busy_in_progress = map-in_progress now taken;
    block_new = unfold left in (All-drop IsNew size b.block b.block_new);
    after_done = b.after_done;
  }

  -- The entries that were marked, with what was there before.
  All-before-marked : All NotNew (b.before ++ map (in_progress_entry now) taken)
  All-before-marked =
      All-append NotNew b.before _ b.before_done (in_progress-NotNew _ (map-in_progress now taken))

  start-Blocks : Blocks (mark_batch now batch progress)
  start-Blocks = record {
    before = b.before ++ map (in_progress_entry now) taken;
    block = left;
    after = b.after;
    split =
        marked ∙ sym (append_assoc b.before (map (in_progress_entry now) taken) (left ++ b.after));
    before_done = All-before-marked;
    block_new = unfold left in (All-drop IsNew size b.block b.block_new);
    after_done = b.after_done;
  }

  started-Counts :
      (missing : ℕ) (stats : DiscoveryStatistics)
      → Counts missing stats progress
      → Counts missing
          (record stats {
            pending = stats.pending -ℤ pos (length batch);
            in_progress = stats.in_progress +ℤ pos (length batch);
          })
          (mark_batch now batch progress)
  started-Counts missing stats c =
      rw (marked, length-batch)
        (start-Counts missing stats b.before taken (map (in_progress_entry now) taken)
          (left ++ b.after)
          (IsNew-HasStatus taken (unfold taken in (All-take IsNew size b.block b.block_new)))
          (map-in_progress now taken) (sym (length-map (in_progress_entry now) taken))
          (subst (Counts missing stats) regrouped c))
    where
      length-batch : length batch ≡ length taken
      length-batch = ap length batch_eq ∙ length-upto (length b.before) (length taken)

new_indices-nil : new_indices 0 [] ≡ []
unfolding new_indices
new_indices-nil = refl

-- Marking a batch keeps a status sound.
pub start_batch-IsSound :
    (now : ℕ) (s : DiscoveryStatusOf) (n : List ℕ)
    → new_indices 0 s.backup_discovery_progress ≡ n
    → n ≢ []
    → IsSound s
    → IsSound (start_batch now (take (batch_size n) n) s)
      × InBatch
          (take (batch_size n) n)
          (start_batch now (take (batch_size n) n) s).backup_discovery_progress
unfolding start_batch batch size
start_batch-IsSound now s n pending some_pending sound = (
  record {
    counts = go s.discovery_stats sound.counts;
    blocks = start-Blocks now s.backup_discovery_progress sound.blocks n pending some_pending;
  },
  start-InBatch now s.backup_discovery_progress sound.blocks n pending some_pending,
)
  where
    go :
        (stats : Option DiscoveryStatistics)
        → CountsOf stats s.backup_discovery_progress
        → CountsOf
            (Option.map
              (λ (t : DiscoveryStatistics). record t {
                pending = t.pending -ℤ pos (length (take (batch_size n) n));
                in_progress = t.in_progress +ℤ pos (length (take (batch_size n) n));
              })
              stats)
            (mark_batch now (take (batch_size n) n) s.backup_discovery_progress)
    go none h = absurd (some_pending (sym pending ∙ ap (new_indices 0) h ∙ new_indices-nil))
    go (some stats) (missing, c) = (
      missing,
      started-Counts now s.backup_discovery_progress sound.blocks n pending some_pending missing
          stats c,
    )
