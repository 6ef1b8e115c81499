-- ===== src/Prelude/Perms.antt =====
-- What a rearrangement of a list leaves alone.
use mathlib.Core.Path.{◌≡◌, refl, ap, ◌∙◌}
use mathlib.Core.Bool.{Bool}
use mathlib.Core.List.{List, Perm, Permᴰ}
use mathlib.Core.Logic.{∥∥₁_elim}
use native.Mathlib.Nat.{ℕ_set}
use native.Mathlib.Omega.{arith}
use oadp_vm_file_restore.Prelude.Lists.{any, count_if}

module _ {ℓ} {A : Type ℓ} (p : A → Bool) where
  any-permᴰ : {xs ys : List A} → Permᴰ xs ys → any p xs ≡ any p ys
  any-permᴰ Permᴰ.nil = refl
  any-permᴰ (Permᴰ.cons e h) = ground (arith, ap p e, any-permᴰ h)
  any-permᴰ (Permᴰ.swap e f) = ground (arith, ap p e, ap p f)
  any-permᴰ (Permᴰ.trans h k) = any-permᴰ h ∙ any-permᴰ k

  pub any-perm : {xs ys : List A} → Perm xs ys → any p xs ≡ any p ys
  any-perm h = ∥∥₁_elim h (hlevel) any-permᴰ

  count_if-permᴰ : {xs ys : List A} → Permᴰ xs ys → count_if p xs ≡ count_if p ys
  count_if-permᴰ Permᴰ.nil = refl
  count_if-permᴰ (Permᴰ.cons e h) = ground (arith, ap p e, count_if-permᴰ h)
  count_if-permᴰ (Permᴰ.swap e f) = ground (arith, ap p e, ap p f)
  count_if-permᴰ (Permᴰ.trans h k) = count_if-permᴰ h ∙ count_if-permᴰ k

  pub count_if-perm : {xs ys : List A} → Perm xs ys → count_if p xs ≡ count_if p ys
  count_if-perm h = ∥∥₁_elim h (ℕ_set _ _) count_if-permᴰ
