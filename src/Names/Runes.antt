-- ===== src/Names/Runes.antt =====
-- The characters of a name, and its ends, when it is sanitized, trimmed, cut and joined.
use oadp_vm_file_restore.Prelude.{
  ℕ, zero, suc, ◌≤◌, ◌≡◌, refl, ap, arith, [], ◌∷◌, ◌++◌, Bool, true, false, ◌&&◌, not, is_empty,
  length, take, replicate, ◌==◌, if◌then◌else◌, Bool-cases, inl, inr, All,
}
use oadp_vm_file_restore.Names.{
  Name, hyphen, max_length, to_lower, is_label_rune, replace_invalid, trim_left, trim_right, trim,
  sanitized,
}

abbrev pub Runes : Name → Type 0
Runes l = All (λ r. is_label_rune r ≡ true) l

-- starts, ends with a character that is not a hyphen
abbrev pub starts : Name → Bool
starts [] = false
starts (r ∷ l) = not (r == hyphen)

abbrev pub ends : Name → Bool
ends [] = false
ends (r ∷ l) = let rest = ends l in if is_empty l then not (r == hyphen) else rest

pub length-replicate : (n r : ℕ) → length (replicate n r) ≡ n
length-replicate zero r = refl
length-replicate (suc n) r = ap suc (length-replicate n r)

-- A label: letters, digits and hyphens, with no hyphen at either end, at most 63 of them.
pub record IsLabel (l : Name) : Type 0 where
  pub runes : Runes l
  pub is_started : starts l ≡ true
  pub is_ended : ends l ≡ true
  pub bounded : length l ≤ max_length

pub sanitized-Runes : (l : Name) → Runes (sanitized l)
unfolding sanitized replace_invalid
sanitized-Runes [] = tt
sanitized-Runes (r ∷ l) = (valid (to_lower r), sanitized-Runes l)
  where
    valid : (c : ℕ) → is_label_rune (replace_invalid c) ≡ true
    valid c = elim (Bool-cases (is_label_rune c)) [ inl e ↦ rw e e | inr e ↦ rw e refl ]

pub trim_left-Runes : (l : Name) → Runes l → Runes (trim_left l)
unfolding trim_left
trim_left-Runes [] h = tt
trim_left-Runes (r ∷ l) h = elim (Bool-cases (r == hyphen)) [
  | inl e ↦ rw e (trim_left-Runes l h.1)
  | inr e ↦ rw e h
]

pub trim_right-Runes : (l : Name) → Runes l → Runes (trim_right l)
unfolding trim_right
trim_right-Runes [] h = tt
trim_right-Runes (r ∷ l) h = elim (Bool-cases ((r == hyphen) && is_empty (trim_right l))) [
  | inl e ↦ rw e tt
  | inr e ↦ rw e (h.0, trim_right-Runes l h.1)
]

pub length-trim_right : (l : Name) → length (trim_right l) ≤ length l
unfolding trim_right
length-trim_right [] = omega arith
length-trim_right (r ∷ l) = elim (Bool-cases ((r == hyphen) && is_empty (trim_right l))) [
  | inl e ↦ rw e (omega arith)
  | inr e ↦ rw e (omega (arith, length-trim_right l))
]

pub length-trim_left : (l : Name) → length (trim_left l) ≤ length l
unfolding trim_left
length-trim_left [] = omega arith
length-trim_left (r ∷ l) = elim (Bool-cases (r == hyphen)) [
  | inl e ↦ rw e (omega (arith, length-trim_left l))
  | inr e ↦ rw e (omega arith)
]

-- empty, or not starting with a hyphen
pub trim_left-starts : (l : Name) → is_empty (trim_left l) ≡ false → starts (trim_left l) ≡ true
unfolding trim_left
trim_left-starts [] h = absurd (cc)
trim_left-starts (r ∷ l) h = elim (Bool-cases (r == hyphen)) [
  | inl e ↦ rw e (trim_left-starts l (rw e at h))
  | inr e ↦ rw e (rw e refl)
]

pub trim_right-starts : (l : Name) → starts l ≡ true → starts (trim_right l) ≡ true
unfolding trim_right
trim_right-starts [] h = h
trim_right-starts (r ∷ l) h = ground (arith, h)

pub trim_right-starts_of_nonempty :
    (l : Name)
    → is_empty (trim_right l) ≡ false
    → (is_empty l ≡ false → starts l ≡ true)
    → starts (trim_right l) ≡ true
unfolding trim_right
trim_right-starts_of_nonempty [] h k = absurd (cc)
trim_right-starts_of_nonempty (r ∷ l) h k = trim_right-starts (r ∷ l) (k refl)

pub trim-starts : (l : Name) → is_empty (trim l) ≡ false → starts (trim l) ≡ true
unfolding trim
trim-starts l h = trim_right-starts_of_nonempty (trim_left l) h (trim_left-starts l)

pub take-Runes : (n : ℕ) (l : Name) → Runes l → Runes (take n l)
take-Runes zero l h = tt
take-Runes (suc n) [] h = tt
take-Runes (suc n) (r ∷ l) h = (h.0, take-Runes n l h.1)

pub take-starts : (n : ℕ) (l : Name) → starts l ≡ true → starts (take (suc n) l) ≡ true
take-starts n [] h = h
take-starts n (r ∷ l) h = h

pub starts-append : (xs ys : Name) → starts xs ≡ true → starts (xs ++ ys) ≡ true
starts-append [] ys h = absurd (cc)
starts-append (x ∷ xs) ys h = h

pub ends-append : (xs ys : Name) → is_empty ys ≡ false → ends (xs ++ ys) ≡ ends ys
ends-append [] ys h = refl
ends-append (x ∷ []) [] h = absurd (cc)
ends-append (x ∷ []) (y ∷ ys) h = refl
ends-append (x ∷ z ∷ xs) ys h = ends-append (z ∷ xs) ys h
