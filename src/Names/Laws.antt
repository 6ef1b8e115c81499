-- ===== src/Names/Laws.antt =====
-- The generated names as labels in the sense of DNS-1123.
use oadp_vm_file_restore.Prelude.{
  ℕ, zero, suc, ◌+◌, ◌-◌, ◌≤◌, ◌≡◌, refl, ap, ◌∙◌, arith, [], ◌∷◌, ◌++◌, true, false, none, some,
  is_empty, length, take, length-append, length-map, length-take, length-take-le, ltb, leb,
  Bool-cases, inl, inr, All-append,
}
use oadp_vm_file_restore.Names.{
  Name, hyphen, max_length, to_lower, is_label_rune, replace_invalid, trim_left, trim_right, trim,
  sanitized, label_of, normalize_dns1123_label, uid_suffix, joined, truncated,
  generate_temporary_vmfr_namespace_name,
}
use oadp_vm_file_restore.Names.Runes.{
  Runes, starts, IsLabel, length-replicate, sanitized-Runes, trim_left-Runes, trim_right-Runes,
  length-trim_right, length-trim_left, trim_right-starts, trim-starts, take-Runes, take-starts,
  starts-append, ends-append,
}

-- A base name and a suffix, joined by a hyphen.
joined-IsLabel :
    (b suffix : Name)
    → Runes b
    → starts b ≡ true
    → IsLabel suffix
    → length (b ++ hyphen ∷ suffix) ≤ max_length
    → IsLabel (b ++ hyphen ∷ suffix)
joined-IsLabel b suffix h k s bound = record {
  runes = All-append (λ r. is_label_rune r ≡ true) b (hyphen ∷ suffix) h (refl, s.runes);
  is_started = starts-append b (hyphen ∷ suffix) k;
  is_ended =
      ends-append b (hyphen ∷ suffix) refl
      ∙ ends-append (hyphen ∷ []) suffix (started-nonempty suffix s.is_started)
      ∙ s.is_ended;
  bounded = bound;
}
  where
    started-nonempty : (l : Name) → starts l ≡ true → is_empty l ≡ false
    started-nonempty [] e = absurd (cc)
    started-nonempty (r ∷ l) e = refl

trim-Runes : (l : Name) → Runes l → Runes (trim l)
unfolding trim
trim-Runes l h = trim_right-Runes (trim_left l) (trim_left-Runes l h)

label_of-empty : (suffix : Name) → length suffix ≤ max_length → label_of [] suffix ≡ some suffix
unfolding label_of
label_of-empty suffix h = ground (arith, h)

label_of-short :
    (b suffix : Name)
    → is_empty b ≡ false
    → ltb max_length (length (b ++ hyphen ∷ suffix)) ≡ false
    → label_of b suffix ≡ some (b ++ hyphen ∷ suffix)
unfolding label_of
label_of-short b suffix h k = rw h (rw k refl)

label_of-long :
    (b suffix : Name)
    → is_empty b ≡ false
    → ltb max_length (length (b ++ hyphen ∷ suffix)) ≡ true
    → (ltb (length suffix + 1) max_length ≡ true)
    → label_of b suffix
      ≡ some (trim_right (take (max_length - 1 - length suffix) b) ++ hyphen ∷ suffix)
unfolding label_of
label_of-long b suffix h k m = rw h (rw (k, m) refl)

length-cut :
    (b suffix : Name)
    → length suffix ≤ 61
    → length (trim_right (take (max_length - 1 - length suffix) b) ++ hyphen ∷ suffix) ≤ max_length
length-cut b suffix h = omega (
  arith,
  length-append (trim_right (take (max_length - 1 - length suffix) b)) (hyphen ∷ suffix),
  length-trim_right (take (max_length - 1 - length suffix) b),
  length-take-le (max_length - 1 - length suffix) b,
)

cut-starts : (n : ℕ) (b : Name) → 1 ≤ n → starts b ≡ true → starts (trim_right (take n b)) ≡ true
cut-starts zero b h k = absurd (omega (arith, h))
cut-starts (suc n) b h k = trim_right-starts (take (suc n) b) (take-starts n b k)

label_of-IsLabel :
    (b suffix : Name)
    → Runes b
    → (is_empty b ≡ false → starts b ≡ true)
    → IsLabel suffix
    → length suffix ≤ 61
    → (l : Name) × (label_of b suffix ≡ some l) × IsLabel l
label_of-IsLabel [] suffix h k s bound = (suffix, label_of-empty suffix s.bounded, s)
label_of-IsLabel (r ∷ b) suffix h k s bound =
    elim (Bool-cases (ltb max_length (length ((r ∷ b) ++ hyphen ∷ suffix)))) [
      | inr short ↦ (
        (r ∷ b) ++ hyphen ∷ suffix,
        label_of-short (r ∷ b) suffix refl short,
        joined-IsLabel (r ∷ b) suffix h (k refl) s (within _ short),
      )
      | inl long ↦ (
        trim_right (take (max_length - 1 - length suffix) (r ∷ b)) ++ hyphen ∷ suffix,
        label_of-long (r ∷ b) suffix refl long (room (length suffix) bound),
        joined-IsLabel (trim_right (take (max_length - 1 - length suffix) (r ∷ b))) suffix
            (trim_right-Runes _ (take-Runes (max_length - 1 - length suffix) (r ∷ b) h))
            (cut-starts (max_length - 1 - length suffix) (r ∷ b) (omega (arith, bound)) (k refl)) s
            (length-cut (r ∷ b) suffix bound),
      )
    ]
  where
    within : (n : ℕ) → ltb max_length n ≡ false → n ≤ max_length
    within n e = ground (arith, e)

    room : (n : ℕ) → n ≤ 61 → ltb (n + 1) max_length ≡ true
    room n e = ground (arith, e)

-- Whatever the base name, there is a result and it is a label, if the suffix is a label of at most
-- 61 characters.
pub normalize_dns1123_label-IsLabel :
    (base_name suffix : Name)
    → IsLabel suffix
    → length suffix ≤ 61
    → (l : Name) × (normalize_dns1123_label base_name suffix ≡ some l) × IsLabel l
unfolding normalize_dns1123_label
normalize_dns1123_label-IsLabel base_name suffix s bound =
    label_of-IsLabel (trim (sanitized base_name)) suffix (trim-Runes _ (sanitized-Runes base_name))
      (trim-starts (sanitized base_name)) s bound

label_of-none :
    (b suffix : Name)
    → is_empty b ≡ false
    → ltb max_length (length (b ++ hyphen ∷ suffix)) ≡ true
    → ltb (length suffix + 1) max_length ≡ false
    → ltb (length suffix) max_length ≡ true
    → label_of b suffix ≡ none
unfolding label_of
label_of-none b suffix h k m n = rw h (rw (k, m, n) refl)

-- With a suffix of exactly 62 characters and a base name of which something is left, the slice of
-- the suffix is out of range.
pub normalize_dns1123_label-none :
    (base_name suffix : Name)
    → is_empty (trim (sanitized base_name)) ≡ false
    → length suffix ≡ 62
    → normalize_dns1123_label base_name suffix ≡ none
unfolding normalize_dns1123_label
normalize_dns1123_label-none base_name suffix some_base h =
    out_of_range (trim (sanitized base_name)) some_base
  where
    too_long : (n k : ℕ) → n ≡ 63 → ltb max_length (suc k + n) ≡ true
    too_long n k e = ground (arith, e)

    out_of_range : (b : Name) → is_empty b ≡ false → label_of b suffix ≡ none
    out_of_range [] e = absurd (cc)
    out_of_range (r ∷ b) e =
        label_of-none (r ∷ b) suffix refl
          (ap (ltb max_length) (length-append (r ∷ b) (hyphen ∷ suffix))
            ∙ too_long (suc (length suffix)) (length b) (ap suc h))
          (ap (λ n. ltb (n + 1) max_length) h) (ap (λ n. ltb n max_length) h)

length-trim : (l : Name) → length (trim l) ≤ length l
unfolding trim
length-trim l = omega (arith, length-trim_right (trim_left l), length-trim_left l)

length-uid_suffix : (uid : Name) → length (uid_suffix uid) ≡ 8
unfolding uid_suffix
length-uid_suffix uid = elim (Bool-cases (leb 8 (length uid))) [
  | inl e ↦ rw e (length-take 8 uid ∙ ground (arith, e))
  | inr e ↦ rw e (length-append uid _ ∙ ground (arith, length-replicate (8 - length uid) 48, e))
]

length-truncated :
    (name suffix : Name) → length suffix ≡ 8 → length (truncated name suffix) ≤ max_length
unfolding truncated
length-truncated name suffix h = elim (Bool-cases (ltb 63 (length name))) [
  | inl e ↦ rw e (
      omega (
        arith,
        length-append (take (63 - length suffix - 1) name) (hyphen ∷ suffix),
        length-take-le (63 - length suffix - 1) name,
        h,
      ))
  | inr e ↦ rw e (ground (arith, e))
]

-- A temporary namespace's name has at most 63 characters, all of them letters, digits and hyphens,
-- and does not start with a hyphen.
pub generate_temporary_vmfr_namespace_name_lem :
    (prefix vm_namespace vm_name uid : Name)
    → (length (generate_temporary_vmfr_namespace_name prefix vm_namespace vm_name uid) ≤ max_length)
      × Runes (generate_temporary_vmfr_namespace_name prefix vm_namespace vm_name uid)
      × (is_empty (generate_temporary_vmfr_namespace_name prefix vm_namespace vm_name uid) ≡ false
          → starts (generate_temporary_vmfr_namespace_name prefix vm_namespace vm_name uid) ≡ true)
unfolding generate_temporary_vmfr_namespace_name sanitized
generate_temporary_vmfr_namespace_name_lem prefix vm_namespace vm_name uid =
    (bound, trim-Runes (sanitized whole) (sanitized-Runes whole), trim-starts (sanitized whole))
  where
    whole : Name
    whole = truncated (joined prefix vm_namespace vm_name (uid_suffix uid)) (uid_suffix uid)

    bound : length (trim (sanitized whole)) ≤ max_length
    bound = omega (
      arith,
      length-trim (sanitized whole),
      length-map (λ r. replace_invalid (to_lower r)) whole,
      length-truncated (joined prefix vm_namespace vm_name (uid_suffix uid)) (uid_suffix uid)
          (length-uid_suffix uid),
    )
