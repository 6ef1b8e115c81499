-- ===== src/Names.antt =====
-- internal/common/function/function.go: NormalizeDNS1123Label and
-- GenerateTemporaryVMFRNamespaceName. A name is the list of its characters, which are ASCII, as in
-- a Kubernetes name; a slice out of range, at which Go panics, is `none`.
pub mod Runes
pub mod Laws
use oadp_vm_file_restore.Prelude.{
  ℕ, ◌+◌, ◌-◌, List, [], ◌∷◌, ◌++◌, map, Bool, true, false, ◌||◌, ◌&&◌, Option, none, some,
  is_empty, length, take, replicate, ltb, leb, ◌==◌, if◌then◌else◌,
}

abbrev pub Name : Type 0
Name = List ℕ

abbrev pub hyphen : ℕ
hyphen = 45

abbrev pub max_length : ℕ
max_length = 63

-- strings.ToLower
unfoldable pub to_lower : ℕ → ℕ
to_lower r = if leb 65 r && leb r 90 then r + 32 else r

-- [a-z0-9-]
abbrev pub is_label_rune : ℕ → Bool
is_label_rune r = (leb 97 r && leb r 122) || (leb 48 r && leb r 57) || (r == hyphen)

-- Any other character becomes a hyphen.
unfoldable pub replace_invalid : ℕ → ℕ
replace_invalid r = if is_label_rune r then r else hyphen

unfoldable pub trim_left : Name → Name
trim_left [] = []
trim_left (r ∷ l) = let rest = trim_left l in if r == hyphen then rest else r ∷ l

unfoldable pub trim_right : Name → Name
trim_right [] = []
trim_right (r ∷ l) =
    let rest = trim_right l in if (r == hyphen) && is_empty rest then [] else r ∷ rest

unfoldable pub trim : Name → Name
unfolding trim_left trim_right
trim l = trim_right (trim_left l)

unfoldable pub sanitized : Name → Name
unfolding replace_invalid to_lower
sanitized l = map (λ r. replace_invalid (to_lower r)) l

-- s[:n]
abbrev pub slice_to : Name → ℕ → Option Name
slice_to l n = if ltb (length l) n then none else some (take n l)

-- NormalizeDNS1123Label once the base name is sanitized
unfoldable pub label_of : Name → Name → Option Name
unfolding trim_right
label_of base suffix =
    let name = if is_empty base then suffix else base ++ hyphen ∷ suffix in
    if ltb max_length (length name)
    then if ltb (length suffix + 1) max_length
      then some (trim_right (take (max_length - 1 - length suffix) base) ++ hyphen ∷ suffix)
      else slice_to suffix max_length
    else some name

unfoldable pub normalize_dns1123_label : Name → Name → Option Name
unfolding trim sanitized label_of
normalize_dns1123_label base_name suffix = label_of (trim (sanitized base_name)) suffix

-- The suffix of a temporary namespace, always 8 characters.
unfoldable pub uid_suffix : Name → Name
uid_suffix uid = if leb 8 (length uid) then take 8 uid else uid ++ replicate (8 - length uid) 48

-- strings.Join(nameParts, "-") with the optional prefix
unfoldable pub joined : Name → Name → Name → Name → Name
joined prefix vm_namespace vm_name suffix =
    (if is_empty prefix then [] else prefix ++ hyphen ∷ [])
    ++ (vm_namespace ++ hyphen ∷ (vm_name ++ hyphen ∷ suffix))

-- The truncation keeps the suffix.
unfoldable pub truncated : Name → Name → Name
truncated name suffix =
    if ltb 63 (length name) then take (63 - length suffix - 1) name ++ hyphen ∷ suffix else name

unfoldable pub generate_temporary_vmfr_namespace_name : Name → Name → Name → Name → Name
unfolding uid_suffix joined truncated trim sanitized
generate_temporary_vmfr_namespace_name prefix vm_namespace vm_name uid =
    let suffix = uid_suffix uid in
    trim (sanitized (truncated (joined prefix vm_namespace vm_name suffix) suffix))
