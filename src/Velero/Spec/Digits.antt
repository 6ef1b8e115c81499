-- ===== src/Velero/Spec/Digits.antt =====
-- The texts of itoa.
use oadp_vm_file_restore.Prelude.{
  ℕ, zero, suc, ◌+◌, ◌*◌, ◌-◌, ◌==◌, leb, List, [], ◌∷◌, ◌&&◌, Option, none, some, ℤ, pos, negsuc,
  if◌then◌else◌,
}

abbrev total : Option ℕ → ℕ
total none = 0
total (some n) = n

-- The number that decimal digits add to those read before, `none` before the first.
unfoldable pub decimal : Option ℕ → List ℕ → Option ℕ
decimal read [] = read
decimal read (c ∷ rest) =
    let more = decimal (some (total read * 10 + (c - 48))) rest in
    if leb 48 c && leb c 57 then more else none

abbrev negative : Option ℕ → Option ℤ
negative none = none
negative (some zero) = none
negative (some (suc n)) = some (negsuc n)

-- A decimal numeral, with a sign if it is negative.
unfoldable pub read_decimal : List ℕ → Option ℤ
unfolding decimal
read_decimal [] = none
read_decimal (c ∷ rest) =
    if c == 45
    then negative (decimal none rest)
    else elim (decimal none (c ∷ rest)) [ none ↦ none | some n ↦ some (pos n) ]

-- What is read once `i` has been.
abbrev read_so_far : ℕ → Option ℕ
read_so_far i = if i == 0 then none else some i
