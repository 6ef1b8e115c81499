-- ===== src/Prelude/Text.antt =====
-- Names and messages: the native `String`, compared by `str_eq` and joined by `<>`.
use Prim.Native.Char.{code}
use Prim.Native.Nat.{ℕ}
use mathlib.Core.Path.{◌≡◌, refl, ap, ◌∙◌}
use mathlib.Core.Bool.{Bool, true, false}
use mathlib.Core.List.{List, [], ◌∷◌, ◌++◌ as ◌++ˡ◌}
use native.Mathlib.Omega.{arith}
use text.Mathlib.Text.{◌==◌}
use text.Mathlib.TextEquality.{eq_iff}
use text.Mathlib.TextPositions.{eq_refl}
use text.Mathlib.TextLemmas.{nil-append, cons-append}
use oadp_vm_file_restore.Prelude.Tests.{◌==◌ as nat_eq}
pub use Prim.Native.String.{String}
use Prim.Native.String.{◌++◌}

infixr 65 ◌<>◌
abbrev pub ◌<>◌ : String → String → String
s <> t = s ++ t

abbrev pub str_eq : String → String → Bool
str_eq s t = s == t

pub str_eq→eq : (s t : String) → str_eq s t ≡ true → s ≡ t
str_eq→eq s t h = (eq_iff s t).0 h

pub eq→str_eq : (s t : String) → s ≡ t → str_eq s t ≡ true
eq→str_eq s t h = (eq_iff s t).1 h

pub str_eq_refl : (s : String) → str_eq s s ≡ true
str_eq_refl s = eq_refl s

-- The code points of a text: its bytes, if it is ASCII.
abbrev pub codes : String → List ℕ
codes String.[] = []
codes (String.◌∷◌ c s) = code c ∷ codes s

-- Equality of texts that are held as lists of numbers.
abbrev pub codes_eq : List ℕ → List ℕ → Bool
codes_eq [] [] = true
codes_eq (a ∷ s) (b ∷ t) = elim (nat_eq a b) [ true ↦ codes_eq s t | false ↦ false ]
codes_eq _ _ = false

pub codes_eq→eq : (s t : List ℕ) → codes_eq s t ≡ true → s ≡ t
codes_eq→eq [] [] h = ground arith
codes_eq→eq [] (b ∷ t) h = cc
codes_eq→eq (a ∷ s) [] h = cc
codes_eq→eq (a ∷ s) (b ∷ t) h = ground (arith, codes_eq→eq s t)

pub codes_eq_refl : (s : List ℕ) → codes_eq s s ≡ true
codes_eq_refl [] = ground arith
codes_eq_refl (a ∷ s) = ground (arith, codes_eq_refl s)

-- strings.Contains
abbrev pub is_prefix : List ℕ → List ℕ → Bool
is_prefix [] t = true
is_prefix (a ∷ s) [] = false
is_prefix (a ∷ s) (b ∷ t) = elim (nat_eq a b) [ true ↦ is_prefix s t | false ↦ false ]

abbrev pub occurs : List ℕ → List ℕ → Bool
occurs s [] = is_prefix s []
occurs s (b ∷ t) = elim (is_prefix s (b ∷ t)) [ true ↦ true | false ↦ occurs s t ]

abbrev pub contains : String → String → Bool
contains s part = occurs (codes part) (codes s)

pub codes-append : (s t : String) → codes (s <> t) ≡ codes s ++ˡ codes t
codes-append String.[] t = ap codes (nil-append t)
codes-append (String.◌∷◌ c s) t =
    ap codes (cons-append c s t) ∙ ap (◌∷◌ (code c)) (codes-append s t)

is_prefix-append : (s t : List ℕ) → is_prefix s (s ++ˡ t) ≡ true
is_prefix-append [] t = refl
is_prefix-append (a ∷ s) t = ground (arith, is_prefix-append s t)

occurs-prefix : (s l : List ℕ) → is_prefix s l ≡ true → occurs s l ≡ true
occurs-prefix s [] h = h
occurs-prefix s (b ∷ l) h = ground (arith, h)

-- A text contains what it begins with.
pub contains-prefix : (s t : String) → contains (s <> t) s ≡ true
contains-prefix s t =
    ap (occurs (codes s)) (codes-append s t)
    ∙ occurs-prefix (codes s) (codes s ++ˡ codes t) (is_prefix-append (codes s) (codes t))
