-- ===== src/Sshd/Environment.antt =====
-- containers/side-containers/sshd/oadp-sshd.go: filterEnvironment.
use oadp_vm_file_restore.Prelude.{
  ℕ, List, [], ◌∷◌, ◌++◌, Bool, false, not, any, keep, ◌==◌, codes, codes_eq, if◌then◌else◌, ◌≡◌,
  refl, ap, ◌∙◌, arith,
}
use oadp_vm_file_restore.Sshd.Parse.{Text}

abbrev pub equals_sign : ℕ
equals_sign = 61

-- strings.SplitN(e, "=", 2)[0]
var_name : Text → Text
var_name [] = []
var_name (r ∷ e) = if r == equals_sign then [] else r ∷ var_name e

abbrev pub dangerous_names : List Text
dangerous_names =
    codes "LD_PRELOAD"
    ∷ codes "LD_LIBRARY_PATH"
    ∷ codes "LD_AUDIT"
    ∷ codes "LD_BIND_NOW"
    ∷ codes "BASH_ENV"
    ∷ codes "ENV"
    ∷ codes "SHELLOPTS"
    ∷ []

abbrev pub has_name : Text → List Text → Bool
has_name name names = any (λ n. codes_eq n name) names

unfoldable pub filter_environment : List Text → List Text
unfolding var_name
filter_environment env = keep (λ e. not (has_name (var_name e) dangerous_names)) env

keep-append {ℓ} :
    {A : Type ℓ} (p : A → Bool) (xs ys : List A) → keep p (xs ++ ys) ≡ keep p xs ++ keep p ys
keep-append p [] ys = refl
keep-append p (x ∷ xs) ys = ground (arith, keep-append p xs ys)

-- A name has no equals sign.
abbrev pub IsName : Text → Type 0
IsName name = any (λ r. r == equals_sign) name ≡ false

var_name-append : (name value : Text) → IsName name → var_name (name ++ equals_sign ∷ value) ≡ name
unfolding var_name
var_name-append [] value h = refl
var_name-append (r ∷ name) value h =
    ground (arith, h, var_name-append name value (ground (arith, h)))

keep-unless {ℓ} :
    {A : Type ℓ} (p : A → Bool) (x : A) (l : List A) (b : Bool)
    → p x ≡ not b
    → keep p (x ∷ l) ≡ (if b then [] else x ∷ []) ++ keep p l
keep-unless p x l b e = ground (arith, e)

filter-cons :
    (name value : Text) (after : List Text)
    → IsName name
    → filter_environment ((name ++ equals_sign ∷ value) ∷ after)
      ≡ (if has_name name dangerous_names then [] else (name ++ equals_sign ∷ value) ∷ [])
        ++ filter_environment after
unfolding filter_environment
filter-cons name value after h =
    keep-unless (λ e. not (has_name (var_name e) dangerous_names)) (name ++ equals_sign ∷ value)
      after (has_name name dangerous_names)
      (ap (λ n. not (has_name n dangerous_names)) (var_name-append name value h))

-- A setting of a dangerous variable, whatever its value, is dropped, and nothing else is: a
-- setting of any other variable is kept in its place.
pub filter_environment_lem :
    (before after : List Text) (name value : Text)
    → IsName name
    → filter_environment (before ++ (name ++ equals_sign ∷ value) ∷ after)
      ≡ filter_environment before
        ++ ((if has_name name dangerous_names then [] else (name ++ equals_sign ∷ value) ∷ [])
            ++ filter_environment after)
unfolding filter_environment
filter_environment_lem before after name value h =
    keep-append _ before ((name ++ equals_sign ∷ value) ∷ after)
    ∙ ap (λ l. filter_environment before ++ l) (filter-cons name value after h)
