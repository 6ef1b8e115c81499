-- ===== src/Sshd/Parse.antt =====
-- containers/side-containers/sshd/oadp-sshd.go: parseCommand. A command is the list of its
-- characters; `current` and `args` are grown at their end.
pub mod Laws
use oadp_vm_file_restore.Prelude.{
  is_empty, ℕ, List, [], ◌∷◌, ◌++◌, Bool, true, false, ◌||◌, ◌&&◌, Option, none, some, ◌==◌,
  if◌then◌else◌,
}

abbrev pub Text : Type 0
Text = List ℕ

abbrev pub backslash : ℕ
backslash = 92

abbrev pub double_quote : ℕ
double_quote = 34

abbrev pub single_quote : ℕ
single_quote = 39

abbrev pub space : ℕ
space = 32

abbrev pub tab : ℕ
tab = 9

-- The variables of the loop; `quote` is `quoteChar` while `inQuote` holds.
pub record Parser : Type 0 where
  pub args : List Text
  pub current : Text
  pub quote : Option ℕ
  pub escaped : Bool

abbrev pub start : Parser
start = record { args = []; current = []; quote = none; escaped = false }

-- current.WriteRune(r)
abbrev pub write_rune : ℕ → Parser → Parser
write_rune r p = record p { current = p.current ++ r ∷ [] }

-- The argument is added if it has any character.
unfoldable pub end_argument : Parser → Parser
end_argument p =
    if is_empty p.current then p else record p { args = p.args ++ p.current ∷ []; current = [] }

-- quoteChar == q
abbrev pub in_quote : ℕ → Option ℕ → Bool
in_quote q none = false
in_quote q (some c) = c == q

abbrev pub on_quote : ℕ → Option ℕ → Parser → Parser
on_quote r none p = record p { quote = some r }
on_quote r (some c) p = if r == c then record p { quote = none } else write_rune r p

abbrev pub on_space : ℕ → Option ℕ → Parser → Parser
on_space r none p = end_argument p
on_space r (some c) p = write_rune r p

-- A round of the loop.
unfoldable pub parse_rune : Parser → ℕ → Parser
parse_rune p r =
    if p.escaped
    then record (write_rune r p) { escaped = false }
    else if (r == backslash) && in_quote double_quote p.quote
    then record p { escaped = true }
    else if (r == double_quote) || (r == single_quote)
    then on_quote r p.quote p
    else if (r == space) || (r == tab)
    then on_space r p.quote p
    else write_rune r p

unfoldable pub parse_runes : Parser → Text → Parser
unfolding parse_rune
parse_runes p [] = p
parse_runes p (r ∷ cmd) = parse_runes (parse_rune p r) cmd

abbrev pub parsed : Option ℕ → List Text → Option (List Text)
parsed none args = some args
parsed (some c) args = none

-- parseCommand; its error is `none`.
unfoldable pub parse_command : Text → Option (List Text)
unfolding parse_runes end_argument
parse_command cmd = let p = end_argument (parse_runes start cmd) in parsed p.quote p.args
