-- ===== src/Sshd/Parse/Laws.antt =====
-- What parseCommand makes of a command.
use oadp_vm_file_restore.Prelude.{
  ℕ, ◌≡◌, refl, sym, ap, subst, ◌∙◌, inl, inr, arith, List, [], ◌∷◌, ◌++◌, append_assoc, append-nil,
  false, ◌||◌, ◌&&◌, Option, none, some, All, All-append, is_empty, ◌==◌, if◌then◌else◌, Bool-cases,
}
use oadp_vm_file_restore.Sshd.Parse.{
  Text, backslash, double_quote, single_quote, tab, in_quote, space, Parser, start, end_argument,
  parse_rune, parse_runes, parsed, parse_command, on_quote, on_space,
}

-- An argument in double quotes, as a shell writes it.
abbrev pub quoted_rune : ℕ → Text
quoted_rune r = if (r == double_quote) || (r == backslash) then backslash ∷ r ∷ [] else r ∷ []

abbrev pub quoted_runes : Text → Text
quoted_runes [] = []
quoted_runes (r ∷ arg) = quoted_rune r ++ quoted_runes arg

abbrev pub quoted : Text → Text
quoted arg = double_quote ∷ (quoted_runes arg ++ double_quote ∷ [])

-- Each argument is followed by a space.
abbrev pub command_of : List Text → Text
command_of [] = []
command_of (arg ∷ args) = quoted arg ++ space ∷ command_of args

abbrev inside : List Text → Text → Parser
inside args current = record {
  args = args;
  current = current;
  quote = some double_quote;
  escaped = false;
}

abbrev pub outside : List Text → Text → Parser
outside args current = record { args = args; current = current; quote = none; escaped = false }

pub parse_runes-append :
    (p : Parser) (xs ys : Text) → parse_runes p (xs ++ ys) ≡ parse_runes (parse_runes p xs) ys
unfolding parse_runes
parse_runes-append p [] ys = refl
parse_runes-append p (x ∷ xs) ys = parse_runes-append (parse_rune p x) xs ys

parse-quoted_rune :
    (args : List Text) (current : Text) (r : ℕ)
    → parse_runes (inside args current) (quoted_rune r) ≡ inside args (current ++ r ∷ [])
unfolding parse_runes parse_rune
parse-quoted_rune args current r = ground (arith)

parse-quoted_runes :
    (args : List Text) (current arg : Text)
    → parse_runes (inside args current) (quoted_runes arg) ≡ inside args (current ++ arg)
parse-quoted_runes args current [] =
    unfold parse_runes in ap (inside args) (sym (append-nil current))
parse-quoted_runes args current (r ∷ arg) =
    parse_runes-append (inside args current) (quoted_rune r) (quoted_runes arg)
    ∙ ap (λ p. parse_runes p (quoted_runes arg)) (parse-quoted_rune args current r)
    ∙ parse-quoted_runes args (current ++ r ∷ []) arg
    ∙ ap (inside args) (append_assoc current (r ∷ []) arg)

parse-opening :
    (args : List Text) (current text : Text)
    → parse_runes (outside args current) (double_quote ∷ text)
      ≡ parse_runes (inside args current) text
unfolding parse_runes parse_rune
parse-opening args current text = refl

parse-closing :
    (args : List Text) (current text : Text)
    → parse_runes (inside args current) (double_quote ∷ text)
      ≡ parse_runes (outside args current) text
unfolding parse_runes parse_rune
parse-closing args current text = refl

pub parse-quoted :
    (args : List Text) (current arg rest : Text)
    → parse_runes (outside args current) (quoted arg ++ rest)
      ≡ parse_runes (outside args (current ++ arg)) rest
parse-quoted args current arg rest =
    parse_runes-append (outside args current) (quoted arg) rest
    ∙ ap (λ p. parse_runes p rest)
        (parse-opening args current (quoted_runes arg ++ double_quote ∷ [])
          ∙ parse_runes-append (inside args current) (quoted_runes arg) (double_quote ∷ [])
          ∙ ap (λ p. parse_runes p (double_quote ∷ [])) (parse-quoted_runes args current arg)
          ∙ parse-closing args (current ++ arg) []
          ∙ unfold parse_runes in refl)

parse-space :
    (args : List Text) (arg rest : Text)
    → is_empty arg ≡ false
    → parse_runes (outside args arg) (space ∷ rest)
      ≡ parse_runes (outside (args ++ arg ∷ []) []) rest
unfolding parse_runes parse_rune end_argument
parse-space args arg rest h = rw h refl

pub parse-command_of :
    (args given : List Text)
    → All (λ arg. is_empty arg ≡ false) given
    → parse_runes (outside args []) (command_of given) ≡ outside (args ++ given) []
parse-command_of args [] h = unfold parse_runes in ap (λ l. outside l []) (sym (append-nil args))
parse-command_of args (arg ∷ given) h =
    parse-quoted args [] arg (space ∷ command_of given)
    ∙ parse-space args arg (command_of given) h.0
    ∙ parse-command_of (args ++ arg ∷ []) given h.1
    ∙ ap (λ l. outside l []) (append_assoc args (arg ∷ []) given)

-- A command that holds arguments in double quotes, each followed by a space, is read back as those
-- arguments, whatever characters they have, if none of them is empty.
pub parse_command-command_of :
    (args : List Text)
    → All (λ arg. is_empty arg ≡ false) args
    → parse_command (command_of args) ≡ some args
unfolding parse_command end_argument
parse_command-command_of args h = rw (parse-command_of [] args h) refl

-- no argument of the list is empty
abbrev NoneEmpty : List Text → Type 0
NoneEmpty args = All (λ arg. is_empty arg ≡ false) args

end_argument-NoneEmpty : (p : Parser) → NoneEmpty p.args → NoneEmpty (end_argument p).args
unfolding end_argument
end_argument-NoneEmpty p h = elim (Bool-cases (is_empty p.current)) [
  | inl e ↦ rw e h
  | inr e ↦ rw e (All-append (λ arg. is_empty arg ≡ false) p.args (p.current ∷ []) h (e, tt))
]

on_quote-NoneEmpty :
    (r : ℕ) (quote : Option ℕ) (p : Parser) → NoneEmpty p.args → NoneEmpty (on_quote r quote p).args
on_quote-NoneEmpty r none p h = h
on_quote-NoneEmpty r (some c) p h = elim (Bool-cases (r == c)) [ inl e ↦ rw e h | inr e ↦ rw e h ]

on_space-NoneEmpty :
    (r : ℕ) (quote : Option ℕ) (p : Parser) → NoneEmpty p.args → NoneEmpty (on_space r quote p).args
on_space-NoneEmpty r none p h = end_argument-NoneEmpty p h
on_space-NoneEmpty r (some c) p h = h

parse_rune-NoneEmpty : (p : Parser) (r : ℕ) → NoneEmpty p.args → NoneEmpty (parse_rune p r).args
unfolding parse_rune
parse_rune-NoneEmpty p r h = elim (Bool-cases p.escaped) [
  | inl e ↦ rw e h
  | inr e ↦ elim (Bool-cases ((r == backslash) && in_quote double_quote p.quote)) [
    | inl f ↦ rw (e, f) h
    | inr f ↦ elim (Bool-cases ((r == double_quote) || (r == single_quote))) [
      | inl g ↦ rw (e, f, g) (on_quote-NoneEmpty r p.quote (record p { escaped = false }) h)
      | inr g ↦ elim (Bool-cases ((r == space) || (r == tab))) [
        | inl i ↦ rw (e, f, g, i) (on_space-NoneEmpty r p.quote (record p { escaped = false }) h)
        | inr i ↦ rw (e, f, g, i) h
      ]
    ]
  ]
]

parse_runes-NoneEmpty :
    (p : Parser) (cmd : Text) → NoneEmpty p.args → NoneEmpty (parse_runes p cmd).args
unfolding parse_runes
parse_runes-NoneEmpty p [] h = h
parse_runes-NoneEmpty p (r ∷ cmd) h =
    parse_runes-NoneEmpty (parse_rune p r) cmd (parse_rune-NoneEmpty p r h)

-- No argument that is read from a command is empty.
pub parse_command-All :
    (cmd : Text) (args : List Text)
    → parse_command cmd ≡ some args
    → All (λ arg. is_empty arg ≡ false) args
unfolding parse_command
parse_command-All cmd args h =
    go (end_argument (parse_runes start cmd)).quote (end_argument (parse_runes start cmd)).args
      (end_argument-NoneEmpty _ (parse_runes-NoneEmpty start cmd tt)) h
  where
    go :
        (quote : Option ℕ) (l : List Text)
        → NoneEmpty l
        → parsed quote l ≡ some args
        → NoneEmpty args
    go none l k e = subst NoneEmpty (ap (λ o. elim o [ none ↦ l | some a ↦ a ]) e) k
    go (some c) l k e = absurd (cc)
