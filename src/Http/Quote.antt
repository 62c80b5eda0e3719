-- ===== src/Http/Quote.antt =====
-- `shellQuote` of internal/httpserver/server.go, by which values from the database stand in the
-- install script, and the reading of a word by a POSIX shell.
use certhold.Base.{
  ℕ, Text, true, Option, none, some, [], ◌∷◌, ◌++◌, nat_eq, if◌then◌else◌, ◌≡◌, refl, ap, ◌∙◌,
  arith, sym, Bool-cases, inl, inr,
}

abbrev pub apostrophe : ℕ
apostrophe = b'\''

abbrev pub backslash : ℕ
backslash = b'\\'

-- `strings.ReplaceAll(s, "'", `'\''`)`
unfoldable pub escape : Text → Text
escape [] = []
escape (c ∷ cs) =
    let rest = escape cs in
    if nat_eq c apostrophe
    then apostrophe ∷ backslash ∷ apostrophe ∷ apostrophe ∷ rest
    else c ∷ rest

-- `shellQuote`
unfoldable pub shell_quote : Text → Text
unfolding escape
shell_quote s = apostrophe ∷ (escape s ++ (apostrophe ∷ []))

-- Where the shell is in a word.
pub data Mode : Type 0 where
  outside escaped quoted : Mode

abbrev put : ℕ → Option Text → Option Text
put c none = none
put c (some s) = some (c ∷ s)

-- Quote removal of POSIX shells, for words of single quotes, backslashes and other characters:
-- between single quotes each character stands for itself; outside, a backslash makes the next
-- character stand for itself. Any other character outside of quotes is refused here, so a word that
-- is read has nothing that the shell would expand or split.
unfoldable pub sh_word : Mode → Text → Option Text
sh_word outside [] = some []
sh_word escaped [] = none
sh_word quoted [] = none
sh_word outside (c ∷ cs) =
    let word = sh_word quoted cs in
    let next = sh_word escaped cs in
    if nat_eq c apostrophe then word else if nat_eq c backslash then next else none
sh_word escaped (c ∷ cs) = put c (sh_word outside cs)
sh_word quoted (c ∷ cs) =
    let over = sh_word outside cs in
    let next = put c (sh_word quoted cs) in if nat_eq c apostrophe then over else next

nat_eq-true : (a b : ℕ) → nat_eq a b ≡ true → a ≡ b
nat_eq-true a b h = ground arith

inside_escape : (s : Text) → sh_word quoted (escape s ++ (apostrophe ∷ [])) ≡ some s
unfolding escape sh_word
inside_escape [] = refl
inside_escape (c ∷ cs) = elim (Bool-cases (nat_eq c apostrophe)) [
  | inl e ↦
      let same = nat_eq-true c apostrophe e in
      ap (λ d. sh_word quoted (escape (d ∷ cs) ++ (apostrophe ∷ []))) same
      ∙ ap (put apostrophe) (inside_escape cs)
      ∙ ap (λ d. some (d ∷ cs)) (sym same)
  | inr e ↦ rw e (rw e (ap (put c) (inside_escape cs)))
]

-- A shell that reads the quoted text gets back the text, whatever is in it, and expands nothing.
pub shell_quote_reads_back : (s : Text) → sh_word outside (shell_quote s) ≡ some s
unfolding shell_quote sh_word
shell_quote_reads_back s = inside_escape s
