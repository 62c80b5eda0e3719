-- ===== src/Peerfiles/AuthorizedKeys/Strip.antt =====
-- `StripCALine` of internal/peerfiles/clear.go.
use certhold.Base.{
  All-filter, ℕ, Text, Bool, false, not, Option, List, [], ◌∷◌, ◌++◌, any, filter, Lacks, ◌≡◌, refl,
  arith, ap, ◌∙◌,
}
use certhold.Peerfiles.Lines.{
  lines, unlines, newline, lines-unlines, lines-Lacks, unlines-lines_unended,
}
use certhold.Peerfiles.AuthorizedKeys.{ParsedKey, strip_ca_line, is_ours}

none_left : (p : Text → Bool) (ls : List Text) → any p (filter (λ l. not (p l)) ls) ≡ false
none_left p [] = refl
none_left p (l ∷ ls) = ground (arith, none_left p ls)

filter_all : (p : Text → Bool) (ls : List Text) → any p ls ≡ false → filter (λ l. not (p l)) ls ≡ ls
filter_all p [] h = refl
filter_all p (l ∷ ls) h = ground (arith, filter_all p ls)

module _ (parse : Text → Option ParsedKey) where
  -- After the strip the lines of the file are the lines that it had, in order, without those that
  -- trust one of the keys; so none of them trusts one of the keys any more.
  pub strip_ca_line-lines :
      (existing : Text) (cas : List Text)
      → (lines (strip_ca_line parse existing cas)
          ≡ filter (λ l. not (is_ours parse cas l)) (lines existing))
        × (any (is_ours parse cas) (lines (strip_ca_line parse existing cas)) ≡ false)
  unfolding strip_ca_line
  strip_ca_line-lines existing cas =
      let same = lines-unlines (filter (λ l. not (is_ours parse cas l)) (lines existing)) (
        All-filter (Lacks newline) (λ l. not (is_ours parse cas l)) (lines existing)
          (lines-Lacks existing)) in
      (same, ap (any (is_ours parse cas)) same ∙ none_left (is_ours parse cas) (lines existing))

  -- A file of one line that is not ours and has no line break at its end is not returned unchanged:
  -- it gets a line break.
  pub strip_ca_line_unended :
      (c : ℕ) (s : Text) (cas : List Text)
      → Lacks newline (c ∷ s)
      → any (is_ours parse cas) (lines (c ∷ s)) ≡ false
      → strip_ca_line parse (c ∷ s) cas ≡ (c ∷ s) ++ (newline ∷ [])
  unfolding strip_ca_line
  strip_ca_line_unended c s cas h foreign =
      ap unlines (filter_all (is_ours parse cas) (lines (c ∷ s)) foreign)
      ∙ unlines-lines_unended c s h
