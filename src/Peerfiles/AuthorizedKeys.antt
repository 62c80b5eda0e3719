-- ===== src/Peerfiles/AuthorizedKeys.antt =====
-- internal/peerfiles/authorized.go and `StripCALine` of clear.go: the trust lines of this instance in
-- a peer's authorized_keys. `ssh.ParseAuthorizedKey` is the parameter `parse`: the marshalled key and
-- the options of a line, or `none`.
pub mod Strip
pub mod Replace
pub mod Rewrite
use certhold.Base.{
  ℕ, Text, text, Bool, true, false, not, ◌&&◌, ◌||◌, ◌==◌, Option, none, some, List, [], ◌∷◌, ◌++◌,
  map, any, filter, is_empty, nat_eq, trim_space, join, if◌then◌else◌,
}
use certhold.Errors.{Result, ok, err, no_matching_line, malformed_line}
use certhold.Peerfiles.Lines.{lines, unlines, newline}
use certhold.Peerfiles.Principals.{dedup_principals}

pub record ParsedKey : Type 0 where
  pub marshalled : Text
  pub options : List Text

-- `strings.TrimRight(s, …)` with a one-character cutset.
unfoldable pub trim_end : ℕ → Text → Text
trim_end c [] = []
trim_end c (x ∷ xs) =
    let rest = trim_end c xs in if nat_eq x c && is_empty rest then [] else x ∷ rest

-- `strings.IndexByte` and the slice before it: the whole text when the byte is not there.
unfoldable pub before : ℕ → Text → Text
before c [] = []
before c (x ∷ xs) = let rest = before c xs in if nat_eq x c then [] else x ∷ rest

abbrev cert_authority : Text
cert_authority = text "cert-authority"

abbrev is_authority : List Text → Bool
is_authority options = any (λ o. before b'=' o == cert_authority) options

abbrev begins_with_hash : Text → Bool
begins_with_hash [] = false
begins_with_hash (c ∷ cs) = nat_eq c b'#'

-- `strings.CutPrefix`, which `strings.Index` tries at each position.
unfoldable pub cut_prefix : Text → Text → Option Text
cut_prefix [] s = some s
cut_prefix (p ∷ ps) [] = none
cut_prefix (p ∷ ps) (c ∷ cs) = let rest = cut_prefix ps cs in if nat_eq p c then rest else none

abbrev put_before : ℕ → Option (Text × Text) → Option (Text × Text)
put_before c none = none
put_before c (some (a, b)) = some (c ∷ a, b)

abbrev here_or : Option Text → Option (Text × Text) → Option (Text × Text)
here_or (some rest) later = some ([], rest)
here_or none later = later

-- What stands before the first occurrence of the pattern, and what stands after it.
unfoldable pub cut : Text → Text → Option (Text × Text)
cut pat [] = here_or (cut_prefix pat []) none
cut pat (c ∷ cs) = let later = put_before c (cut pat cs) in here_or (cut_prefix pat (c ∷ cs)) later

abbrev pub opening : Text
opening = text "principals=\""

abbrev pub quote : Text
quote = text "\""

abbrev pub spliced : Text → Text → Option (Text × Text) → Result Text
spliced pre new none = err malformed_line
spliced pre new (some (old, post)) = ok (pre ++ (new ++ post))

abbrev pub splice_first : Text → Option (Text × Text) → Result Text
splice_first new none = err malformed_line
splice_first new (some (pre, rest)) = spliced pre new (cut quote rest)

-- `rewriteLineOptions`
unfoldable pub rewrite_line_options : Text → Text → Result Text
unfolding cut cut_prefix
rewrite_line_options line new = splice_first new (cut opening line)

-- `principals="a,b"`
unfoldable pub principals_option : List Text → Text
principals_option ps = opening ++ (join b',' (dedup_principals ps) ++ quote)

-- `buildAuthorizedKeysLine`, without its line break.
unfoldable pub authorized_keys_line : Text → List Text → Text
unfolding trim_end principals_option
authorized_keys_line ca_pub principals =
    text "cert-authority,"
    ++ (principals_option principals ++ (text " " ++ trim_end newline ca_pub))

module _ (parse : Text → Option ParsedKey) where
  abbrev matches : Option ParsedKey → Text → Bool
  matches none ca = false
  matches (some k) ca = is_authority k.options && (k.marshalled == ca)

  -- `lineMatchesCA`; a line that does not parse matches nothing.
  unfoldable pub line_matches_ca : Text → Text → Bool
  unfolding before
  line_matches_ca line ca = matches (parse line) ca

  -- The test that the three rewrites make of a line, for the keys of this instance.
  unfoldable pub is_ours : List Text → Text → Bool
  unfolding trim_end line_matches_ca
  is_ours cas line =
      let trim = trim_space (trim_end 13 line) in
      not (is_empty trim || begins_with_hash trim) && any (λ ca. line_matches_ca trim ca) cas

  -- `StripCALine`
  unfoldable pub strip_ca_line : Text → List Text → Text
  strip_ca_line existing cas = unlines (filter (λ l. not (is_ours cas l)) (lines existing))

  -- The loop of `ReplaceCALines`, and the new line after it if none was replaced.
  unfoldable pub replace_loop : List Text → Text → Bool → List Text → List Text
  replace_loop olds new replaced [] = if replaced then [] else new ∷ []
  replace_loop olds new replaced (l ∷ ls) =
      let keep = l ∷ replace_loop olds new replaced ls in
      let first = new ∷ replace_loop olds new true ls in
      let drop = replace_loop olds new replaced ls in
      if not (is_ours olds l) then keep else if replaced then drop else first

  -- `ReplaceCALines`
  unfoldable pub replace_ca_lines : Text → List Text → Text → Text
  replace_ca_lines existing olds new_line =
      unlines (replace_loop olds (trim_end newline new_line) false (lines existing))

  abbrev pub onto : Text → Result (List Text) → Result (List Text)
  onto l (ok ls) = ok (l ∷ ls)
  onto l (err e) = err e

  abbrev pub with_line : Result Text → Result (List Text) → Result (List Text)
  with_line (ok l) rest = onto l rest
  with_line (err e) rest = err e

  -- The loop of `RewritePrincipals`: a line of ours is rewritten without its carriage returns.
  unfoldable pub rewrite_loop : Text → Text → List Text → Result (List Text)
  rewrite_loop ca new [] = ok []
  rewrite_loop ca new (l ∷ ls) =
      let rest = rewrite_loop ca new ls in
      if is_ours (ca ∷ []) l
      then with_line (rewrite_line_options (trim_end 13 l) new) rest
      else onto l rest

  abbrev pub or_unmatched : Bool → Result (List Text) → Result Text
  or_unmatched found (err e) = err e
  or_unmatched true (ok ls) = ok (unlines ls)
  or_unmatched false (ok ls) = err no_matching_line

  -- `RewritePrincipals`
  unfoldable pub rewrite_principals : Text → Text → List Text → Result Text
  rewrite_principals existing ca principals =
      or_unmatched (any (is_ours (ca ∷ [])) (lines existing))
        (rewrite_loop ca (principals_option principals) (lines existing))
