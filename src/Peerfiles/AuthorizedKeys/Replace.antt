-- ===== src/Peerfiles/AuthorizedKeys/Replace.antt =====
-- `ReplaceCALines` of internal/peerfiles/authorized.go.
use certhold.Base.{
  All-filter, Text, Bool, true, false, not, List, [], ◌∷◌, ◌++◌, Option, any, filter, All, Lacks,
  ◌≡◌, refl, arith, ap, ◌∙◌, if◌then◌else◌,
}
use certhold.Peerfiles.Lines.{lines, unlines, newline, lines-unlines, lines-Lacks, All-append}
use certhold.Peerfiles.AuthorizedKeys.{ParsedKey, replace_loop, replace_ca_lines, is_ours, trim_end}

-- What stands before the first member that passes the test, and what stands after it.
abbrev pub until : (Text → Bool) → List Text → List Text
until p [] = []
until p (l ∷ ls) = let rest = l ∷ until p ls in if p l then [] else rest

abbrev since : (Text → Bool) → List Text → List Text
since p [] = []
since p (l ∷ ls) = let rest = since p ls in if p l then ls else rest

abbrev pub foreign : (Text → Option ParsedKey) → List Text → Text → Bool
foreign parse cas l = not (is_ours parse cas l)

until_foreign : (p : Text → Bool) (ls : List Text) → any p (until p ls) ≡ false
until_foreign p [] = refl
until_foreign p (l ∷ ls) = ground (arith, until_foreign p ls)

All-until : (P : Text → Type 0) (p : Text → Bool) (ls : List Text) → All P ls → All P (until p ls)
All-until P p [] h = tt
All-until P p (l ∷ ls) h = ground (arith, All-until P p ls h.1)

All-since : (P : Text → Type 0) (p : Text → Bool) (ls : List Text) → All P ls → All P (since p ls)
All-since P p [] h = tt
All-since P p (l ∷ ls) h = ground (arith, All-since P p ls h.1)

module _ (parse : Text → Option ParsedKey) (olds : List Text) (new : Text) where
  replaced_already :
      (ls : List Text) → replace_loop parse olds new true ls ≡ filter (foreign parse olds) ls
  unfolding replace_loop
  replaced_already [] = refl
  replaced_already (l ∷ ls) = ground (arith, replaced_already ls)

  first_replaced :
      (ls : List Text)
      → replace_loop parse olds new false ls
        ≡ until (is_ours parse olds) ls
          ++ (new ∷ filter (foreign parse olds) (since (is_ours parse olds) ls))
  unfolding replace_loop
  first_replaced [] = refl
  first_replaced (l ∷ ls) = ground (arith, first_replaced ls, replaced_already ls)

until-since :
    (p : Text → Bool) (ls : List Text)
    → filter (λ l. not (p l)) ls ≡ until p ls ++ filter (λ l. not (p l)) (since p ls)
until-since p [] = refl
until-since p (l ∷ ls) = ground (arith, until-since p ls)

-- When the new line, without its final line breaks, holds no line break: there are lines `pre` and
-- `post`, none of which trusts an old key, such that the lines of the file that do not trust an old
-- key are `pre` and then `post`, and the lines written are `pre`, the new line, and `post`; `pre` is
-- the beginning of the file up to the first line that trusts an old key.
pub replace_ca_lines_once :
    (parse : Text → Option ParsedKey) (existing : Text) (olds : List Text) (new : Text)
    → Lacks newline (trim_end newline new)
    → (pre : List Text) × (post : List Text) × (lines (replace_ca_lines parse existing olds new)
        ≡ pre ++ (trim_end newline new ∷ post))
      × (filter (foreign parse olds) (lines existing) ≡ pre ++ post)
      × (pre ≡ until (is_ours parse olds) (lines existing))
      × (any (is_ours parse olds) pre ≡ false)
unfolding replace_ca_lines
replace_ca_lines_once parse existing olds new h =
    let p = is_ours parse olds in
    let ls = lines existing in
    let post = filter (foreign parse olds) (since p ls) in
    let whole =
      All-append (Lacks newline) (until p ls) (trim_end newline new ∷ post)
        (All-until (Lacks newline) p ls (lines-Lacks existing))
        (
          h,
          All-filter (Lacks newline) (foreign parse olds) (since p ls)
              (All-since (Lacks newline) p ls (lines-Lacks existing)),
        ) in
    (
      until p ls,
      post,
      ap (λ xs. lines (unlines xs)) (first_replaced parse olds (trim_end newline new) ls)
          ∙ lines-unlines (until p ls ++ (trim_end newline new ∷ post)) whole,
      until-since p ls,
      refl,
      until_foreign p ls,
    )
