-- ===== src/Peerfiles/Lines.antt =====
-- The line scanner of internal/peerfiles/authorized.go, and the writing of lines.
use certhold.Base.{
  ℕ, Text, false, List, [], ◌∷◌, ◌++◌, All, nat_eq, prepend, Lacks, if◌then◌else◌, ◌≡◌, refl, arith,
  ap, ◌∙◌,
}

abbrev pub newline : ℕ
newline = 10

-- `lineScanner`: the lines up to each line break; what follows the last break is a line if it is not
-- empty.
unfoldable pub lines : Text → List Text
lines [] = []
lines (c ∷ cs) = let rest = lines cs in if nat_eq c newline then [] ∷ rest else prepend c rest

-- `writeLine`, over all the lines that are written.
unfoldable pub unlines : List Text → Text
unlines [] = []
unlines (l ∷ ls) = l ++ (newline ∷ unlines ls)

lines-append : (l rest : Text) → Lacks newline l → lines (l ++ (newline ∷ rest)) ≡ l ∷ lines rest
unfolding lines
lines-append [] rest h = ground arith
lines-append (c ∷ cs) rest h = ground (arith, lines-append cs rest)

-- Reading back what was written.
pub lines-unlines : (ls : List Text) → All (Lacks newline) ls → lines (unlines ls) ≡ ls
unfolding unlines
lines-unlines [] h = unfold lines in refl
lines-unlines (l ∷ ls) h =
    lines-append l (unlines ls) h.0 ∙ ap (λ xs. l ∷ xs) (lines-unlines ls h.1)

Lacks-prepend :
    (c : ℕ) (ls : List Text)
    → nat_eq c newline ≡ false
    → All (Lacks newline) ls
    → All (Lacks newline) (prepend c ls)
Lacks-prepend c [] h k = ground arith
Lacks-prepend c (l ∷ ls) h k = ground arith

-- No line holds a line break.
pub lines-Lacks : (s : Text) → All (Lacks newline) (lines s)
unfolding lines
lines-Lacks [] = tt
lines-Lacks (c ∷ cs) = ground (arith, lines-Lacks cs, Lacks-prepend c (lines cs))

pub All-append : (P : Text → Type 0) (xs ys : List Text) → All P xs → All P ys → All P (xs ++ ys)
All-append P [] ys h k = k
All-append P (x ∷ xs) ys h k = (h.0, All-append P xs ys h.1 k)

-- A text that is one line with no line break at its end is written back with one.
pub unlines-lines_unended :
    (c : ℕ) (s : Text) → Lacks newline (c ∷ s) → unlines (lines (c ∷ s)) ≡ (c ∷ s) ++ (newline ∷ [])
unfolding unlines lines
unlines-lines_unended c [] h = ground arith
unlines-lines_unended c (d ∷ s) h = ground (arith, unlines-lines_unended d s)
