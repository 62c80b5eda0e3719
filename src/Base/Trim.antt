-- ===== src/Base/Trim.antt =====
-- Go's `strings.TrimSpace`, `strings.Split` at one character and `strings.Join`.
use Prim.Native.Nat.{ℕ, ◌≤◌}
use mathlib.Core.Path.{◌≡◌, refl, ap}
use mathlib.Core.Logic.{inl, inr}
use mathlib.Core.Bool.{Bool, true, false, ◌&&◌, ◌||◌}
use mathlib.Core.List.{List, [], ◌∷◌, ◌++◌}
use native.Mathlib.Omega.{arith}
use certhold.Base.Tests.{nat_eq, leb, Bool-cases, if◌then◌else◌}
use certhold.Base.Lists.{any, All, length}
use certhold.Base.Strings.{Text}

-- `unicode.IsSpace`
pub is_space : ℕ → Bool
is_space c =
    (leb 9 c && leb c 13)
    || nat_eq c 0x20
    || nat_eq c 0x85
    || nat_eq c 0xa0
    || nat_eq c 0x1680
    || (leb 0x2000 c && leb c 0x200a)
    || nat_eq c 0x2028
    || nat_eq c 0x2029
    || nat_eq c 0x202f
    || nat_eq c 0x205f
    || nat_eq c 0x3000

abbrev pub is_empty {ℓ} : {A : Type ℓ} → List A → Bool
is_empty [] = true
is_empty (x ∷ xs) = false

pub trim_left : Text → Text
trim_left [] = []
trim_left (c ∷ cs) = let rest = trim_left cs in if is_space c then rest else c ∷ cs

pub trim_right : Text → Text
trim_right [] = []
trim_right (c ∷ cs) =
    let rest = trim_right cs in if is_space c && is_empty rest then [] else c ∷ rest

unfoldable pub trim_space : Text → Text
unfolding trim_left trim_right is_space
trim_space s = trim_right (trim_left s)

abbrev pub prepend : ℕ → List Text → List Text
prepend c [] = (c ∷ []) ∷ []
prepend c (x ∷ xs) = (c ∷ x) ∷ xs

unfoldable pub split : ℕ → Text → List Text
split sep [] = [] ∷ []
split sep (c ∷ cs) = let rest = split sep cs in if nat_eq c sep then [] ∷ rest else prepend c rest

unfoldable pub join : ℕ → List Text → Text
join sep [] = []
join sep (x ∷ []) = x
join sep (x ∷ y ∷ r) = x ++ (sep ∷ join sep (y ∷ r))

trim_right_idem : (s : Text) → trim_right (trim_right s) ≡ trim_right s
unfolding trim_right
trim_right_idem [] = refl
trim_right_idem (c ∷ cs) = ground (arith, trim_right_idem cs)

trim_left_idem : (s : Text) → trim_left (trim_left s) ≡ trim_left s
unfolding trim_left
trim_left_idem [] = refl
trim_left_idem (c ∷ cs) = ground (arith, trim_left_idem cs)

length-trim_left : (s : Text) → length (trim_left s) ≤ length s
unfolding trim_left
length-trim_left [] = omega arith
length-trim_left (c ∷ cs) = ground (arith, length-trim_left cs)

-- What begins with no space keeps its beginning when its end is trimmed.
trim_left-trim_right : (s : Text) → trim_left s ≡ s → trim_left (trim_right s) ≡ trim_right s
unfolding trim_left trim_right
trim_left-trim_right [] h = refl
trim_left-trim_right (c ∷ cs) h = elim (Bool-cases (is_space c)) [
  | inl space ↦ absurd (ground (arith, length-trim_left cs, space, ap (length {A = ℕ}) h))
  | inr other ↦ ground (arith, other)
]

pub trim_space_idem : (s : Text) → trim_space (trim_space s) ≡ trim_space s
unfolding trim_space
trim_space_idem s =
    rw (trim_left-trim_right (trim_left s) (trim_left_idem s)) (trim_right_idem (trim_left s))

-- A text in which the separator does not stand.
abbrev pub Lacks : ℕ → Text → Type 0
Lacks sep s = any (λ c. nat_eq c sep) s ≡ false

pub split-Lacks : (sep : ℕ) (x : Text) → Lacks sep x → split sep x ≡ x ∷ []
unfolding split
split-Lacks sep [] h = refl
split-Lacks sep (c ∷ cs) h = ground (arith, split-Lacks sep cs)

pub split-append :
    (sep : ℕ) (x y : Text) → Lacks sep x → split sep (x ++ (sep ∷ y)) ≡ x ∷ split sep y
unfolding split
split-append sep [] y h = ground arith
split-append sep (c ∷ cs) y h = ground (arith, split-append sep cs y)

-- Splitting undoes joining, for fields without the separator.
pub split-join :
    (sep : ℕ) (x : Text) (xs : List Text)
    → All (Lacks sep) (x ∷ xs)
    → split sep (join sep (x ∷ xs)) ≡ x ∷ xs
unfolding join
split-join sep x [] h = split-Lacks sep x h.0
split-join sep x (y ∷ r) h = cc (split-append sep x (join sep (y ∷ r)) h.0, split-join sep y r h.1)
