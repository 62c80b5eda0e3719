-- ===== src/Base/Sort.antt =====
-- Sorting as `ORDER BY` and `sort.Strings` do, and sets of texts kept as lists.
use mathlib.Core.Path.{◌≡◌, refl}
use mathlib.Core.Bool.{Bool, false, ◌&&◌, ◌||◌}
use mathlib.Core.List.{List, [], ◌∷◌}
use native.Mathlib.Omega.{arith}
use certhold.Base.Tests.{if◌then◌else◌}
use certhold.Base.Lists.{any, filter, All}
use certhold.Base.Strings.{Text, text_le, ◌==◌, ==_iff}

-- Insertion sort by a key.
module _ {A : Type 0} (key : A → Text) where
  unfoldable pub insert_by : A → List A → List A
  unfolding text_le
  insert_by a [] = a ∷ []
  insert_by a (x ∷ xs) =
      let rest = insert_by a xs in if text_le (key a) (key x) then a ∷ x ∷ xs else x ∷ rest

  unfoldable pub sort_by : List A → List A
  unfolding insert_by
  sort_by [] = []
  sort_by (x ∷ xs) = insert_by x (sort_by xs)

  any-insert_by : (p : A → Bool) (a : A) (xs : List A) → any p (insert_by a xs) ≡ (p a || any p xs)
  unfolding insert_by
  any-insert_by p a [] = refl
  any-insert_by p a (x ∷ xs) = ground (arith, any-insert_by p a xs)

  -- Sorting keeps the members.
  pub any-sort_by : (p : A → Bool) (xs : List A) → any p (sort_by xs) ≡ any p xs
  unfolding sort_by
  any-sort_by p [] = refl
  any-sort_by p (x ∷ xs) = ground (arith, any-insert_by p x (sort_by xs), any-sort_by p xs)

  All-insert_by : (P : A → Type 0) (a : A) (xs : List A) → P a → All P xs → All P (insert_by a xs)
  unfolding insert_by
  All-insert_by P a [] h k = (h, tt)
  All-insert_by P a (x ∷ xs) h k = ground (arith, All-insert_by P a xs h k.1)

  pub All-sort_by : (P : A → Type 0) (xs : List A) → All P xs → All P (sort_by xs)
  unfolding sort_by
  All-sort_by P [] h = tt
  All-sort_by P (x ∷ xs) h = All-insert_by P x (sort_by xs) h.0 (All-sort_by P xs h.1)

unfoldable pub contains : List Text → Text → Bool
contains xs a = any (λ x. x == a) xs

pub contains-filter :
    (p : Text → Bool) (xs : List Text) (a : Text)
    → contains (filter p xs) a ≡ (contains xs a && p a)
unfolding contains
contains-filter p [] a = refl
contains-filter p (x ∷ xs) a = ground (arith, contains-filter p xs a, ==_iff x a)

unfoldable pub sort : List Text → List Text
unfolding sort_by
sort xs = sort_by (λ x. x) xs

pub contains-sort : (xs : List Text) (a : Text) → contains (sort xs) a ≡ contains xs a
unfolding contains sort
contains-sort xs a = any-sort_by (λ x. x) (λ x. x == a) xs

-- The loop that appends to `out` what `seen` lacks and marks it seen.
unfoldable pub distinct : List Text → List Text → List Text
unfolding contains
distinct seen [] = []
distinct seen (x ∷ xs) =
    let skip = distinct seen xs in
    let keep = x ∷ distinct (x ∷ seen) xs in if contains seen x then skip else keep

-- No text stands twice.
abbrev pub Distinct : List Text → Type 0
Distinct [] = Unit
Distinct (x ∷ xs) = (contains xs x ≡ false) × Distinct xs
