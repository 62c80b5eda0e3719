-- ===== src/Base/Strings.antt =====
-- Go strings as lists of code points, with their equality and order.
use Prim.Native.Nat.{ℕ, compare, Ordering}
use Prim.Native.Char.{code}
use Prim.Native.String.{String}
use mathlib.Core.Path.{◌≡◌, refl}
use mathlib.Core.Logic.{◌↔◌}
use mathlib.Core.Bool.{Bool, true, false, ◌&&◌}
use mathlib.Core.List.{List, [], ◌∷◌}
use native.Mathlib.Omega.{arith}
use certhold.Base.Tests.{nat_eq}

-- A valid UTF-8 string, as the list of its code points.
abbrev pub Text : Type 0
Text = List ℕ

abbrev pub text : String → Text
text String.[] = []
text (String.◌∷◌ c s) = code c ∷ text s

-- Shut in proofs, which go by `==_iff`; unfolded in tests.
infix 50 ◌==◌
unfoldable pub ◌==◌ : Text → Text → Bool
[] == [] = true
(x ∷ xs) == (y ∷ ys) = nat_eq x y && (xs == ys)
_ == _ = false

pub ==_iff : (a b : Text) → ((a == b) ≡ true) ↔ (a ≡ b)
unfolding ◌==◌
==_iff [] [] = (λ h. refl, λ h. refl)
==_iff [] (y ∷ ys) = (λ h. cc, λ h. cc)
==_iff (x ∷ xs) [] = (λ h. cc, λ h. cc)
==_iff (x ∷ xs) (y ∷ ys) = ground (arith, ==_iff xs ys)

pub ==_refl : (a : Text) → (a == a) ≡ true
==_refl a = (==_iff a a).1 refl

-- The byte order of Go and of SQLite, which on UTF-8 is the order of code points.
unfoldable pub text_le : Text → Text → Bool
text_le [] b = true
text_le (x ∷ xs) [] = false
text_le (x ∷ xs) (y ∷ ys) =
    let rest = text_le xs ys in
    elim (compare x y) [ Ordering.lt ↦ true | Ordering.eq ↦ rest | Ordering.gt ↦ false ]
