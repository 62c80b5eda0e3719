-- ===== src/Base/Decimal.antt =====
-- Go's `%d` of a number that is not negative.
use Prim.Native.Nat.{ℕ, zero, suc, ◌+◌, ◌*◌, ◌/◌, ◌%◌, ◌-◌, ◌<◌}
use mathlib.Core.Path.{◌≡◌, refl, sym, ap, ◌∙◌}
use mathlib.Core.List.{[], ◌∷◌, ◌++◌}
use native.Mathlib.Omega.{arith}
use certhold.Base.Tests.{ltb, if◌then◌else◌}
use certhold.Base.Strings.{Text}

digits : ℕ → ℕ → Text
digits zero n = []
digits (suc f) n =
    let rest = digits f (n / 10) ++ ((48 + n % 10) ∷ []) in if ltb n 10 then (48 + n) ∷ [] else rest

-- A number has at most as many digits as it says, plus one.
unfoldable pub decimal : ℕ → Text
unfolding digits
decimal n = digits (suc n) n

value_from : ℕ → Text → ℕ
value_from acc [] = acc
value_from acc (c ∷ cs) = value_from (acc * 10 + (c - 48)) cs

value-append :
    (acc : ℕ) (s : Text) (c : ℕ) → value_from acc (s ++ (c ∷ [])) ≡ value_from acc s * 10 + (c - 48)
unfolding value_from
value-append acc [] c = refl
value-append acc (d ∷ s) c = value-append (acc * 10 + (d - 48)) s c

value-digits : (f n : ℕ) → n < f → value_from 0 (digits f n) ≡ n
unfolding digits value_from
value-digits zero n h = elim h [ ]
value-digits (suc f) n h =
    ground (arith, value-append 0 (digits f (n / 10)) (48 + n % 10), value-digits f (n / 10))

-- Numbers with the same text are the same.
pub decimal_inj : (a b : ℕ) → decimal a ≡ decimal b → a ≡ b
unfolding decimal
decimal_inj a b e =
    sym (value-digits (suc a) a (omega arith))
    ∙ ap (value_from 0) e
    ∙ value-digits (suc b) b (omega arith)
