-- ===== src/Ops/Rekey/Archive.antt =====
-- internal/ops/rekey.go: the loop that looks for a name of the archive of the retired CA. What `os.Stat`
-- says of a name is the parameter `stat`: whether there is an entry, or an error.
use mathlib.Core.List.{append_cancel_left}
use certhold.Base.{
  ℕ, zero, suc, ◌+◌, ◌≤◌, ◌<◌, Text, text, Bool, true, false, not, ◌==◌, ==_iff, Option, none, some,
  List, [], ◌∷◌, ◌++◌, filter, length, length-append, length-filter, decimal, decimal_inj, contains,
  ◌≡◌, ◌≢◌, ◌⊎◌, inl, inr, refl, sym, ap, arith,
}
use certhold.Errors.{Error, Result, ok, err}

-- The name tried in a round; the first has no number.
unfoldable pub archive_name : Text → ℕ → Text
archive_name stamp zero = text "ca.old." ++ stamp
archive_name stamp (suc i) = text "ca.old." ++ (stamp ++ (text "." ++ decimal (suc i)))

-- What a round does with the answer.
abbrev searched : Result Bool → Text → Option (Result Text) → Option (Result Text)
searched (ok false) name rest = some (ok name)
searched (ok true) name rest = rest
searched (err e) name rest = some (err e)

-- The loop from round `i` on; `none` means that the fuel ran out.
unfoldable pub free_archive : (Text → Result Bool) → Text → ℕ → ℕ → Option (Result Text)
unfolding archive_name
free_archive stat stamp zero i = none
free_archive stat stamp (suc fuel) i =
    let rest = free_archive stat stamp fuel (i + 1) in
    searched (stat (archive_name stamp i)) (archive_name stamp i) rest

-- The name without a number is not one with a number.
unnumbered-ne : (stamp rest : Text) (c : ℕ) → stamp ≢ stamp ++ (c ∷ rest)
unnumbered-ne stamp rest c e =
    absurd (omega (arith, ap (λ (s : Text). length s) e, length-append stamp (c ∷ rest)))

archive_name-inj : (stamp : Text) (i j : ℕ) → archive_name stamp i ≡ archive_name stamp j → i ≡ j
unfolding archive_name
archive_name-inj stamp zero zero e = refl
archive_name-inj stamp zero (suc j) e =
    absurd (unnumbered-ne stamp (decimal (suc j)) b'.' (append_cancel_left (text "ca.old.") _ _ e))
archive_name-inj stamp (suc i) zero e =
    absurd
      (unnumbered-ne stamp (decimal (suc i)) b'.' (append_cancel_left (text "ca.old.") _ _ (sym e)))
archive_name-inj stamp (suc i) (suc j) e = decimal_inj (suc i) (suc j) (
    append_cancel_left (text ".") _ _
      (append_cancel_left stamp _ _ (append_cancel_left (text "ca.old.") _ _ e)))

length-without :
    (x : Text) (xs : List Text)
    → contains xs x ≡ true
    → length (filter (λ y. not (y == x)) xs) < length xs
unfolding contains
length-without x [] h = absurd (cc)
length-without x (y ∷ ys) h =
    ground (arith, length-without x ys, length-filter (λ z. not (z == x)) ys)

contains-without :
    (x z : Text) (xs : List Text)
    → x ≢ z
    → contains xs z ≡ true
    → contains (filter (λ y. not (y == x)) xs) z ≡ true
unfolding contains
contains-without x z [] d h = h
contains-without x z (y ∷ ys) d h =
    ground (arith, contains-without x z ys d, ==_iff y x, ==_iff y z)

Result-cases : {A : Type 0} (r : Result A) → ((a : A) × (r ≡ ok a)) ⊎ ((e : Error) × (r ≡ err e))
Result-cases (ok a) = inl (a, refl)
Result-cases (err e) = inr (e, refl)

-- A name that is free, or the error of a call that looked at a name.
abbrev pub Ended : (Text → Result Bool) → Option (Result Text) → Type 0
Ended stat none = ⊥
Ended stat (some (ok name)) = stat name ≡ ok false
Ended stat (some (err e)) = (name : Text) × (stat name ≡ err e)

free_archive_from :
    (stat : Text → Result Bool) (stamp : Text) (fuel i : ℕ) (there : List Text)
    → ((j : ℕ)
        → i ≤ j
        → stat (archive_name stamp j) ≡ ok true
        → contains there (archive_name stamp j) ≡ true)
    → length there < fuel
    → Ended stat (free_archive stat stamp fuel i)
unfolding free_archive
free_archive_from stat stamp zero i there h lt = absurd (omega arith)
free_archive_from stat stamp (suc fuel) i there h lt =
    elim (Result-cases (stat (archive_name stamp i))) [
      | inl (true, e) ↦ rw e (
          free_archive_from stat stamp fuel (i + 1)
            (filter (λ y. not (y == archive_name stamp i)) there)
            (λ j le s.
              contains-without (archive_name stamp i) (archive_name stamp j) there
                (λ same. absurd (omega (arith, archive_name-inj stamp i j same)))
                (h j (omega arith) s))
            (omega (arith, length-without (archive_name stamp i) there (h i (omega arith) e))))
      | inl (false, e) ↦ rw e e
      | inr (f, e) ↦ rw e (archive_name stamp i, e)
    ]

-- With more rounds than there are entries in the data directory the loop does not run out of rounds: it
-- gives a name at which there is no entry, or the error of a look at a name.
pub free_archive_ends :
    (stat : Text → Result Bool) (stamp : Text) (there : List Text) (fuel : ℕ)
    → ((name : Text) → stat name ≡ ok true → contains there name ≡ true)
    → length there < fuel
    → Ended stat (free_archive stat stamp fuel 0)
free_archive_ends stat stamp there fuel h lt =
    free_archive_from stat stamp fuel 0 there (λ j _ s. h (archive_name stamp j) s) lt
