-- ===== src/Ops/Unlocker.antt =====
-- internal/ops/sessionunlocker.go. The prompt is a call outside, which may fail; the mutex makes each
-- call one step.
use certhold.Base.{
  ℕ, zero, suc, ◌+◌, ◌≤◌, Text, Option, none, some, List, [], ◌∷◌, ◌≡◌, refl, ap, ◌∙◌, arith,
}
use certhold.Errors.{external, Result, ok, err}

-- `SessionUnlocker`: `cached` and `got`, and what the prompt has left to answer.
pub record Unlocker : Type 0 where
  pub cached : Option Text
  pub answers : List (Result Text)
  pub prompts : ℕ

abbrev prompted : Unlocker → List (Result Text) → Result Text × Unlocker
prompted u [] = (err external, record u { prompts = suc u.prompts })
prompted u (ok pass ∷ rest) =
    (ok pass, record { cached = some pass; answers = rest; prompts = suc u.prompts })
prompted u (err e ∷ rest) = (err e, record u { answers = rest; prompts = suc u.prompts })

abbrev get_of : Unlocker → Option Text → Result Text × Unlocker
get_of u (some pass) = (ok pass, u)
get_of u none = prompted u u.answers

-- `Get`
unfoldable pub get : Unlocker → Result Text × Unlocker
get u = get_of u u.cached

-- `Forget`, which `Close` calls.
unfoldable pub forget : Unlocker → Unlocker
forget u = record u { cached = none }

-- `n` calls of `Get`.
unfoldable pub gets : ℕ → Unlocker → List (Result Text) × Unlocker
gets zero u = ([], u)
gets (suc n) u = let (r, v) = get u in let (rs, z) = gets n v in (r ∷ rs, z)

abbrev pub replicate : {A : Type 0} → ℕ → A → List A
replicate zero a = []
replicate (suc n) a = a ∷ replicate n a

prompted_caches :
    (u : Unlocker) (answers : List (Result Text)) (pass : Text)
    → (prompted u answers).0 ≡ ok pass
    → (prompted u answers).1.cached ≡ some pass
prompted_caches u [] pass h = absurd (cc h)
prompted_caches u (ok p ∷ rest) pass h = cc h
prompted_caches u (err e ∷ rest) pass h = absurd (cc h)

get_of_caches :
    (u : Unlocker) (o : Option Text) (pass : Text)
    → u.cached ≡ o
    → (get_of u o).0 ≡ ok pass
    → (get_of u o).1.cached ≡ some pass
get_of_caches u (some p) pass e h = cc (e, h)
get_of_caches u none pass e h = prompted_caches u u.answers pass h

prompted_counts :
    (u : Unlocker) (answers : List (Result Text)) → (prompted u answers).1.prompts ≡ u.prompts + 1
prompted_counts u [] = omega arith
prompted_counts u (ok p ∷ rest) = omega arith
prompted_counts u (err e ∷ rest) = omega arith

get_of_counts : (u : Unlocker) (o : Option Text) → (get_of u o).1.prompts ≤ u.prompts + 1
get_of_counts u (some p) = omega arith
get_of_counts u none = omega (arith, prompted_counts u u.answers)

get_caches : (u : Unlocker) (pass : Text) → (get u).0 ≡ ok pass → (get u).1.cached ≡ some pass
unfolding get
get_caches u pass h = get_of_caches u u.cached pass refl h

cached_gets :
    (n : ℕ) (u : Unlocker) (pass : Text)
    → u.cached ≡ some pass
    → gets n u ≡ (replicate n (ok pass), u)
unfolding gets get
cached_gets zero u pass h = refl
cached_gets (suc n) u pass h =
    let got : get u ≡ (ok pass, u) = ap (get_of u) h in
    ap (λ r. (r.0 ∷ (gets n r.1).0, (gets n r.1).1)) got
    ∙ ap (λ z. (ok pass ∷ z.0, z.1)) (cached_gets n u pass h)

-- Once a passphrase was obtained, any number of further calls give the same passphrase, and prompt no
-- more; a call that fails stores nothing, so the next one prompts again.
pub prompts_once :
    (u : Unlocker) (pass : Text) (n : ℕ)
    → (get u).0 ≡ ok pass
    → (gets n (get u).1 ≡ (replicate n (ok pass), (get u).1)) × ((get u).1.prompts ≤ u.prompts + 1)
unfolding get
prompts_once u pass n h =
    (cached_gets n (get u).1 pass (get_caches u pass h), get_of_counts u u.cached)

-- After `Forget` the next call prompts, whatever was cached.
pub forget_rearms : (u : Unlocker) → (get (forget u)).1.prompts ≡ u.prompts + 1
unfolding get forget
forget_rearms u = prompted_counts (forget u) u.answers
