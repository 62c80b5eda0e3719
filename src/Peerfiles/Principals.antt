-- ===== src/Peerfiles/Principals.antt =====
-- The principals of a certificate and of a trust line: `dedupPrincipals` (which
-- `buildAuthorizedKeysLine` repeats) and `CertPrincipals` of internal/ops.
use certhold.Base.{
  Text, Bool, true, false, not, ◌&&◌, ◌||◌, ◌==◌, ==_iff, ==_refl, List, [], ◌∷◌, any, filter,
  is_empty, trim_space, contains, Distinct, if◌then◌else◌, ◌≡◌, ◌∙◌, arith,
}
use certhold.Db.{manager_principal}

-- The loop of `dedupPrincipals` over `seen`: a name is trimmed, and appended when it is not empty and
-- was not seen.
unfoldable pub dedup_from : List Text → List Text → List Text
dedup_from seen [] = []
dedup_from seen (p ∷ ps) =
    let name = trim_space p in
    let skip = dedup_from seen ps in
    let keep = name ∷ dedup_from (name ∷ seen) ps in
    if is_empty name then skip else if contains seen name then skip else keep

-- `dedupPrincipals`
unfoldable pub dedup_principals : List Text → List Text
unfolding dedup_from
dedup_principals ps = manager_principal ∷ dedup_from (manager_principal ∷ []) ps

-- `add` of `CertPrincipals` over the names that are left; `out` is what is in it so far.
unfoldable pub add_all : List Text → List Text → List Text
add_all seen [] = []
add_all seen (p ∷ ps) =
    let skip = add_all seen ps in
    let keep = p ∷ add_all (p ∷ seen) ps in
    if is_empty p then skip else if contains seen p then skip else keep

-- `CertPrincipals`: the calls of `add` in their order.
unfoldable pub cert_principals : Text → List Text → Bool → List Text
unfolding add_all
cert_principals name groups self = add_all [] (
    name
    ∷ (if self
        then manager_principal ∷ filter (λ g. not (g == manager_principal)) groups
        else groups))

seen_head : (seen : List Text) (p : Text) → contains (p ∷ seen) p ≡ true
unfolding contains
seen_head seen p = ground (arith, ==_refl p)

contains-add_all :
    (seen ps : List Text) (x : Text)
    → contains (add_all seen ps) x ≡ (not (is_empty x) && not (contains seen x) && contains ps x)
unfolding add_all contains
contains-add_all seen [] x = ground arith
contains-add_all seen (p ∷ ps) x =
    ground (arith, contains-add_all seen ps x, contains-add_all (p ∷ seen) ps x, ==_iff p x)

Distinct-add_all : (seen ps : List Text) → Distinct (add_all seen ps)
unfolding add_all
Distinct-add_all seen [] = tt
Distinct-add_all seen (p ∷ ps) = ground (
  arith,
  Distinct-add_all seen ps,
  Distinct-add_all (p ∷ seen) ps,
  contains-add_all (p ∷ seen) ps p,
  seen_head seen p,
)

contains-filter_manager :
    (gs : List Text) (x : Text)
    → contains (filter (λ g. not (g == manager_principal)) gs) x
      ≡ (not (manager_principal == x) && contains gs x)
unfolding contains
contains-filter_manager [] x = ground arith
contains-filter_manager (g ∷ gs) x = ground (
  arith,
  contains-filter_manager gs x,
  ==_iff g manager_principal,
  ==_iff manager_principal x,
  ==_iff g x,
)

abbrev offered : Text → List Text → Bool → List Text
offered name groups self =
    name
    ∷ (if self
        then manager_principal ∷ filter (λ g. not (g == manager_principal)) groups
        else groups)

contains-offered :
    (name : Text) (groups : List Text) (self : Bool) (x : Text)
    → contains (offered name groups self) x
      ≡ (name == x || self && (manager_principal == x) || contains groups x)
unfolding contains
contains-offered name groups true x = ground (arith, contains-filter_manager groups x)
contains-offered name groups false x = ground arith

-- The principals of a certificate are the peer's name and its groups, and the manager principal for
-- the manager's own row, each once and none empty; so the manager's own certificate always carries
-- the manager principal, and another's carries it only as its name or one of its groups.
pub cert_principals_are :
    (name : Text) (groups : List Text) (self : Bool)
    → Distinct (cert_principals name groups self)
      × ((x : Text)
          → contains (cert_principals name groups self) x ≡ (
              not (is_empty x)
              && (name == x || self && (manager_principal == x) || contains groups x)))
unfolding cert_principals
cert_principals_are name groups self = (
  Distinct-add_all [] (offered name groups self),
  λ x.
      contains-add_all [] (offered name groups self) x
      ∙ unfold contains in ground (arith, contains-offered name groups self x),
)

contains-dedup_from :
    (seen ps : List Text) (x : Text)
    → contains (dedup_from seen ps) x
      ≡ (not (is_empty x) && not (contains seen x) && any (λ p. trim_space p == x) ps)
unfolding dedup_from contains
contains-dedup_from seen [] x = ground arith
contains-dedup_from seen (p ∷ ps) x = ground (
  arith,
  contains-dedup_from seen ps x,
  contains-dedup_from (trim_space p ∷ seen) ps x,
  ==_iff (trim_space p) x,
)

Distinct-dedup_from : (seen ps : List Text) → Distinct (dedup_from seen ps)
unfolding dedup_from
Distinct-dedup_from seen [] = tt
Distinct-dedup_from seen (p ∷ ps) = ground (
  arith,
  Distinct-dedup_from seen ps,
  Distinct-dedup_from (trim_space p ∷ seen) ps,
  contains-dedup_from (trim_space p ∷ seen) ps (trim_space p),
  seen_head seen (trim_space p),
)

-- The principals of a trust line are the manager principal first, then the trimmed names that are
-- not empty, each once.
pub dedup_principals_are :
    (ps : List Text)
    → Distinct (dedup_principals ps)
      × ((x : Text)
          → contains (dedup_principals ps) x
            ≡ (manager_principal == x || not (is_empty x) && any (λ p. trim_space p == x) ps))
unfolding dedup_principals
dedup_principals_are ps = (
  (
    contains-dedup_from (manager_principal ∷ []) ps manager_principal
        ∙ ground (arith, seen_head [] manager_principal),
    Distinct-dedup_from (manager_principal ∷ []) ps,
  ),
  λ x. unfold contains in ground (arith, contains-dedup_from (manager_principal ∷ []) ps x),
)
