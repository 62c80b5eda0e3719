-- ===== src/Tui/Filter/Subsequence.antt =====
-- internal/tui/model.go: what `fuzzyMatch` finds.
use certhold.Base.{
  ℕ, Text, Bool, true, false, List, [], ◌∷◌, filter, is_empty, trim_space, if◌then◌else◌, nat_eq,
  Bool-cases, ◌≡◌, ◌↔◌, ◌⊎◌, inl, inr, refl, arith,
}
use certhold.Tui.{PeerRow, GroupRow}
use certhold.Tui.Filter.{fuzzy_match, haystack, filtered_peers, filtered_groups}

-- Every rune of the needle stands in the haystack, in order.
pub data IsSubsequence : Text → Text → Type 0 where
  end : {hay : Text} → IsSubsequence [] hay
  take :
      {c d : ℕ} {needle hay : Text}
      → c ≡ d
      → IsSubsequence needle hay
      → IsSubsequence (c ∷ needle) (d ∷ hay)
  skip : {c : ℕ} {needle hay : Text} → IsSubsequence needle hay → IsSubsequence needle (c ∷ hay)

-- Less is easier to find.
tail_found : {c : ℕ} {needle hay : Text} → IsSubsequence (c ∷ needle) hay → IsSubsequence needle hay
tail_found (take e s) = skip s
tail_found (skip s) = skip (tail_found s)

found-IsSubsequence : (needle hay : Text) → fuzzy_match needle hay ≡ true → IsSubsequence needle hay
unfolding fuzzy_match
found-IsSubsequence [] hay h = end
found-IsSubsequence (n ∷ ns) [] h = absurd (cc)
found-IsSubsequence (n ∷ ns) (c ∷ hay) h = elim (Bool-cases (nat_eq c n)) [
  | inl same ↦ take (ground (arith, same)) (found-IsSubsequence ns hay (ground (arith, h, same)))
  | inr other ↦ skip (found-IsSubsequence (n ∷ ns) hay (ground (arith, h, other)))
]

none_found : {n : ℕ} {ns : Text} → ¬ IsSubsequence (n ∷ ns) []
none_found = elim [ ]

first_found :
    {n c : ℕ} {ns hay : Text}
    → IsSubsequence (n ∷ ns) (c ∷ hay)
    → ((n ≡ c) × IsSubsequence ns hay) ⊎ IsSubsequence (n ∷ ns) hay
first_found (take e s) = inl (e, s)
first_found (skip s) = inr s

rest_found :
    {n c : ℕ} {ns hay : Text}
    → ((n ≡ c) × IsSubsequence ns hay) ⊎ IsSubsequence (n ∷ ns) hay
    → IsSubsequence ns hay
rest_found (inl s) = s.1
rest_found (inr s) = tail_found s

later_found :
    {n c : ℕ} {ns hay : Text}
    → nat_eq c n ≡ false
    → ((n ≡ c) × IsSubsequence ns hay) ⊎ IsSubsequence (n ∷ ns) hay
    → IsSubsequence (n ∷ ns) hay
later_found other (inl s) = absurd (ground (arith, s.0, other))
later_found other (inr s) = s

IsSubsequence-found : (needle hay : Text) → IsSubsequence needle hay → fuzzy_match needle hay ≡ true
unfolding fuzzy_match
IsSubsequence-found [] hay s = refl
IsSubsequence-found (n ∷ ns) [] s = absurd (none_found s)
IsSubsequence-found (n ∷ ns) (c ∷ hay) s = elim (Bool-cases (nat_eq c n)) [
  | inl same ↦ ground (arith, same, IsSubsequence-found ns hay (rest_found (first_found s)))
  | inr other ↦
      ground (arith, other, IsSubsequence-found (n ∷ ns) hay (later_found other (first_found s)))
]

fuzzy_match_iff : (needle hay : Text) → (fuzzy_match needle hay ≡ true) ↔ IsSubsequence needle hay
fuzzy_match_iff needle hay = (found-IsSubsequence needle hay, IsSubsequence-found needle hay)

-- The second list is the first without the rows that are not wanted.
pub data Selects {A : Type 0} (Wanted : A → Type 0) : List A → List A → Type 0 where
  no_rows : Selects Wanted [] []
  shown :
      {x : A} {rows kept : List A}
      → Wanted x
      → Selects Wanted rows kept
      → Selects Wanted (x ∷ rows) (x ∷ kept)
  hidden :
      {x : A} {rows kept : List A}
      → ¬ Wanted x
      → Selects Wanted rows kept
      → Selects Wanted (x ∷ rows) kept

Selects-all :
    {A : Type 0} (Wanted : A → Type 0)
    → ((x : A) → Wanted x)
    → (rows : List A) → Selects Wanted rows rows
Selects-all Wanted h [] = no_rows
Selects-all Wanted h (x ∷ rows) = shown (h x) (Selects-all Wanted h rows)

Selects-row :
    {A : Type 0} (Wanted : A → Type 0) (b : Bool) (x : A) (rows kept : List A)
    → (b ≡ true) ↔ Wanted x
    → Selects Wanted rows kept
    → Selects Wanted (x ∷ rows) (if b then x ∷ kept else kept)
Selects-row Wanted true x rows kept h s = shown (h.0 refl) s
Selects-row Wanted false x rows kept h s = hidden (λ w. absurd (cc (h.1 w))) s

Selects-filter :
    {A : Type 0} (Wanted : A → Type 0) (test : A → Bool)
    → ((x : A) → (test x ≡ true) ↔ Wanted x)
    → (rows : List A) → Selects Wanted rows (filter test rows)
Selects-filter Wanted test h [] = no_rows
Selects-filter Wanted test h (x ∷ rows) =
    Selects-row Wanted (test x) x rows (filter test rows) (h x) (Selects-filter Wanted test h rows)

module _ (lower : Text → Text) where
  -- The needle is the trimmed and lowered text of the filter; the haystack is lowered too.
  abbrev pub Wants : Text → Text → Type 0
  Wants q hay = IsSubsequence (lower (trim_space q)) (lower hay)

  Selects-when :
      {A : Type 0} (needle : Text) (hay : A → Text) (rows : List A)
      → Selects
          (λ x. IsSubsequence needle (lower (hay x)))
          rows
          (if is_empty needle then rows else filter (λ x. fuzzy_match needle (lower (hay x))) rows)
  Selects-when [] hay rows = Selects-all _ (λ x. end) rows
  Selects-when (n ∷ ns) hay rows =
      Selects-filter _ _ (λ x. fuzzy_match_iff (n ∷ ns) (lower (hay x))) rows

  -- The filter of a table shows, in their order, exactly the rows for which the runes of what was
  -- typed, without the spaces around it and in lower case, stand in order in the lowered text of the
  -- row, with others between them or not; the other rows are left out. The text of a peer has its
  -- name, address, user, groups and allowed groups, and that of a group is its name.
  pub filtered_exactly :
      (q : Text) (peers : List PeerRow) (groups : List GroupRow)
      → Selects (λ p. Wants q (haystack p)) peers (filtered_peers lower q peers)
        × Selects (λ g. Wants q g.name) groups (filtered_groups lower q groups)
  unfolding filtered_peers filtered_groups
  filtered_exactly q peers groups = (
    Selects-when (lower (trim_space q)) haystack peers,
    Selects-when (lower (trim_space q)) (λ (g : GroupRow). g.name) groups,
  )
