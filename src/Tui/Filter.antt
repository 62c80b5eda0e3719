-- ===== src/Tui/Filter.antt =====
-- internal/tui/model.go: the filter of the tables.
pub mod Subsequence
use certhold.Base.{
  ℕ, Text, text, Bool, true, false, List, [], ◌∷◌, ◌++◌, filter, is_empty, nat_eq, trim_space, join,
  if◌then◌else◌,
}
use certhold.Tui.{PeerRow, GroupRow}

-- `fuzzyMatch`: the loop over the haystack, with what is left of the needle.
unfoldable pub fuzzy_match : Text → Text → Bool
fuzzy_match [] hay = true
fuzzy_match (n ∷ ns) [] = false
fuzzy_match (n ∷ ns) (h ∷ hs) = fuzzy_match (if nat_eq h n then ns else n ∷ ns) hs

-- The text in which a peer is looked for.
unfoldable pub haystack : PeerRow → Text
haystack p =
    p.name
    ++ (text " "
        ++ (p.dial_host
            ++ (text " "
                ++ (p.target_user
                    ++ (text " " ++ (join b',' p.groups ++ (text " " ++ join b',' p.allowed)))))))

-- `strings.ToLower` is the parameter `lower`.
module _ (lower : Text → Text) where
  -- `filteredPeers`, for the text of the filter.
  unfoldable pub filtered_peers : Text → List PeerRow → List PeerRow
  unfolding fuzzy_match haystack trim_space
  filtered_peers q peers =
      let needle = lower (trim_space q) in
      if is_empty needle then peers else filter (λ p. fuzzy_match needle (lower (haystack p))) peers

  -- `filteredGroups`
  unfoldable pub filtered_groups : Text → List GroupRow → List GroupRow
  unfolding fuzzy_match trim_space
  filtered_groups q groups =
      let needle = lower (trim_space q) in
      if is_empty needle then groups else filter (λ g. fuzzy_match needle (lower g.name)) groups
