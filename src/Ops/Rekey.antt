-- ===== src/Ops/Rekey.antt =====
-- internal/ops/rekey.go: the trust line that a rotation of the CA writes on a peer.
pub mod Archive
pub mod Rotate
pub mod Run
pub mod Restore
pub mod Undoable
pub mod Unsent
pub mod Marks
pub mod Version
pub mod Abort
use mathlib.Core.List.{append_assoc}
use certhold.Base.{
  Text, text, ◌&&◌, ◌||◌, List, [], ◌∷◌, ◌++◌, All, Lacks, contains, is_empty, join, nat_eq,
  trim_space, if◌then◌else◌, ◌≡◌, refl, sym, ap, ◌∙◌, arith,
}
use certhold.Db.{manager_principal}
use certhold.Peerfiles.Lines.{newline}
use certhold.Peerfiles.Principals.{dedup_from, dedup_principals}
use certhold.Peerfiles.AuthorizedKeys.{trim_end, authorized_keys_line, principals_option, quote}

-- `trimTrailingNewline`: line breaks and carriage returns go from the end.
unfoldable pub trim_trailing_newline : Text → Text
trim_trailing_newline [] = []
trim_trailing_newline (c ∷ cs) =
    let rest = trim_trailing_newline cs in
    if (nat_eq c newline || nat_eq c 13) && is_empty rest then [] else c ∷ rest

-- The loop of `userAuthorizedKeysLine` over `seen`; a name is taken as it is.
unfoldable pub unseen_names : List Text → List Text → List Text
unseen_names seen [] = []
unseen_names seen (p ∷ ps) =
    let skip = unseen_names seen ps in
    let keep = p ∷ unseen_names (p ∷ seen) ps in
    if contains seen p then skip else if is_empty p then skip else keep

-- `userAuthorizedKeysLine`
unfoldable pub user_authorized_keys_line : Text → List Text → Text
unfolding trim_trailing_newline unseen_names
user_authorized_keys_line ca_pub principals =
    let all = manager_principal ∷ unseen_names (manager_principal ∷ []) principals in
    text "cert-authority,principals=\""
    ++ (join b',' all ++ (text "\" " ++ (trim_trailing_newline ca_pub ++ (newline ∷ []))))

abbrev pub IsTrimmed : Text → Type 0
IsTrimmed p = trim_space p ≡ p

trim_trailing_newline-Lacks : (s : Text) → Lacks 13 s → trim_trailing_newline s ≡ trim_end newline s
unfolding trim_trailing_newline trim_end
trim_trailing_newline-Lacks [] h = refl
trim_trailing_newline-Lacks (c ∷ cs) h = ground (arith, trim_trailing_newline-Lacks cs)

unseen_names-IsTrimmed :
    (seen ps : List Text) → All IsTrimmed ps → unseen_names seen ps ≡ dedup_from seen ps
unfolding unseen_names dedup_from
unseen_names-IsTrimmed seen [] h = refl
unseen_names-IsTrimmed seen (p ∷ ps) h =
    rw h.0
      (ground (arith, unseen_names-IsTrimmed seen ps h.1, unseen_names-IsTrimmed (p ∷ seen) ps h.1))

-- The pieces of the line, put together in either order.
reassoc : (a b c d : Text) → a ++ (b ++ (c ++ d)) ≡ ((a ++ b) ++ c) ++ d
reassoc a b c d = sym (append_assoc (a ++ b) c d ∙ append_assoc a b (c ++ d))

-- For a CA key without carriage returns, and principals without spaces around them, the line that a
-- rotation writes is the line of an enrollment with its line break.
pub user_authorized_keys_line_agrees :
    (ca_pub : Text) (ps : List Text)
    → Lacks 13 ca_pub
    → All IsTrimmed ps
    → user_authorized_keys_line ca_pub ps ≡ authorized_keys_line ca_pub ps ++ (newline ∷ [])
unfolding user_authorized_keys_line authorized_keys_line principals_option dedup_principals
user_authorized_keys_line_agrees ca_pub ps h trimmed = rw (trim_trailing_newline-Lacks ca_pub h) (
    rw (unseen_names-IsTrimmed (manager_principal ∷ []) ps trimmed) (
      ap (λ t. text "cert-authority,principals=\"" ++ t)
        (reassoc (join b',' (dedup_principals ps)) quote (text " " ++ trim_end newline ca_pub)
          (newline ∷ []))))
