-- ===== src/Sshpush/Learn.antt =====
-- internal/sshpush: a key that a dial learned is accepted by the dials after it.
use certhold.Base.{Text, Bool, true, false, Option, none, some, [], ◌∷◌, nat_eq, ◌++◌, ◌≡◌}
use certhold.Errors.{Result, ok, err}
use certhold.Sshpush.{
  Verdict, accepted, unknown, refused, Library, lookup_host, entry_of, load_host_key_callback,
}

-- The text is empty or ends with a line break.
unfoldable pub ends_line : Text → Bool
ends_line [] = true
ends_line (c ∷ []) = nat_eq c 10
ends_line (c ∷ d ∷ s) = ends_line (d ∷ s)

-- No file counts as one that ends well.
abbrev pub file_ends : Option Text → Bool
file_ends none = true
file_ends (some content) = ends_line content

-- What knownhosts documents: the line of `Line` is read by `New`; it reads line by line, so behind whole
-- lines that say nothing of a host and a key it finds of them what it finds in the rest alone; and an
-- address is looked up like its normal form.
pub record Documented {K : Type 0} (library : Library K) : Type 0 where
  pub reads_alone :
      (addr : Text)
      → (key : K)
      → (callback : Text → K → Verdict) × (library.new (entry_of library addr key) ≡ some callback)
        × (callback addr key ≡ accepted)
  pub reads_lines :
      (content rest : Text)
      → (first alone : Text → K → Verdict) → ends_line content ≡ true
      → library.new content ≡ some first
      → library.new rest ≡ some alone
      → (both : Text → K → Verdict) × (library.new (content ++ rest) ≡ some both)
        × ((host : Text) → (key : K) → first host key ≡ unknown → both host key ≡ alone host key)
  pub looks_up :
      (content addr : Text)
      → (key : K) → (callback : Text → K → Verdict) → library.new content ≡ some callback
      → callback (lookup_host (library.normalize addr)) key ≡ callback addr key

module _ {K : Type 0} (library : Library K) where
  -- A file of known hosts that accepts the key.
  abbrev pub Accepts : Option Text → Text → K → Type 0
  Accepts known addr key =
      (callback : Text → K → Verdict) × (load_host_key_callback library known false ≡ ok callback)
      × (callback addr key ≡ accepted)

  abbrev told : Result (Text → K → Verdict) → Text → K → Verdict
  told (ok f) host key = f host key
  told (err e) host key = refused
