-- ===== src/Tui/Batch/Outcome.antt =====
-- internal/tui/select.go: what the worker of a batch reports.
use certhold.Base.{
  Text, Bool, true, false, Option, none, some, List, [], ◌∷◌, map, filter, if◌then◌else◌, ◌≡◌, refl,
  arith,
}
use certhold.Tui.Batch.{run_batch, BatchEnd, aborted, completed}

module _ {S : Type 0} (op : Text → S → Option Text × S) where
  -- The results of the operation on all the peers, one after another.
  unfoldable pub results : List Text → S → List (Text × Option Text)
  results [] s = []
  results (name ∷ names) s = (name, (op name s).0) ∷ results names (op name s).1

abbrev failed : Text × Option Text → Bool
failed (name, none) = false
failed (name, some e) = true

-- The error of a peer, if it is of a passphrase.
abbrev wrong : (Text → Bool) → Text × Option Text → Bool
wrong bad (name, none) = false
wrong bad (name, some e) = bad e

-- The first error of a passphrase.
abbrev first_wrong : (Text → Bool) → List (Text × Option Text) → Option Text
first_wrong bad [] = none
first_wrong bad ((name, none) ∷ rs) = first_wrong bad rs
first_wrong bad ((name, some e) ∷ rs) =
    let later = first_wrong bad rs in if bad e then some e else later

abbrev pub reported : (Text → Bool) → List (Text × Option Text) → BatchEnd
reported bad rs = elim (first_wrong bad rs) [
  | none ↦ completed (map (λ r. r.0) (filter failed rs))
  | some e ↦ aborted e
]

module _ {S : Type 0} (op : Text → S → Option Text × S) (bad : Text → Bool) where
  -- a batch reports what the operations on all its peers, one after another, come to: the first error of
  -- a passphrase if there is one, and otherwise exactly the peers whose operation failed, in their order.
  pub run_batch_reports :
      (names : List Text)
      → (s : S) → (run_batch op bad names s).0 ≡ reported bad (results op names s)
  unfolding run_batch results
  run_batch_reports [] s = refl
  run_batch_reports (name ∷ names) s = ground (arith, run_batch_reports names (op name s).1)
