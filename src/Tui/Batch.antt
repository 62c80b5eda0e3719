-- ===== src/Tui/Batch.antt =====
-- internal/tui/select.go: the worker of a batch. `op` is the operation on one peer, over whatever state it
-- has; its error is a text.
pub mod Outcome
use certhold.Base.{
  Text, Bool, true, false, Option, none, some, List, [], ◌∷◌, ◌++◌, is_empty, if◌then◌else◌,
}

-- How a batch ends: aborted by the error of a passphrase, or with the peers that failed.
pub data BatchEnd : Type 0 where
  aborted : Text → BatchEnd
  completed : List Text → BatchEnd

module _ {S : Type 0} (op : Text → S → Option Text × S) (is_passphrase_error : Text → Bool) where
  abbrev pub with_failed : Text → BatchEnd × S → BatchEnd × S
  with_failed name (aborted e, s) = (aborted e, s)
  with_failed name (completed failed, s) = (completed (name ∷ failed), s)

  -- What the loop does with the result of one peer; `rest` is the loop over the others.
  abbrev pub after_op : Text → Option Text × S → (S → BatchEnd × S) → BatchEnd × S
  after_op name (none, s) rest = rest s
  after_op name (some e, s) rest =
      if is_passphrase_error e then (aborted e, s) else with_failed name (rest s)

  -- The loop of `startBatch`.
  unfoldable pub run_batch : List Text → S → BatchEnd × S
  run_batch [] s = (completed [], s)
  run_batch (name ∷ names) s = after_op name (op name s) (run_batch names)
