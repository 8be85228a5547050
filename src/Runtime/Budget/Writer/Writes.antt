-- ===== src/Runtime/Budget/Writer/Writes.antt =====
-- Writes to the budgeted writer of fusen/src/runtime/budget.rs.
use fusen_rs.Runtime.Budget.{usize_limit}
use fusen_rs.Runtime.Budget.Writer.{
  BudgetedWriter, BudgetedWriteFailure, Written, new_writer, write,
}
use fusen_rs.Prelude.{
  ℕ, ◌+◌, ◌≤◌, ◌<◌, ◌≡◌, ◌⊎◌, some, List, [], ◌∷◌, ◌++◌, length, length-append, ok, err, arith,
}

-- What holds between two writes: the text is within its limit, and the permit pays for all of it.
pub record IsPaid (overhead : ℕ) (w : BudgetedWriter) : Type 0 where
  pub within : length w.bytes ≤ w.limit
  pub paid : w.permit ≡ overhead + length w.bytes

-- What may come of a write.
pub data WriteOutcome (budget_limit used : ℕ) (w : BudgetedWriter) (buffer : List ℕ) (r : Written)
    : Type 0 where
  appended :
      r.writer.bytes ≡ w.bytes ++ buffer
      → r.writer.permit ≡ w.permit + length buffer
      → r.used ≡ used + length buffer
      → r.used ≤ budget_limit
      → r.result ≡ ok (length buffer)
      → WriteOutcome budget_limit used w buffer r
  too_long :
      w.limit < length w.bytes + length buffer ⊎ usize_limit ≤ length w.bytes + length buffer
      → r.writer ≡ record w { failure = some BudgetedWriteFailure.limit_exceeded }
      → r.used ≡ used
      → r.result ≡ err BudgetedWriteFailure.limit_exceeded
      → WriteOutcome budget_limit used w buffer r
  exhausted :
      length w.bytes + length buffer ≤ w.limit
      → budget_limit < used + length buffer ⊎ usize_limit ≤ used + length buffer
      → r.writer ≡ record w { failure = some BudgetedWriteFailure.budget_exhausted }
      → r.used ≡ used
      → r.result ≡ err BudgetedWriteFailure.budget_exhausted
      → WriteOutcome budget_limit used w buffer r

-- A write is all or nothing: it appends the whole buffer and charges the budget for it, which then
-- stays within its limit, or it fails, keeps the failure and changes neither text, permit nor budget.
-- It fails exactly where the text would pass its limit, or the budget its own.
pub write-WriteOutcome :
    (budget_limit used : ℕ) (w : BudgetedWriter) (buffer : List ℕ)
    → WriteOutcome budget_limit used w buffer (write budget_limit used w buffer)
unfolding write
write-WriteOutcome budget_limit used w buffer = grind (arith, appended, too_long, exhausted)

-- Writes one after the other, each with the budget's counter as it is then.
abbrev pub writes : ℕ → BudgetedWriter → List (ℕ × List ℕ) → BudgetedWriter
writes budget_limit w [] = w
writes budget_limit w ((used, buffer) ∷ rest) =
    writes budget_limit (write budget_limit used w buffer).writer rest

write-IsPaid :
    (budget_limit used overhead : ℕ) (w : BudgetedWriter) (buffer : List ℕ)
    → IsPaid overhead w
    → IsPaid overhead (write budget_limit used w buffer).writer
unfolding write
write-IsPaid budget_limit used overhead w buffer v = ground (arith, length-append w.bytes buffer)

writes_from-IsPaid :
    (budget_limit overhead : ℕ) (w : BudgetedWriter) (all : List (ℕ × List ℕ))
    → IsPaid overhead w
    → IsPaid overhead (writes budget_limit w all)
writes_from-IsPaid budget_limit overhead w [] v = v
writes_from-IsPaid budget_limit overhead w ((used, buffer) ∷ rest) v =
    writes_from-IsPaid budget_limit overhead (write budget_limit used w buffer).writer rest
      (write-IsPaid budget_limit used overhead w buffer v)

-- A writer that was opened never holds more than its limit, and its permit is the overhead and the
-- length of what it holds, whatever is written and whatever other users do to the budget.
pub writes-IsPaid :
    (limit budget_limit used overhead : ℕ) (w : BudgetedWriter) (all : List (ℕ × List ℕ))
    → (new_writer limit budget_limit used overhead).writer ≡ ok w
    → IsPaid overhead (writes budget_limit w all)
unfolding new_writer
writes-IsPaid limit budget_limit used overhead w all h =
    writes_from-IsPaid budget_limit overhead w all
      (record { within = ground arith; paid = ground arith })
