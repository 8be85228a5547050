-- ===== src/Runtime/Budget/Writer.antt =====
-- `BudgetedWriter` of fusen/src/runtime/budget.rs. Each write meets the budget as other users have
-- left it: its value is an argument.
pub mod Writes
use fusen_rs.Runtime.Budget.{next_used, checked_add}
use fusen_rs.Prelude.{
  ℕ, ◌+◌, Option, none, some, List, [], ◌++◌, length, Result, ok, err, leb, if◌then◌else◌,
}

pub data BudgetedWriteFailure : Type 0 where
  limit_exceeded budget_exhausted : BudgetedWriteFailure

pub record BudgetedWriter : Type 0 where
  pub bytes : List ℕ
  pub limit : ℕ
  -- The bytes of the permit.
  pub permit : ℕ
  pub failure : Option BudgetedWriteFailure

-- The budget's counter with the writer; a writer is only there if the overhead was granted.
pub record Opened : Type 0 where
  pub used : ℕ
  pub writer : Result BudgetedWriter BudgetedWriteFailure

unfoldable pub new_writer : ℕ → ℕ → ℕ → ℕ → Opened
unfolding next_used
new_writer limit budget_limit used wire_overhead =
    elim (next_used budget_limit used wire_overhead) [
      | none ↦ record { used = used; writer = err BudgetedWriteFailure.budget_exhausted }
      | some next ↦ record {
        used = next;
        writer = ok (record { bytes = []; limit = limit; permit = wire_overhead; failure = none });
      }
    ]

pub record Written : Type 0 where
  pub used : ℕ
  pub writer : BudgetedWriter
  pub result : Result ℕ BudgetedWriteFailure

abbrev pub fail_with : BudgetedWriteFailure → ℕ → BudgetedWriter → Written
fail_with f used w = record { used = used; writer = record w { failure = some f }; result = err f }

-- `write`: the length is checked before the budget is charged.
unfoldable pub write : ℕ → ℕ → BudgetedWriter → List ℕ → Written
unfolding next_used
write budget_limit used w buffer = elim (checked_add (length w.bytes) (length buffer)) [
  | none ↦ fail_with BudgetedWriteFailure.limit_exceeded used w
  | some total ↦
      if leb total w.limit
      then elim (next_used budget_limit used (length buffer)) [
        | none ↦ fail_with BudgetedWriteFailure.budget_exhausted used w
        | some next ↦ record {
          used = next;
          writer = record w { bytes = w.bytes ++ buffer; permit = w.permit + length buffer };
          result = ok (length buffer);
        }
      ]
      else fail_with BudgetedWriteFailure.limit_exceeded used w
]
