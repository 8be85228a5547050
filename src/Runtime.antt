-- ===== src/Runtime.antt =====
-- fusen/src/runtime: admission and byte budgets.
pub mod Admission
pub mod Budget
