-- ===== src/Tests/Runtimes.antt =====
-- Runs of fusen/src/runtime/admission.rs and of fusen/src/runtime/budget.rs.
use fusen_rs.Runtime.Admission
use fusen_rs.Runtime.Admission.{Gate, GateState, AdmissionError, permit_error, is_running}
use fusen_rs.Runtime.Admission.Safety.{guards_bounded, drained_for_good}
use fusen_rs.Runtime.Budget
use fusen_rs.Runtime.Budget.Accounting.{IsExact, run-IsExact}
use fusen_rs.Runtime.Budget.Writer.{BudgetedWriter, new_writer, write}
use fusen_rs.Runtime.Budget.Writer.Writes.{
  IsPaid, WriteOutcome, writes, write-WriteOutcome, writes-IsPaid,
}
use fusen_rs.Prelude.{ℕ, ◌≤◌, ◌≡◌, refl, none, some, false, List, [], ◌∷◌, ◌++◌, ok, arith}

-- One caller is admitted.
abbrev entering : List Admission.Action
entering =
    Admission.Action.check ∷ Admission.Action.take_permit ∷ Admission.Action.count_in
    ∷ Admission.Action.recheck ∷ []

-- The gate of one permit, from its counts.
abbrev gate : GateState → (free active checked guards returning : ℕ) → Gate
gate state free active checked guards returning = record {
  limit = 1;
  state = state;
  free = free;
  permits_closed = false;
  active = active;
  checked = checked;
  permitted = 0;
  counted = 0;
  refused = 0;
  guards = guards;
  returning = returning;
}

entered : Admission.run (Admission.new 1) entering ≡ some (gate GateState.running 0 1 0 1 0)
unfolding Admission.run Admission.step Admission.new
entered = refl

guards_bounded_example :
    let g : Gate = gate GateState.running 0 1 0 1 0 in (g.guards ≤ 1) × (g.guards ≤ g.active)
guards_bounded_example = guards_bounded 1 entering (gate GateState.running 0 1 0 1 0) entered

-- The caller leaves, and the gate is drained.
abbrev draining : List Admission.Action
draining = entering ++ Admission.Action.drop_guard ∷ Admission.Action.set_draining ∷ []

abbrev late : List Admission.Action
late = Admission.Action.check ∷ Admission.Action.return_permit ∷ []

drained : Admission.run (Admission.new 1) draining ≡ some (gate GateState.draining 0 0 0 0 1)
unfolding Admission.run Admission.step Admission.new
drained = refl

after_late :
    Admission.run (gate GateState.draining 0 0 0 0 1) late
    ≡ some (gate GateState.draining 1 0 0 0 0)
unfolding Admission.run Admission.step
after_late = refl

drained_for_good_example : (gate GateState.draining 1 0 0 0 0).guards ≡ 0
drained_for_good_example =
    drained_for_good 1 draining late (gate GateState.draining 0 0 0 0 1)
      (gate GateState.draining 1 0 0 0 0) drained refl refl after_late

-- A second caller has checked the state.
abbrev second_checks : List Admission.Action
second_checks = entering ++ Admission.Action.check ∷ []

second_checked :
    Admission.run (Admission.new 1) second_checks ≡ some (gate GateState.running 0 1 1 1 0)
unfolding Admission.run Admission.step Admission.new
second_checked = refl

no_permit :
    Admission.step Admission.Action.take_permit (gate GateState.running 0 1 1 1 0)
    ≡ some (gate GateState.running 0 1 0 1 0)
unfolding Admission.step
no_permit = refl

told_overloaded : permit_error (gate GateState.running 0 1 1 1 0) ≡ AdmissionError.overloaded
unfolding permit_error
told_overloaded = refl

abbrev charges : List Budget.Action
charges =
    Budget.Action.reserve 6
    ∷ Budget.Action.reserve 5
    ∷ Budget.Action.round 0
    ∷ Budget.Action.round 1
    ∷ Budget.Action.settle 0
    ∷ []

run-IsExact_example :
    IsExact (Budget.run (Budget.new 10) charges) × ((Budget.run (Budget.new 10) charges).limit ≡ 10)
run-IsExact_example = run-IsExact 10 charges (omega arith)

abbrev writer : BudgetedWriter
writer = record { bytes = []; limit = 3; permit = 4; failure = none }

write-WriteOutcome_example :
    WriteOutcome 100 90 writer (7 ∷ 8 ∷ []) (write 100 90 writer (7 ∷ 8 ∷ []))
write-WriteOutcome_example = write-WriteOutcome 100 90 writer (7 ∷ 8 ∷ [])

opened : (new_writer 3 100 86 4).writer ≡ ok writer
unfolding new_writer
opened = refl

abbrev two_writes : List (ℕ × List ℕ)
two_writes = (90, 7 ∷ 8 ∷ []) ∷ (92, 9 ∷ 10 ∷ []) ∷ []

writes-IsPaid_example : IsPaid 4 (writes 100 writer two_writes)
writes-IsPaid_example = writes-IsPaid 3 100 86 4 writer two_writes opened
