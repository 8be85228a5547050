-- ===== src/Runtime/Admission.antt =====
-- fusen/src/runtime/admission.rs: `AdmissionGate` under any interleaving of its callers. An action is
-- one atomic access; callers at the same point of the code are alike, so the state counts them. The
-- accesses are taken to be sequentially consistent, and the semaphore is tokio's: it counts the permits
-- that are free, and gives none once it is closed.
pub mod Safety
use fusen_rs.Prelude.{
  ℕ, zero, suc, ◌+◌, ◌-◌, Bool, true, false, not, ◌||◌, ◌&&◌, Option, none, some, ltb, ◌==◌,
  if◌then◌else◌, List, [], ◌∷◌,
}

pub data GateState : Type 0 where
  running draining closed : GateState

pub data AdmissionError : Type 0 where
  overloaded draining : AdmissionError

abbrev pub is_running : GateState → Bool
is_running GateState.running = true
is_running _ = false

pub record Gate : Type 0 where
  pub limit : ℕ
  pub state : GateState
  pub free : ℕ
  pub permits_closed : Bool
  pub active : ℕ
  -- Callers that have seen `RUNNING`, and then those that hold a permit.
  pub checked : ℕ
  pub permitted : ℕ
  -- Callers that have been added to `active`, and then those that were refused after all.
  pub counted : ℕ
  pub refused : ℕ
  -- Guards held, and permits on their way back to the semaphore.
  pub guards : ℕ
  pub returning : ℕ

unfoldable pub new : ℕ → Gate
new limit = record {
  limit = limit;
  state = GateState.running;
  free = limit;
  permits_closed = false;
  active = 0;
  checked = 0;
  permitted = 0;
  counted = 0;
  refused = 0;
  guards = 0;
  returning = 0;
}

pub data Action : Type 0 where
  -- `try_enter` and `enter`, access by access.
  check take_permit count_in recheck count_out : Action
  -- A guard is dropped; a permit goes back.
  drop_guard return_permit : Action
  -- `begin_draining` and `close`: the state is set before the semaphore is closed.
  set_draining set_closed close_permits : Action

-- The error of a caller whose `try_acquire_owned` failed; the state is read in the same step.
unfoldable pub permit_error : Gate → AdmissionError
permit_error g = if is_running g.state then AdmissionError.overloaded else AdmissionError.draining

-- The gate after an action, or `none` where no caller is at that point. A caller that is refused
-- leaves the counts.
unfoldable pub step : Action → Gate → Option Gate
step check g = some (if is_running g.state then record g { checked = g.checked + 1 } else g)
step take_permit g =
    if g.checked == 0
    then none
    else some (
        if g.permits_closed || g.free == 0
        then record g { checked = g.checked - 1 }
        else record g { checked = g.checked - 1; free = g.free - 1; permitted = g.permitted + 1 })
step count_in g =
    if g.permitted == 0
    then none
    else some
        (record g { permitted = g.permitted - 1; active = g.active + 1; counted = g.counted + 1 })
step recheck g =
    if g.counted == 0
    then none
    else some (
        if is_running g.state
        then record g { counted = g.counted - 1; guards = g.guards + 1 }
        else record g { counted = g.counted - 1; refused = g.refused + 1 })
step count_out g =
    if g.refused == 0
    then none
    else some
        (record g { refused = g.refused - 1; active = g.active - 1; returning = g.returning + 1 })
step drop_guard g =
    if g.guards == 0
    then none
    else some
        (record g { guards = g.guards - 1; active = g.active - 1; returning = g.returning + 1 })
step return_permit g =
    if g.returning == 0
    then none
    else some (record g { returning = g.returning - 1; free = g.free + 1 })
step set_draining g =
    some (if is_running g.state then record g { state = GateState.draining } else g)
step set_closed g = some (record g { state = GateState.closed })
step close_permits g =
    if is_running g.state then none else some (record g { permits_closed = true })

-- A history of actions; it has no result when an action has no caller to make it.
unfoldable pub run : Gate → List Action → Option Gate
run g [] = some g
run g (a ∷ rest) = elim (step a g) [ none ↦ none | some next ↦ run next rest ]
