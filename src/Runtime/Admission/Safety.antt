-- ===== src/Runtime/Admission/Safety.antt =====
-- What the gate of fusen/src/runtime/admission.rs keeps under any interleaving.
use fusen_rs.Runtime.Admission.{
  Gate, Action, AdmissionError, new, step, run, is_running, permit_error,
}
use mathlib.Core.Option.{some-injective}
use fusen_rs.Prelude.{
  ℕ, ◌+◌, ◌≤◌, ◌≡◌, refl, true, false, some, List, [], ◌∷◌, arith, subst, ◌∙◌, Option-cases, inl,
  inr,
}

-- Every permit is somewhere, and `active` counts the callers between their two accesses to it.
pub record IsBalanced (g : Gate) : Type 0 where
  pub permits : g.free + g.permitted + g.counted + g.refused + g.guards + g.returning ≡ g.limit
  pub actives : g.active ≡ g.counted + g.refused + g.guards

step-IsBalanced :
    (a : Action) (g h : Gate)
    → IsBalanced g
    → step a g ≡ some h
    → IsBalanced h × (h.limit ≡ g.limit)
unfolding step
step-IsBalanced Action.check g h v e = ground arith
step-IsBalanced Action.take_permit g h v e = ground arith
step-IsBalanced _ g h v e = ground arith

-- Once the gate has left `RUNNING` no guard is made, and it does not come back.
step_stopped :
    (a : Action) (g h : Gate)
    → is_running g.state ≡ false
    → step a g ≡ some h
    → (is_running h.state ≡ false) × (h.guards ≤ g.guards)
unfolding step
step_stopped Action.check g h v e = ground arith
step_stopped Action.take_permit g h v e = ground arith
step_stopped _ g h v e = ground arith

-- What every action keeps, a history keeps.
run_keeps {ℓ} :
    (P : Gate → Type ℓ)
    → ((a : Action) (g h : Gate) → P g → step a g ≡ some h → P h)
    → (history : List Action) (g h : Gate) → P g
    → run g history ≡ some h
    → P h
unfolding run
run_keeps P keep [] g h v e = subst P (some-injective g h e) v
run_keeps P keep (a ∷ rest) g h v e = elim (Option-cases (step a g)) [
  | inl n ↦ absurd (cc (rw (n, run) at e))
  | inr (next, s) ↦ run_keeps P keep rest next h (keep a g next v s) (rw (s, run) at e)
]

new-IsBalanced : (limit : ℕ) → IsBalanced (new limit)
unfolding new
new-IsBalanced limit = record { permits = omega arith; actives = omega arith }

run-IsBalanced :
    (limit : ℕ) (history : List Action) (h : Gate)
    → run (new limit) history ≡ some h
    → IsBalanced h × (h.limit ≡ limit)
run-IsBalanced limit history h e =
    run_keeps (λ g. IsBalanced g × (g.limit ≡ limit)) keep history (new limit) h
      (new-IsBalanced limit, unfold new in refl) e
  where
    keep :
        (a : Action) (g h : Gate)
        → IsBalanced g × (g.limit ≡ limit)
        → step a g ≡ some h
        → IsBalanced h × (h.limit ≡ limit)
    keep a g h (v, same) e = let (w, kept) = step-IsBalanced a g h v e in (w, kept ∙ same)

-- Under any interleaving at most `limit` guards are held at once, and `active` is at least their number.
pub guards_bounded :
    (limit : ℕ) (history : List Action) (h : Gate)
    → run (new limit) history ≡ some h
    → (h.guards ≤ limit) × (h.guards ≤ h.active)
guards_bounded limit history h e =
    let (v, same) = run-IsBalanced limit history h e in
    (omega (arith, v.permits), omega (arith, v.actives))

-- Once the gate has left `RUNNING` and `active` has been seen to be 0, no guard is held and none
-- will be, whatever the callers still do.
pub drained_for_good :
    (limit : ℕ) (before after : List Action) (g h : Gate)
    → run (new limit) before ≡ some g
    → is_running g.state ≡ false
    → g.active ≡ 0
    → run g after ≡ some h
    → h.guards ≡ 0
drained_for_good limit before after g h e stopped idle e' =
    let none_held = guards_bounded limit before g e in
    let last =
      run_keeps (λ (k : Gate). (is_running k.state ≡ false) × (k.guards ≡ 0)) keep after g h
        (stopped, omega arith) e' in
    last.1
  where
    keep :
        (a : Action) (g h : Gate)
        → (is_running g.state ≡ false) × (g.guards ≡ 0)
        → step a g ≡ some h
        → (is_running h.state ≡ false) × (h.guards ≡ 0)
    keep a g h (s, z) e = let (t, le) = step_stopped a g h s e in (t, omega arith)

-- A gate that runs has not closed its permits.
abbrev IsOpen : Gate → Type 0
IsOpen g = is_running g.state ≡ true → g.permits_closed ≡ false

step-IsOpen : (a : Action) (g h : Gate) → IsOpen g → step a g ≡ some h → IsOpen h
unfolding step
step-IsOpen Action.check g h v e = ground arith
step-IsOpen Action.take_permit g h v e = ground arith
step-IsOpen _ g h v e = ground arith

-- A caller that gets no permit is told `Overloaded` only when all the permits are out.
pub overloaded_means_full :
    (limit : ℕ) (history : List Action) (g h : Gate)
    → run (new limit) history ≡ some g
    → step Action.take_permit g ≡ some h
    → h.permitted ≡ g.permitted
    → permit_error g ≡ AdmissionError.overloaded
    → g.permitted + g.counted + g.refused + g.guards + g.returning ≡ limit
unfolding step permit_error
overloaded_means_full limit history g h e s refused told =
    let (v, same) = run-IsBalanced limit history g e in
    let opened = run_keeps IsOpen step-IsOpen history (new limit) g (λ _. unfold new in refl) e in
    ground (arith, v.permits)
