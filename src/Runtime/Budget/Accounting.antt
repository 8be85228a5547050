-- ===== src/Runtime/Budget/Accounting.antt =====
-- What the counter of fusen/src/runtime/budget.rs adds up to under any interleaving.
use fusen_rs.Runtime.Budget.{
  ByteBudget, Adder, adding, granted, Action, reserve, grow, round, settle, release, new, step, run,
  give_back, held_bytes, try_add_round, settle_call, usize_limit,
}
use fusen_rs.Prelude.{
  ℕ, zero, suc, ◌+◌, ◌≤◌, ◌<◌, ◌≡◌, refl, inl, inr, Option, none, some, List, [], ◌∷◌, arith,
  Option-cases, get_elem?, remove_at, set, ◌∙◌,
}

abbrev pub sum : List ℕ → ℕ
sum [] = 0
sum (x ∷ xs) = x + sum xs

-- What a call accounts for: the permit in its hands, and what it was granted.
abbrev pub weight : Adder → ℕ
weight (adding bytes current held) = held_bytes held
weight (granted bytes held) = held_bytes held + bytes

abbrev pub weights : List Adder → ℕ
weights [] = 0
weights (a ∷ as') = weight a + weights as'

pub record IsExact (b : ByteBudget) : Type 0 where
  pub exact : b.used ≡ sum b.permits + weights b.adders
  pub within : b.used ≤ b.limit

sum-remove_at :
    (xs : List ℕ) (i x : ℕ) → get_elem? xs i ≡ some x → x + sum (remove_at i xs) ≡ sum xs
sum-remove_at [] i x h = absurd (cc)
sum-remove_at (y ∷ xs) zero x h = ground arith
sum-remove_at (y ∷ xs) (suc i) x h = omega (arith, sum-remove_at xs i x h)

weights-remove_at :
    (xs : List Adder) (i : ℕ) (a : Adder)
    → get_elem? xs i ≡ some a
    → weight a + weights (remove_at i xs) ≡ weights xs
weights-remove_at [] i a h = absurd (cc)
weights-remove_at (y ∷ xs) zero a h = ground arith
weights-remove_at (y ∷ xs) (suc i) a h = omega (arith, weights-remove_at xs i a h)

weights-set :
    (xs : List Adder) (i : ℕ) (a c : Adder)
    → get_elem? xs i ≡ some a
    → weight a + weights (set xs i c) ≡ weights xs + weight c
weights-set [] i a c h = absurd (cc)
weights-set (y ∷ xs) zero a c h = ground arith
weights-set (y ∷ xs) (suc i) a c h = omega (arith, weights-set xs i a c h)

sum-give_back : (held : Option ℕ) (ps : List ℕ) → sum (give_back held ps) ≡ held_bytes held + sum ps
sum-give_back none ps = omega arith
sum-give_back (some h) ps = refl

round-IsExact :
    (b : ByteBudget) (i : ℕ) (a : Adder)
    → IsExact b
    → get_elem? b.adders i ≡ some a
    → IsExact (try_add_round b i a)
unfolding try_add_round
round-IsExact b i (granted bytes held) v h = v
round-IsExact b i (adding bytes current held) v h = ground (
  arith,
  sum-give_back held b.permits,
  weights-remove_at b.adders i (adding bytes current held) h,
  weights-set b.adders i (adding bytes current held) (granted bytes held) h,
  weights-set b.adders i (adding bytes current held) (adding bytes b.used held) h,
)

settle-IsExact :
    (b : ByteBudget) (i : ℕ) (a : Adder)
    → IsExact b
    → get_elem? b.adders i ≡ some a
    → IsExact (settle_call b i a)
unfolding settle_call
settle-IsExact b i (adding bytes current held) v h = v
settle-IsExact b i (granted bytes held) v h = record {
  exact = omega (arith, v.exact, weights-remove_at b.adders i (granted bytes held) h);
  within = v.within;
}

step-IsExact :
    (b : ByteBudget) (a : Action) → b.limit < usize_limit → IsExact b → IsExact (step b a)
unfolding step
step-IsExact b (reserve bytes) small v = ground arith
step-IsExact b (grow i bytes) small v = elim (Option-cases (get_elem? b.permits i)) [
  | inl e ↦ rw (e, step) v
  | inr (held, e) ↦
      rw (e, step)
        (record {
          exact = omega (arith, v.exact, sum-remove_at b.permits i held e);
          within = v.within;
        })
]
step-IsExact b (round i) small v = elim (Option-cases (get_elem? b.adders i)) [
  | inl e ↦ rw (e, step) v
  | inr (a, e) ↦ rw (e, step) (round-IsExact b i a v e)
]
step-IsExact b (settle i) small v = elim (Option-cases (get_elem? b.adders i)) [
  | inl e ↦ rw (e, step) v
  | inr (a, e) ↦ rw (e, step) (settle-IsExact b i a v e)
]
step-IsExact b (release i) small v = elim (Option-cases (get_elem? b.permits i)) [
  | inl e ↦ rw (e, step) v
  | inr (bytes, e) ↦
      rw (e, step)
        (record {
          exact = omega (arith, v.exact, v.within, sum-remove_at b.permits i bytes e);
          within = omega (arith, v.exact, v.within, sum-remove_at b.permits i bytes e);
        })
]

limit-step : (b : ByteBudget) (a : Action) → (step b a).limit ≡ b.limit
unfolding step
limit-step b (reserve bytes) = refl
limit-step b (grow i bytes) = ground arith
limit-step b (round i) = ground arith
limit-step b (settle i) = ground arith
limit-step b (release i) = ground arith

run_from-IsExact :
    (b : ByteBudget) (history : List Action)
    → b.limit < usize_limit
    → IsExact b
    → IsExact (run b history) × ((run b history).limit ≡ b.limit)
unfolding run
run_from-IsExact b [] small v = (v, refl)
run_from-IsExact b (a ∷ rest) small v =
    let (w, same) =
      run_from-IsExact (step b a) rest (omega (arith, limit-step b a)) (step-IsExact b a small v) in
    (w, same ∙ limit-step b a)

-- Under any interleaving the counter is the sum of the permits held and of the calls that were granted
-- bytes and have not returned, and it never passes the limit, which is a `usize`.
pub run-IsExact :
    (limit : ℕ) (history : List Action)
    → limit < usize_limit
    → IsExact (run (new limit) history) × ((run (new limit) history).limit ≡ limit)
unfolding new
run-IsExact limit history small =
    run_from-IsExact (new limit) history small
      (record { exact = omega arith; within = omega arith })
