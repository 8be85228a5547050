-- ===== src/Client/Select/Permits.antt =====
-- The permits of a selection, of fusen/src/client/invocation.rs: one is handed over, the others are released.
use fusen_rs.Client.Select.{
  Caught, returned, failed, panicked, Client, Breakers, Selection, SelectedEndpoint,
  select_endpoint, candidates, route_all, balance, choose, take_permit, acquire_all, permits_of,
  release_all, release_unattempted, url_of, keep_acquired,
}
use fusen_rs.Prelude.{
  ℕ, zero, suc, ◌≡◌, ◌+◌, ◌-◌, arith, inl, inr, Bool, Option, none, some, List, [], ◌∷◌, Result, ok,
  err, ◌>>=◌, get_elem?, remove_at, Option-cases,
}
use fusen_rs.Prelude.Bytes.{Bytes}
use fusen_rs.Contract.Http.{HttpVersionPolicy, ServiceInstance}
use fusen_rs.Resilience.Breaker.{PermitOutcome, unattempted}
use fusen_rs.Errors.{Error}

module _ {W P : Type 0} where
  -- The weight of the permit that a result hands to the attempt.
  abbrev pub handed_over : (P → ℕ) → Result (SelectedEndpoint W P) Error → ℕ
  handed_over weight (ok endpoint) = weight endpoint.breaker_permit
  handed_over weight (err e) = 0

abbrev pub granted : {P : Type 0} → (P → ℕ) → Option P → ℕ
granted weight none = 0
granted weight (some p) = weight p

abbrev total : {P : Type 0} → (P → ℕ) → List P → ℕ
total weight [] = 0
total weight (p ∷ ps) = weight p + total weight ps

-- What a count of permits that are out has to satisfy, where a permit counts by its weight.
pub record Counted {S P : Type 0} (breakers : Breakers S P) (weight : P → ℕ) (in_flight : S → ℕ)
    : Type 0 where
  pub acquired :
      (url : Bytes) (s : S)
      → in_flight (breakers.try_acquire url s).0
        ≡ in_flight s + granted weight (breakers.try_acquire url s).1
  pub completed :
      (p : P) (o : PermitOutcome) (s : S)
      → in_flight (breakers.complete p o s) ≡ in_flight s - weight p

total-remove_at :
    {W P : Type 0} (weight : P → ℕ) (xs : List (ServiceInstance W × P)) (i : ℕ)
    (x : ServiceInstance W × P)
    → get_elem? xs i ≡ some x
    → total weight (permits_of xs) ≡ total weight (permits_of (remove_at i xs)) + weight x.1
total-remove_at weight [] i x h = absurd (cc)
total-remove_at weight ((i, p) ∷ xs) zero x h = ground arith
total-remove_at weight ((i, p) ∷ xs) (suc n) x h = omega (arith, total-remove_at weight xs n x h)

module _ {S P : Type 0} {breakers : Breakers S P} {weight : P → ℕ} {in_flight : S → ℕ}
    (counted : Counted breakers weight in_flight) where
  release_all-in_flight :
      (ps : List P) (s : S) → in_flight (release_all breakers ps s) ≡ in_flight s - total weight ps
  unfolding release_all
  release_all-in_flight [] s = omega arith
  release_all-in_flight (p ∷ ps) s = omega (
    arith,
    release_all-in_flight ps (release_unattempted breakers p s),
    counted.completed p unattempted s,
  )

  released_all :
      (s s' : S) (ps : List P)
      → in_flight s' ≡ in_flight s + total weight ps
      → in_flight (release_all breakers ps s') ≡ in_flight s + 0
  released_all s s' ps h = omega (arith, release_all-in_flight ps s')

total-keep_acquired :
    {W P : Type 0} (weight : P → ℕ) (i : ServiceInstance W) (p : Option P)
    (es : List (ServiceInstance W × P))
    → total weight (permits_of (keep_acquired i p es))
      ≡ granted weight p + total weight (permits_of es)
total-keep_acquired weight i none es = omega arith
total-keep_acquired weight i (some p) es = omega arith

module _ {W S P : Type 0} {breakers : Breakers S P} {weight : P → ℕ} {in_flight : S → ℕ}
    (counted : Counted breakers weight in_flight) where
  acquire_all-in_flight :
      (is : List (ServiceInstance W)) (s : S)
      → in_flight (acquire_all breakers is s).0
        ≡ in_flight s + total weight (permits_of (acquire_all breakers is s).1)
  unfolding acquire_all
  acquire_all-in_flight [] s = omega arith
  acquire_all-in_flight (i ∷ is) s =
      let (s', permit) = breakers.try_acquire (url_of i) s in
      omega (
        arith,
        acquire_all-in_flight is s',
        counted.acquired (url_of i) s,
        total-keep_acquired weight i permit (acquire_all breakers is s').1,
      )

  -- What holds of a selection that started in a state.
  abbrev Balanced : S → Selection W S P → Type 0
  Balanced s selection =
      in_flight selection.state ≡ in_flight s + handed_over weight selection.result

  take_permit-Balanced :
      (policy : HttpVersionPolicy) (c : Caught ℕ) (s s' : S) (es : List (ServiceInstance W × P))
      → in_flight s' ≡ in_flight s + total weight (permits_of es)
      → Balanced s (take_permit breakers policy c s' es)
  unfolding take_permit
  take_permit-Balanced policy (returned index) s s' es h =
      elim (Option-cases (get_elem? es index)) [
        | inl e ↦ rw (e, take_permit) (released_all counted s s' (permits_of es) h)
        | inr ((i, p), e) ↦
            rw (e, take_permit)
              (omega (
                arith,
                total-remove_at weight es index (i, p) e,
                release_all-in_flight counted (permits_of (remove_at index es)) s',
              ))
      ]
  take_permit-Balanced policy (failed e) s s' es h = released_all counted s s' (permits_of es) h
  take_permit-Balanced policy panicked s s' es h = released_all counted s s' (permits_of es) h

  choose-Balanced :
      (client : Client W) (s s' : S) (es : List (ServiceInstance W × P))
      → in_flight s' ≡ in_flight s + total weight (permits_of es)
      → Balanced s (choose breakers client (s', es))
  unfolding choose
  choose-Balanced client s s' [] h = released_all counted s s' [] h
  choose-Balanced client s s' (e ∷ es) h = take_permit-Balanced _ _ s s' (e ∷ es) h

  balance-Balanced :
      (client : Client W) (s : S) (r : Result (List (ServiceInstance W)) Error)
      → Balanced s (balance breakers client s r)
  unfolding balance
  balance-Balanced client s (err e) = released_all counted s s [] (omega arith)
  balance-Balanced client s (ok []) = released_all counted s s [] (omega arith)
  balance-Balanced client s (ok (i ∷ is)) =
      choose-Balanced client s _ _ (acquire_all-in_flight (i ∷ is) s)

  -- However a selection ends, the breakers count the permit of the endpoint that it selected besides those
  -- of before, and none besides them if it failed, for a count that follows each permit.
  pub select_endpoint-in_flight :
      (weight_eq : W → W → Bool) (client : Client W) (attempted : List Bytes) (s : S)
      → let selection = select_endpoint weight_eq breakers client attempted s in
        in_flight selection.state ≡ in_flight s + handed_over weight selection.result
  unfolding select_endpoint
  select_endpoint-in_flight weight_eq client attempted s =
      balance-Balanced client s (candidates client attempted >>= route_all weight_eq client.routers)
