-- ===== src/Client/Select/Chosen.antt =====
-- What `select_endpoint` of fusen/src/client/invocation.rs selects.
use mathlib.Core.List.{Memᴰ}
use fusen_rs.Client.Instances.{select_http_version, should_auto_negotiate}
use fusen_rs.Client.Select.Routed.{kept, keeping, get_elem?-Memᴰ, route_all_lem}
use fusen_rs.Client.Select.{
  Caught, returned, failed, panicked, Client, Breakers, SelectedEndpoint, select_endpoint,
  candidates, balance, choose, take_permit, selected, acquire_all, url_of, keep_if, available,
  is_compatible, is_untried, is_some, nonempty, prefer, no_compatible_endpoint,
}
use fusen_rs.Prelude.{
  ℕ, ◌≡◌, ◌⊎◌, ◌↔◌, arith, refl, sym, subst, inl, inr, Bool, true, false, some, List, [], ◌∷◌,
  Result, ok, err, get_elem?, Option-cases, Result-cases, Bool-cases,
}
use fusen_rs.Prelude.Bytes.{Bytes}
use fusen_rs.Contract.Http.{HttpVersionPolicy, ServiceInstance}
use fusen_rs.Errors.{Error}

-- An instance that may be attempted: it is offered, it is compatible, and it was attempted before only if
-- every compatible instance was.
pub record Offered {W : Type 0} (client : Client W) (attempted : List Bytes) (i : ServiceInstance W)
    : Type 0 where
  pub instances : List (ServiceInstance W)
  pub found : available client.binding_id client.default_weight client.source ≡ ok instances
  pub listed : Memᴰ i instances
  pub compatible : is_compatible client.binding_id client.http_version_policy i ≡ true
  pub fresh :
      (is_untried attempted i ≡ true)
      ⊎ ((j : ServiceInstance W)
          → Memᴰ j instances
          → is_compatible client.binding_id client.http_version_policy j ≡ true
          → is_untried attempted j ≡ false)

-- What an attempt may rely on: the instance, its permit and its version.
pub record Eligible {W S P : Type 0} (breakers : Breakers S P) (client : Client W)
    (attempted : List Bytes) (e : SelectedEndpoint W P) : Type 0 where
  pub offered : Offered client attempted e.instance_
  pub state : S
  pub admitted : (breakers.try_acquire (url_of e.instance_) state).1 ≡ some e.breaker_permit
  pub versioned :
      (e.auto_negotiate ≡ true)
      ⊎ (select_http_version client.http_version_policy e.instance_.endpoint
            e.instance_.capabilities
          ≡ some e.http_version)

module _ {W : Type 0} (client : Client W) (attempted : List Bytes) where
  preferred :
      (instances compatible : List (ServiceInstance W))
      → (untried : List (ServiceInstance W))
      → compatible ≡ keep_if (is_compatible client.binding_id client.http_version_policy) instances
      → untried ≡ keep_if (is_untried attempted) compatible
      → available client.binding_id client.default_weight client.source ≡ ok instances
      → (i : ServiceInstance W) → Memᴰ i (prefer untried compatible)
      → Offered client attempted i
  preferred instances compatible [] ec eu found i m =
      let (l, c) =
        kept (is_compatible client.binding_id client.http_version_policy) i instances
          (subst (λ l. Memᴰ i l) ec m) in
      record {
        instances = instances;
        found = found;
        listed = l;
        compatible = c;
        fresh = inr (λ j mj cj. elim (Bool-cases (is_untried attempted j)) [
          | inl u ↦ absurd (
              elim (subst (λ l. Memᴰ j l) (sym eu)
                (keeping (is_untried attempted) j compatible
                  (subst (λ l. Memᴰ j l) (sym ec) (keeping _ j instances mj cj)) u)) [ ])
          | inr u ↦ u
        ]);
      }
  preferred instances compatible (u ∷ us) ec eu found i m =
      let (k, fresh) = kept (is_untried attempted) i compatible (subst (λ l. Memᴰ i l) eu m) in
      let (l, c) =
        kept (is_compatible client.binding_id client.http_version_policy) i instances
          (subst (λ l. Memᴰ i l) ec k) in
      record { instances = instances; found = found; listed = l; compatible = c; fresh = inl fresh }

  nonempty_lem : (e : Error) (xs ys : List (ServiceInstance W)) → nonempty e xs ≡ ok ys → ys ≡ xs
  nonempty_lem e [] ys h = absurd (cc)
  nonempty_lem e (x ∷ xs) ys h = cc

  candidates_lem :
      (cs : List (ServiceInstance W))
      → candidates client attempted ≡ ok cs
      → (i : ServiceInstance W) → Memᴰ i cs
      → Offered client attempted i
  unfolding candidates
  candidates_lem cs h i m =
      elim (Result-cases (available client.binding_id client.default_weight client.source)) [
        | inr (e, q) ↦ absurd (cc (rw (q, candidates) at h))
        | inl (instances, found) ↦
            let fits =
              keep_if (is_compatible client.binding_id client.http_version_policy) instances in
            elim (Result-cases (nonempty no_compatible_endpoint fits)) [
              | inr (e, q) ↦ absurd (cc (rw (found, q, candidates) at h))
              | inl (compatible, q) ↦
                  let same : prefer (keep_if (is_untried attempted) compatible) compatible ≡ cs =
                    cc (rw (found, q, candidates) at h) in
                  preferred instances compatible _
                    (nonempty_lem no_compatible_endpoint fits compatible q) refl found i
                    (subst (λ l. Memᴰ i l) (sym same) m)
            ]
      ]

module _ {W S P : Type 0} (breakers : Breakers S P) where
  -- An instance whose breaker gave it this permit.
  abbrev Admitted : List (ServiceInstance W) → ServiceInstance W × P → Type 0
  Admitted is (i, p) = Memᴰ i is × ((s : S) × ((breakers.try_acquire (url_of i) s).1 ≡ some p))

  acquire_all_lem :
      (is : List (ServiceInstance W)) (s : S) (x : ServiceInstance W × P)
      → Memᴰ x (acquire_all breakers is s).1
      → Admitted is x
  unfolding acquire_all
  acquire_all_lem [] s x m = elim m [ ]
  acquire_all_lem (i ∷ is) s x m = elim (Option-cases (breakers.try_acquire (url_of i) s).1) [
    | inl e ↦ let (l, t) = acquire_all_lem is _ x (rw (e, acquire_all) at m) in (Memᴰ.tail l, t)
    | inr (p, e) ↦ elim (rw (e, acquire_all) at m) [
      | Memᴰ.head same ↦ rw same (Memᴰ.head refl, (s, e))
      | Memᴰ.tail later ↦ let (l, t) = acquire_all_lem is _ x later in (Memᴰ.tail l, t)
    ]
  ]

  take_permit_lem :
      (policy : HttpVersionPolicy) (c : Caught ℕ) (s : S) (es : List (ServiceInstance W × P))
      (e : SelectedEndpoint W P)
      → (take_permit breakers policy c s es).result ≡ ok e
      → (x : ServiceInstance W × P) × Memᴰ x es × (e ≡ selected policy x.0 x.1)
  unfolding take_permit
  take_permit_lem policy (returned index) s es e h = elim (Option-cases (get_elem? es index)) [
    | inl q ↦ absurd (cc (rw (q, take_permit) at h))
    | inr (x, q) ↦ (x, get_elem?-Memᴰ es index x q, cc (rw (q, take_permit) at h))
  ]
  take_permit_lem policy (failed q) s es e h = absurd (cc)
  take_permit_lem policy panicked s es e h = absurd (cc)

  choose_lem :
      (client : Client W) (s : S) (es : List (ServiceInstance W × P)) (e : SelectedEndpoint W P)
      → (choose breakers client (s, es)).result ≡ ok e
      → (x : ServiceInstance W × P) × Memᴰ x es × (e ≡ selected client.http_version_policy x.0 x.1)
  unfolding choose
  choose_lem client s [] e h = absurd (cc)
  choose_lem client s (x ∷ xs) e h = take_permit_lem client.http_version_policy _ s (x ∷ xs) e h

  balance_lem :
      (client : Client W) (s : S) (r : Result (List (ServiceInstance W)) Error)
      (e : SelectedEndpoint W P)
      → (balance breakers client s r).result ≡ ok e
      → (is : List (ServiceInstance W)) × (r ≡ ok is)
        × ((x : ServiceInstance W × P) × Memᴰ x (acquire_all breakers is s).1
            × (e ≡ selected client.http_version_policy x.0 x.1))
  unfolding balance
  balance_lem client s (err q) e h = absurd (cc)
  balance_lem client s (ok []) e h = absurd (cc)
  balance_lem client s (ok (i ∷ is)) e h = (i ∷ is, refl, choose_lem client _ _ e h)

selected_version :
    {W P : Type 0} (policy : HttpVersionPolicy) (i : ServiceInstance W) (p : P)
    → is_some (select_http_version policy i.endpoint i.capabilities) ≡ true
    → ((selected policy i p).auto_negotiate ≡ true)
      ⊎ (select_http_version policy i.endpoint i.capabilities
          ≡ some (selected policy i p).http_version)
unfolding selected
selected_version policy i p h =
    elim (Bool-cases (should_auto_negotiate policy i.endpoint i.capabilities)) [
      | inl n ↦ inl (rw (selected, n) refl)
      | inr n ↦ elim (Option-cases (select_http_version policy i.endpoint i.capabilities)) [
        | inl e ↦ absurd (cc (rw e at h))
        | inr (v, e) ↦ inr (rw (selected, n, e) refl)
      ]
    ]

module _ {W S P : Type 0} (breakers : Breakers S P) (client : Client W)
    (attempted : List Bytes) where
  eligible :
      (i : ServiceInstance W) (p : P)
      → Offered client attempted i
      → (s : S) → (breakers.try_acquire (url_of i) s).1 ≡ some p
      → Eligible breakers client attempted (selected client.http_version_policy i p)
  unfolding selected
  eligible i p o s h = record {
    offered = o;
    state = s;
    admitted = h;
    versioned = selected_version client.http_version_policy i p (ground (arith, o.compatible));
  }

  -- A selected endpoint is an instance that the source offers, which supports the binding and a version
  -- that the policy allows, and was attempted before only if all such instances were; its breaker gave the
  -- permit, and its version is negotiated or the one that the policy selects, whatever the routers and the
  -- load balancer do, if the equality of weights decides whether they are the same.
  pub select_endpoint-Eligible :
      (weight_eq : W → W → Bool) (weight_eq_iff : (a b : W) → (weight_eq a b ≡ true) ↔ (a ≡ b))
      (s : S) (e : SelectedEndpoint W P)
      → (select_endpoint weight_eq breakers client attempted s).result ≡ ok e
      → Eligible breakers client attempted e
  unfolding select_endpoint
  select_endpoint-Eligible weight_eq weight_eq_iff s e h =
      let (is, found, chosen) = balance_lem breakers client s _ e h in
      let ((i, p), m, same) = chosen in
      let (l, admitted) = acquire_all_lem breakers is s (i, p) m in
      elim (Result-cases (candidates client attempted)) [
        | inr (q, bad) ↦ absurd (cc (rw bad at found))
        | inl (cs, good) ↦
            let o =
              candidates_lem client attempted cs good i (
                route_all_lem weight_eq weight_eq_iff client.routers cs is (rw good at found) i
                  l) in
            subst (λ x. Eligible breakers client attempted x) (sym same)
              (eligible i p o admitted.0 admitted.1)
      ]
