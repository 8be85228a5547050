-- ===== src/Client/Select/Outstanding.antt =====
-- How often a permit of fusen/src/resilience/breaker.rs is out, and how calls of the breakers change it.
use fusen_rs.Client.Select.Circuits.{
  Circuits, BreakerPermit, token_eq, phase_eq, find_token, put, given, on_acquired, acquire_permit,
  finish_permit,
}
use fusen_rs.Client.Select.Permits.{granted}
use fusen_rs.Resilience.Breaker.{
  BreakerConfig, BreakerRejection, PermitToken, PermitPhase, PermitOutcome, Acquired, try_acquire,
}
use fusen_rs.Resilience.Breaker.Permits.{Breaker, acquire, finish, step, keep_permit}
use fusen_rs.Prelude.{
  ℕ, zero, suc, ◌+◌, ◌-◌, ◌≡◌, refl, sym, ap, inl, inr, Bool, true, false, ◌&&◌, Option, none, some,
  List, [], ◌∷◌, if◌then◌else◌, Result, ok, err, Float64, arith, Bool-cases, Option-cases,
  get_elem?, remove_at,
}
use fusen_rs.Prelude.Bytes.{Bytes, str_eq, str_eq_sound, str_eq_refl}

-- Whether a permit is the given one, as a number.
unfoldable pub is_permit : BreakerPermit → BreakerPermit → ℕ
unfolding token_eq str_eq
is_permit x p = if str_eq x.endpoint p.endpoint && token_eq p.token x.token then 1 else 0

unfoldable pub times_out : PermitToken → List PermitToken → ℕ
unfolding token_eq
times_out token [] = 0
times_out token (t ∷ ts) = (if token_eq t token then 1 else 0) + times_out token ts

-- How often a permit is out.
abbrev pub out_count : BreakerPermit → Circuits → ℕ
out_count x s = times_out x.token (s.breaker x.endpoint).permits

phase_eq_sound : (a b : PermitPhase) → phase_eq a b ≡ true → a ≡ b
phase_eq_sound PermitPhase.closed PermitPhase.closed h = refl
phase_eq_sound PermitPhase.half_open PermitPhase.half_open h = refl
phase_eq_sound PermitPhase.closed PermitPhase.half_open h = cc
phase_eq_sound PermitPhase.half_open PermitPhase.closed h = cc

token_eq_sound : (a b : PermitToken) → token_eq a b ≡ true → a ≡ b
unfolding token_eq
token_eq_sound a b h =
    let epochs : a.epoch ≡ b.epoch = ground arith in
    let phases : phase_eq a.phase b.phase ≡ true = ground arith in
    let same = phase_eq_sound a.phase b.phase phases in cc

find_token-get_elem? :
    (token : PermitToken) (ts : List PermitToken) (i : ℕ)
    → find_token token ts ≡ some i
    → get_elem? ts i ≡ some token
unfolding find_token
find_token-get_elem? token [] i h = cc
find_token-get_elem? token (t ∷ ts) i h = elim (Bool-cases (token_eq t token)) [
  | inl y ↦
      let first : i ≡ 0 = cc (rw (find_token, y) at h) in
      rw first (ap some (token_eq_sound t token y))
  | inr n ↦ elim (Option-cases (find_token token ts)) [
    | inl e ↦ absurd (cc (rw (find_token, n, e) at h))
    | inr (j, e) ↦
        let found : some (j + 1) ≡ some i = rw (find_token, n, e) at h in
        let later : i ≡ suc j = ground arith in rw later (find_token-get_elem? token ts j e)
  ]
]

times_out-remove_at :
    (x token : PermitToken) (ts : List PermitToken) (i : ℕ)
    → get_elem? ts i ≡ some token
    → times_out x (remove_at i ts) + (if token_eq token x then 1 else 0) ≡ times_out x ts
unfolding times_out
times_out-remove_at x token [] i h = absurd (cc)
times_out-remove_at x token (t ∷ ts) zero h = let same : t ≡ token = cc in rw same (omega arith)
times_out-remove_at x token (t ∷ ts) (suc i) h = omega (arith, times_out-remove_at x token ts i h)

times_out-absent :
    (token : PermitToken) (ts : List PermitToken)
    → find_token token ts ≡ none
    → times_out token ts ≡ 0
unfolding times_out find_token
times_out-absent token [] h = refl
times_out-absent token (t ∷ ts) h = elim (Bool-cases (token_eq t token)) [
  | inl y ↦ absurd (cc (rw (find_token, y) at h))
  | inr n ↦ elim (Option-cases (find_token token ts)) [
    | inl e ↦ rw (times_out, n) (omega (arith, times_out-absent token ts e))
    | inr (j, e) ↦ absurd (cc (rw (find_token, n, e) at h))
  ]
]

both : (a b : Bool) → (a && b) ≡ true → (a ≡ true) × (b ≡ true)
both true b h = (refl, h)
both false b h = cc

module _ {F : Type 0} (fl : Float64 F) (config : BreakerConfig F) where
  kept_result :
      (x : PermitToken) (url : Bytes) (r : Result PermitToken BreakerRejection)
      (ts : List PermitToken)
      → times_out x (keep_permit r ts)
        ≡ times_out x ts + granted (is_permit (record { endpoint = url; token = x })) (given url r)
  unfolding times_out is_permit
  kept_result x url (ok token) ts = rw (str_eq_refl url) (omega arith)
  kept_result x url (err e) ts = omega arith

  -- The tokens after a call that acquires.
  keep_given :
      (x : PermitToken) (url : Bytes) (a : Option Acquired) (b : Breaker) (now : ℕ)
      → try_acquire config b.inner now ≡ a
      → times_out x (step fl config b (acquire now)).permits
        ≡ times_out x b.permits
          + granted (is_permit (record { endpoint = url; token = x })) (on_acquired url a)
  unfolding step times_out is_permit
  keep_given x url none b now e = rw (e, step) (omega arith)
  keep_given x url (some a) b now e = rw (e, step) (kept_result x url a.result b.permits)

  acquired_here :
      (x : BreakerPermit) (s : Circuits)
      → out_count x (acquire_permit fl config x.endpoint s).0
        ≡ out_count x s + granted (is_permit x) (acquire_permit fl config x.endpoint s).1
  unfolding acquire_permit put
  acquired_here x s = rw (str_eq_refl x.endpoint) (
      keep_given x.token x.endpoint (try_acquire config (s.breaker x.endpoint).inner s.now)
        (s.breaker x.endpoint) s.now refl)

  result_elsewhere :
      (x : BreakerPermit) (url : Bytes) (r : Result PermitToken BreakerRejection)
      → str_eq x.endpoint url ≡ false
      → granted (is_permit x) (given url r) ≡ 0
  unfolding is_permit
  result_elsewhere x url (ok token) h = rw h refl
  result_elsewhere x url (err e) h = refl

  given_elsewhere :
      (x : BreakerPermit) (url : Bytes) (a : Option Acquired)
      → str_eq x.endpoint url ≡ false
      → granted (is_permit x) (on_acquired url a) ≡ 0
  given_elsewhere x url none h = refl
  given_elsewhere x url (some a) h = result_elsewhere x url a.result h

  pub acquired-out :
      (x : BreakerPermit) (url : Bytes) (s : Circuits)
      → out_count x (acquire_permit fl config url s).0
        ≡ out_count x s + granted (is_permit x) (acquire_permit fl config url s).1
  unfolding acquire_permit put
  acquired-out x url s = elim (Bool-cases (str_eq x.endpoint url)) [
    | inl y ↦
        let same : url ≡ x.endpoint = sym (str_eq_sound x.endpoint url y) in
        rw same (acquired_here x s)
    | inr n ↦
        rw (n, given_elsewhere x url (try_acquire config (s.breaker url).inner s.now) n)
          (omega arith)
  ]

  finished_here :
      (x : BreakerPermit) (token : PermitToken) (o : PermitOutcome) (i : ℕ) (s : Circuits)
      → find_token token (s.breaker x.endpoint).permits ≡ some i
      → times_out x.token (step fl config (s.breaker x.endpoint) (finish i s.now o)).permits
        ≡ out_count x s - (if token_eq token x.token then 1 else 0)
  unfolding step
  finished_here x token o i s h =
      let out = find_token-get_elem? token (s.breaker x.endpoint).permits i h in
      rw (step, out)
        (omega (arith, times_out-remove_at x.token token (s.breaker x.endpoint).permits i out))

  pub finished-out :
      (x p : BreakerPermit) (o : PermitOutcome) (s : Circuits)
      → out_count x (finish_permit fl config p o s) ≡ out_count x s - is_permit x p
  unfolding finish_permit put is_permit
  finished-out x p o s = elim (Option-cases (find_token p.token (s.breaker p.endpoint).permits)) [
    | inl e ↦ elim (Bool-cases (str_eq x.endpoint p.endpoint && token_eq p.token x.token)) [
      | inl y ↦
          let (url, token) = both _ _ y in
          let same_url : p.endpoint ≡ x.endpoint = sym (str_eq_sound x.endpoint p.endpoint url) in
          let same_token = token_eq_sound p.token x.token token in
          let absent =
            times_out-absent x.token (s.breaker x.endpoint).permits
              (rw (same_url, same_token) at e) in
          rw (finish_permit, e, y) (omega (arith, absent))
      | inr n ↦ rw (finish_permit, e, n) (omega arith)
    ]
    | inr (i, e) ↦ elim (Bool-cases (str_eq x.endpoint p.endpoint)) [
      | inl y ↦
          let same : p.endpoint ≡ x.endpoint = sym (str_eq_sound x.endpoint p.endpoint y) in
          rw (finish_permit, e, y) (rw same (finished_here x p.token o i s (rw same at e)))
      | inr n ↦ rw (finish_permit, e, n) (omega arith)
    ]
  ]
