-- ===== src/Client/Select/Tracked.antt =====
-- The circuit breakers of fusen/src/resilience/breaker.rs with the account that they keep of their permits.
use fusen_rs.Client.Select.{Breakers}
use fusen_rs.Client.Select.Circuits.{
  Circuits, BreakerPermit, find_token, put, acquire_permit, finish_permit,
}
use fusen_rs.Client.Select.Outstanding.{is_permit, out_count, acquired-out, finished-out}
use fusen_rs.Client.Select.Permits.{Counted}
use fusen_rs.Resilience.Breaker.{BreakerConfig, PermitOutcome}
use fusen_rs.Resilience.Breaker.Permits.{
  Event, acquire, finish, step, IsAccounted, step-IsAccounted,
}
use fusen_rs.Prelude.{
  ◌+◌, ◌^◌, ◌≤◌, ◌<◌, inl, inr, ◌⊎◌, Option, Float64, arith, Bool-cases, Option-cases, dec_lt,
}
use fusen_rs.Prelude.Bytes.{Bytes, str_eq}

module _ {F : Type 0} (fl : Float64 F) (config : BreakerConfig F) where
  -- The calls so far are fewer than the epochs that 64 bits tell apart, and each breaker accounts for the
  -- permits that it has given out.
  pub record AllAccounted (s : Circuits) : Type 0 where
    pub few : s.calls < 2 ^ 64
    pub accounted : (url : Bytes) → IsAccounted config (s.breaker url)
    pub epochs : (url : Bytes) → (s.breaker url).inner.epoch ≤ s.calls

  abbrev pub IsSound : Circuits → Type 0
  IsSound s = (2 ^ 64 ≤ s.calls) ⊎ AllAccounted s

  put-step-AllAccounted :
      (url : Bytes) (e : Event) (s : Circuits)
      → AllAccounted s
      → s.calls + 1 < 2 ^ 64
      → AllAccounted (put url (step fl config (s.breaker url) e) s)
  unfolding put
  put-step-AllAccounted url e s h small =
      let next =
        step-IsAccounted fl config (s.breaker url) e (h.accounted url)
          (omega (arith, h.epochs url)) in
      record {
        few = small;
        accounted = λ other. elim (Bool-cases (str_eq other url)) [
          | inl y ↦ rw y next.0
          | inr n ↦ rw n (h.accounted other)
        ];
        epochs = λ other. elim (Bool-cases (str_eq other url)) [
          | inl y ↦ rw y (omega (arith, next.1, h.epochs url))
          | inr n ↦ rw n (omega (arith, h.epochs other))
        ];
      }

  put-step-IsSound :
      (url : Bytes) (e : Event) (s : Circuits)
      → IsSound s
      → IsSound (put url (step fl config (s.breaker url) e) s)
  unfolding put
  put-step-IsSound url e s (inl many) = inl (omega arith)
  put-step-IsSound url e s (inr h) = elim (dec_lt (s.calls + 1) (2 ^ 64)) [
    | yes small ↦ inr (put-step-AllAccounted url e s h small)
    | no large ↦ inl (omega (arith, large))
  ]

  pub acquired-IsSound :
      (url : Bytes) (s : Circuits) → IsSound s → IsSound (acquire_permit fl config url s).0
  unfolding acquire_permit
  acquired-IsSound url s h = put-step-IsSound url (acquire s.now) s h

  pub finished-IsSound :
      (p : BreakerPermit) (o : PermitOutcome) (s : Circuits)
      → IsSound s
      → IsSound (finish_permit fl config p o s)
  unfolding finish_permit
  finished-IsSound p o s h =
      elim (Option-cases (find_token p.token (s.breaker p.endpoint).permits)) [
        | inl e ↦ rw (finish_permit, e) h
        | inr (i, e) ↦ rw (finish_permit, e) (put-step-IsSound p.endpoint (finish i s.now o) s h)
      ]

  -- The circuit breakers in a state that is known to be sound.
  pub record Tracked : Type 0 where
    pub state : Circuits
    pub sound : IsSound state

  abbrev pub track_acquire : Bytes → Tracked → Tracked × Option BreakerPermit
  track_acquire url t = (
    record {
      state = (acquire_permit fl config url t.state).0;
      sound = acquired-IsSound url t.state t.sound;
    },
    (acquire_permit fl config url t.state).1,
  )

  abbrev pub track_finish : BreakerPermit → PermitOutcome → Tracked → Tracked
  track_finish p o t = record {
    state = finish_permit fl config p o t.state;
    sound = finished-IsSound p o t.state t.sound;
  }

  abbrev pub tracked : Breakers Tracked BreakerPermit
  tracked = record { try_acquire = track_acquire; complete = track_finish }

  -- The state counts how often a permit is out.
  pub tracked-Counted :
      (x : BreakerPermit) → Counted tracked (is_permit x) (λ t. out_count x t.state)
  tracked-Counted x = record {
    acquired = λ url t. acquired-out fl config x url t.state;
    completed = λ p o t. finished-out fl config x p o t.state;
  }
