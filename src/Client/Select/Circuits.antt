-- ===== src/Client/Select/Circuits.antt =====
-- The circuit breakers of fusen/src/resilience/breaker.rs behind the interface of a selection: one for
-- each key, with the permits that it has given out as in Resilience/Breaker/Permits, and a clock.
use fusen_rs.Client.Select.{Breakers}
use fusen_rs.Resilience.Breaker.{
  BreakerConfig, BreakerRejection, PermitToken, PermitPhase, PermitOutcome, Acquired, try_acquire,
}
use fusen_rs.Resilience.Breaker.Permits.{Breaker, acquire, finish, step}
use fusen_rs.Prelude.{
  ℕ, ◌+◌, Bool, true, false, ◌==◌, ◌&&◌, Option, none, some, List, [], ◌∷◌, if◌then◌else◌, Result,
  ok, err, Float64,
}
use fusen_rs.Prelude.Bytes.{Bytes, str_eq}

-- The breakers, with the number of calls that they have seen.
pub record Circuits : Type 0 where
  pub calls : ℕ
  pub now : ℕ
  pub breaker : Bytes → Breaker

-- `BreakerPermit`: the breaker is known by its key.
pub record BreakerPermit : Type 0 where
  pub endpoint : Bytes
  pub token : PermitToken

abbrev pub phase_eq : PermitPhase → PermitPhase → Bool
phase_eq PermitPhase.closed PermitPhase.closed = true
phase_eq PermitPhase.half_open PermitPhase.half_open = true
phase_eq _ _ = false

unfoldable pub token_eq : PermitToken → PermitToken → Bool
token_eq a b = a.epoch == b.epoch && phase_eq a.phase b.phase

-- The place of a token among those that are out.
unfoldable pub find_token : PermitToken → List PermitToken → Option ℕ
unfolding token_eq
find_token token [] = none
find_token token (t ∷ ts) =
    let rest = find_token token ts in
    if token_eq t token then some 0 else elim rest [ none ↦ none | some i ↦ some (i + 1) ]

-- The state of one breaker after a call.
unfoldable pub put : Bytes → Breaker → Circuits → Circuits
unfolding str_eq
put url b s = record s {
  calls = s.calls + 1;
  breaker = λ other. if str_eq other url then b else s.breaker other;
}

abbrev pub given : Bytes → Result PermitToken BreakerRejection → Option BreakerPermit
given url (ok token) = some (record { endpoint = url; token = token })
given url (err rejection) = none

abbrev pub on_acquired : Bytes → Option Acquired → Option BreakerPermit
on_acquired url none = none
on_acquired url (some a) = given url a.result

module _ {F : Type 0} (fl : Float64 F) (config : BreakerConfig F) where
  -- `CircuitBreaker::try_acquire` of the breaker of an endpoint.
  unfoldable pub acquire_permit : Bytes → Circuits → Circuits × Option BreakerPermit
  unfolding put try_acquire step
  acquire_permit url s = (
    put url (step fl config (s.breaker url) (acquire s.now)) s,
    on_acquired url (try_acquire config (s.breaker url).inner s.now),
  )

  -- `BreakerPermit::finish`, which takes the token: one that is not out has been taken before.
  unfoldable pub finish_permit : BreakerPermit → PermitOutcome → Circuits → Circuits
  unfolding put step find_token
  finish_permit permit outcome s =
      elim (find_token permit.token (s.breaker permit.endpoint).permits) [
        | none ↦ s
        | some i ↦
            put permit.endpoint
              (step fl config (s.breaker permit.endpoint) (finish i s.now outcome)) s
      ]

  abbrev pub circuits : Breakers Circuits BreakerPermit
  circuits = record { try_acquire = acquire_permit; complete = finish_permit }
