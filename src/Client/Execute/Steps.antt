-- ===== src/Client/Execute/Steps.antt =====
-- What the steps of an attempt in fusen/src/client/invocation.rs keep, and how they count attempts.
use fusen_rs.Client.Attempts.{
  Decoded, Sent, Exchange, Interception, short_circuit, around, Intercepted, intercepted,
  terminal_call, sending, decoding,
}
use fusen_rs.Client.Execute.{retry_delay, Settings, Round, World}
use fusen_rs.Client.Execute.Loop.{after_failure, succeeded, failed_as, finish}
use fusen_rs.Client.Response.{Response}
use fusen_rs.Client.Select.{Breakers}
use fusen_rs.Contract.Http.{Version}
use fusen_rs.Errors.{Error}
use fusen_rs.Errors.Classify.{ClassifiedError}
use fusen_rs.Prelude.{
  ℕ, ◌≤◌, ◌≡◌, refl, arith, inl, inr, Option, none, some, List, leb, Result, ok, err, Bool-cases,
  Option-cases,
}
use fusen_rs.Prelude.Bytes.{Bytes}

module _ {B : Type 0} where
  decoding_started :
      (n : ℕ) (v : Version) (d : Decoded (Response B)) → (decoding n v d).attempts_started ≡ n
  unfolding decoding
  decoding_started n v Decoded.timed_out = refl
  decoding_started n v Decoded.dropped = refl
  decoding_started n v (Decoded.undecodable e) = refl
  decoding_started n v (Decoded.decoded r) = refl

  sending_started :
      (n : ℕ) (s : Sent) (d : Decoded (Response B)) → (sending n s d).attempts_started ≡ n
  unfolding sending
  sending_started n Sent.force_cancelled d = refl
  sending_started n Sent.timed_out d = refl
  sending_started n Sent.dropped d = refl
  sending_started n (Sent.unconnected e) d = refl
  sending_started n (Sent.broken e) d = refl
  sending_started n (Sent.answered v) d = decoding_started n v d

  terminal_call_started :
      (n started : ℕ) (x : Exchange (Response B))
      → started ≤ n
      → (terminal_call n started x).attempts_started ≤ n
  unfolding terminal_call
  terminal_call_started n started x h = elim (Bool-cases x.bulkhead_free) [
    | inr full ↦ rw (terminal_call, full) h
    | inl free ↦ elim (Option-cases x.template_error) [
      | inr (e, q) ↦ rw (terminal_call, free, q) h
      | inl t ↦ elim (Option-cases x.request_error) [
        | inr (e, q) ↦ rw (terminal_call, free, t, q) h
        | inl r ↦ rw (terminal_call, free, t, r) (omega (arith, sending_started n x.sent x.answer))
      ]
    ]
  ]

  pub intercepted_started :
      (i : Interception (Response B)) (n started : ℕ) (x : Exchange (Response B))
      → started ≤ n
      → (intercepted i n started x).attempts_started ≤ n
  unfolding intercepted
  intercepted_started (short_circuit r) n started x h = h
  intercepted_started (around f) n started x h = terminal_call_started n started x h

module _ {W S B : Type 0} (settings : Settings) where
  pub after_failure_keeps :
      (round : Round W S B) (n : ℕ) (world : World S) (hint : Option ℕ) (failed : ClassifiedError)
      → let after = (after_failure settings round n world hint failed).0 in
        (after.breakers ≡ world.breakers) × (after.attempts_started ≡ world.attempts_started)
  unfolding after_failure
  after_failure_keeps round n world hint failed =
      elim (Bool-cases (leb round.remaining (retry_delay round.sample settings n hint))) [
        | inl late ↦ rw (after_failure, late) (refl, refl)
        | inr early ↦ rw (after_failure, early) (refl, refl)
      ]

pub failed_as_keeps :
    {S : Type 0} (B P : Type 0) (attempted : List Bytes) (r : World S × Option ClassifiedError)
    → (failed_as {B = B} {P = P} attempted r).world ≡ r.0
failed_as_keeps B P attempted (w, none) = refl
failed_as_keeps B P attempted (w, some e) = refl

module _ {S B P : Type 0} (breakers : Breakers S P) where
  succeeded_started :
      (n : ℕ) (permit : P) (run : Intercepted (Response B)) (world : World S) (r : Response B)
      → (succeeded breakers n permit run world r).0.attempts_started ≡ world.attempts_started
  unfolding succeeded
  succeeded_started n permit run world r = elim (Option-cases run.observation.failure) [
    | inr (f, e) ↦ rw (succeeded, e) refl
    | inl e ↦ elim (Bool-cases (leb n run.attempts_started)) [
      | inl y ↦ rw (succeeded, e, y) refl
      | inr y ↦ rw (succeeded, e, y) refl
    ]
  ]

module _ {W S B P : Type 0} (breakers : Breakers S P) (settings : Settings) where
  pub finish_started :
      (round : Round W S B) (n : ℕ) (attempted : List Bytes) (permit : P)
      (run : Intercepted (Response B)) (r : Result (Response B) Error) (world : World S)
      → (finish breakers settings round n attempted permit run r world).world.attempts_started
        ≡ world.attempts_started
  unfolding finish
  finish_started round n attempted permit run (ok response) world =
      succeeded_started breakers n permit run world response
  finish_started round n attempted permit run (err e) world =
      rw (failed_as_keeps B P attempted (after_failure settings round n _ _ _))
        (after_failure_keeps settings round n _ _ _).1
