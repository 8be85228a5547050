-- ===== src/Client/Attempts.antt =====
-- `AttemptTerminal` and `execute_attempts` of fusen/src/client/invocation.rs. What an attempt meets is a
-- `Round`: the client's snapshot, the exchange with the peer, the interceptors, the policy, the clock and
-- what other tasks do to the breakers and to the retry budget before it. Metrics are left out.
use fusen_rs.Client.Select.{framework_error}
use fusen_rs.Client.Response.{Response, mark_wire_origin}
use fusen_rs.Contract.Http.{Version}
use fusen_rs.Errors.{Error, resource_exhausted, deadline_exceeded, cancelled, internal, retry_after}
use fusen_rs.Errors.Classify.{classify_error}
use fusen_rs.Resilience.Failure.{FailureClass}
use fusen_rs.Prelude.{ℕ, Bool, true, false, not, Option, none, some, if◌then◌else◌, Result, ok, err}
use fusen_rs.Prelude.Bytes.{bytes_of}

abbrev pub deadline_error : Error
deadline_error =
    framework_error deadline_exceeded 504 (bytes_of "deadline_exceeded")
      (bytes_of "service invocation deadline elapsed")

abbrev pub cancelled_error : Error
cancelled_error =
    framework_error cancelled 499 (bytes_of "cancelled")
      (bytes_of "service invocation was cancelled")

abbrev pub endpoint_overloaded : Error
endpoint_overloaded =
    framework_error resource_exhausted 429 (bytes_of "endpoint_overloaded")
      (bytes_of "selected endpoint concurrency is exhausted")

abbrev pub retry_policy_panic : Error
retry_policy_panic =
    framework_error internal 500 (bytes_of "retry_policy_panic") (bytes_of "retry policy failed")

pub record AttemptObservation : Type 0 where
  pub failure : Option FailureClass
  pub retry_after : Option ℕ
  pub transport_succeeded : Bool
  pub http_version : Option Version

-- `AttemptObservation::default`.
abbrev pub nothing_observed : AttemptObservation
nothing_observed = record {
  failure = none;
  retry_after = none;
  transport_succeeded = false;
  http_version = none;
}

-- What comes of sending a request; an interceptor may drop the attempt while it waits.
pub data Sent : Type 0 where
  force_cancelled timed_out dropped : Sent
  unconnected broken : Error → Sent
  answered : Version → Sent

-- What comes of decoding a response.
pub data Decoded (R : Type 0) : Type 0 where
  timed_out dropped : Decoded R
  undecodable : Error → Decoded R
  decoded : R → Decoded R

-- The answers that the terminal of an attempt gets from the code that it calls.
pub record Exchange (R : Type 0) : Type 0 where
  pub bulkhead_free : Bool
  pub template_error : Option Error
  pub request_error : Option Error
  pub sent : Sent
  pub answer : Decoded R

-- What the terminal leaves behind; a dropped one has no result.
pub record Terminated (R : Type 0) : Type 0 where
  pub attempts_started : ℕ
  pub observation : AttemptObservation
  pub result : Option (Result R Error)

module _ {B : Type 0} where
  unfoldable pub decoding : ℕ → Version → Decoded (Response B) → Terminated (Response B)
  unfolding classify_error retry_after mark_wire_origin
  decoding started version timed_out = record {
    attempts_started = started;
    observation = record nothing_observed {
      http_version = some version;
      failure = some FailureClass.timeout;
    };
    result = some (err deadline_error);
  }
  decoding started version dropped = record {
    attempts_started = started;
    observation = record nothing_observed { http_version = some version };
    result = none;
  }
  decoding started version (undecodable e) = record {
    attempts_started = started;
    observation = record nothing_observed {
      http_version = some version;
      failure = some (classify_error e);
      retry_after = retry_after e.retry_hint;
    };
    result = some (err e);
  }
  decoding started version (decoded response) = record {
    attempts_started = started;
    observation = record nothing_observed {
      http_version = some version;
      transport_succeeded = true;
    };
    result = some (ok (mark_wire_origin response));
  }

  abbrev pub failing : ℕ → Option FailureClass → Error → Terminated (Response B)
  failing started class e = record {
    attempts_started = started;
    observation = record nothing_observed { failure = class };
    result = some (err e);
  }

  unfoldable pub sending : ℕ → Sent → Decoded (Response B) → Terminated (Response B)
  unfolding decoding
  sending attempt force_cancelled answer = failing attempt none cancelled_error
  sending attempt timed_out answer = failing attempt (some FailureClass.timeout) deadline_error
  sending attempt dropped answer = record {
    attempts_started = attempt;
    observation = nothing_observed;
    result = none;
  }
  sending attempt (unconnected e) answer = failing attempt (some FailureClass.connect) e
  sending attempt (broken e) answer = failing attempt (some FailureClass.transport) e
  sending attempt (answered version) answer = decoding attempt version answer

  -- `AttemptTerminal::call`, with the attempts that were started before it.
  unfoldable pub terminal_call : ℕ → ℕ → Exchange (Response B) → Terminated (Response B)
  unfolding sending
  terminal_call attempt started x =
      if not x.bulkhead_free
      then failing started none endpoint_overloaded
      else elim x.template_error [
        | some e ↦ failing started none e
        | none ↦ elim x.request_error [
          | some e ↦ failing started none e
          | none ↦ sending attempt x.sent x.answer
        ]
      ]

-- What interceptors do: they answer themselves, or enter the rest of the chain once. They are given nothing
-- where they drop it at an await.
pub data Interception (R : Type 0) : Type 0 where
  short_circuit : Result R Error → Interception R
  around : (Option (Result R Error) → Result R Error) → Interception R

-- The attempt with its interceptors, `Next::run`.
pub record Intercepted (R : Type 0) : Type 0 where
  pub attempts_started : ℕ
  pub observation : AttemptObservation
  pub result : Result R Error

unfoldable pub intercepted :
    {B : Type 0}
    → Interception (Response B)
    → ℕ
    → ℕ
    → Exchange (Response B)
    → Intercepted (Response B)
unfolding terminal_call
intercepted (short_circuit result) attempt started x = record {
  attempts_started = started;
  observation = nothing_observed;
  result = result;
}
intercepted (around f) attempt started x =
    let t = terminal_call attempt started x in
    record {
      attempts_started = t.attempts_started;
      observation = t.observation;
      result = f t.result;
    }
