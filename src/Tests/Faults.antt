-- ===== src/Tests/Faults.antt =====
-- Runs of fusen/src/error/invocation.rs and fusen/src/resilience/classify.rs, of version sets, and of the
-- test of router outputs.
use fusen_rs.Client.Instances.{validate_output}
use fusen_rs.Client.Instances.Subset.{count, validate_output_iff}
use fusen_rs.Errors.{
  Error, ErrorKind, RetryHint, RemoteErrorParts, from_remote_parts, with_attempts, unavailable,
}
use fusen_rs.Errors.Classify.{IsTransient, classify_error, classify_error-IsTransient}
use fusen_rs.Errors.Hints.{by_peer, attempts_set, HasNoHint, Made-HasNoHint}
use fusen_rs.Resilience.Failure.{is_retryable}
use fusen_rs.Prelude.{ℕ, ◌≡◌, ◌≤◌, ◌↔◌, Bool, true, [], ◌∷◌, ◌==◌, ==_iff}
use fusen_rs.Prelude.Bytes.{bytes_of}

abbrev parts : RemoteErrorParts
parts = record {
  kind = ErrorKind.application;
  category = unavailable;
  code = bytes_of "busy";
  message = bytes_of "later";
  status = 503;
  request_id = bytes_of "1";
  retry_hint = RetryHint.after 10;
}

Made-HasNoHint_example : HasNoHint (with_attempts 2 (from_remote_parts parts))
Made-HasNoHint_example = Made-HasNoHint (attempts_set 2 (by_peer parts))

abbrev hinted : Error
hinted = from_remote_parts (record parts { kind = ErrorKind.framework })

classify_error-IsTransient_example :
    (is_retryable (classify_error hinted) ≡ true) ↔ IsTransient hinted
classify_error-IsTransient_example = classify_error-IsTransient hinted

abbrev same : ℕ → ℕ → Bool
same a b = a == b

validate_output_iff_example :
    (validate_output same (1 ∷ 2 ∷ 1 ∷ []) (2 ∷ 1 ∷ []) ≡ true)
    ↔ ((y : ℕ) → count same ==_iff y (2 ∷ 1 ∷ []) ≤ count same ==_iff y (1 ∷ 2 ∷ 1 ∷ []))
validate_output_iff_example = validate_output_iff same ==_iff (1 ∷ 2 ∷ 1 ∷ []) (2 ∷ 1 ∷ [])
