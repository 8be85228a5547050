-- ===== src/Errors/Hints.antt =====
-- The retry hints of the errors of fusen/src/error/invocation.rs, however an error was made.
use fusen_rs.Errors.{
  Error, ErrorKind, ErrorCategory, RetryHint, RemoteErrorParts, never, new_application,
  application_status, new_local, new_framework, from_remote_parts, with_attempts, with_request_id,
  with_remote_origin, with_local_origin, with_retry_hint, application_parts, error_code,
  canonical_status, is_client_error, is_server_error, hint_or, hint_for,
}
use fusen_rs.Prelude.{
  ℕ, ◌≡◌, refl, inl, inr, some, ok, arith, Result-cases, Option-cases, Bool-cases, not, ◌&&◌,
}
use fusen_rs.Prelude.Bytes.{Bytes}

-- An error that is made by one of the constructors and then changed by setters.
pub data Made : Error → Type 0 where
  by_application :
      {e : Error} (c : ErrorCategory) (code message : Bytes)
      → new_application c code message ≡ ok e
      → Made e
  by_status :
      {e : Error} (s : ℕ) (code message : Bytes) → application_status s code message ≡ ok e → Made e
  by_local :
      {e : Error} (c : ErrorCategory) (code message : Bytes)
      → new_local c code message ≡ ok e
      → Made e
  by_framework :
      {e : Error} (c : ErrorCategory) (code message : Bytes)
      → new_framework c code message ≡ some e
      → Made e
  by_peer : (parts : RemoteErrorParts) → Made (from_remote_parts parts)
  attempts_set : (n : ℕ) {e : Error} → Made e → Made (with_attempts n e)
  request_set : (id : Bytes) {e : Error} → Made e → Made (with_request_id id e)
  remote_set : {e : Error} → Made e → Made (with_remote_origin e)
  local_set : {e : Error} → Made e → Made (with_local_origin e)
  hint_set : (hint : RetryHint) {e : Error} → Made e → Made (with_retry_hint hint e)

-- What holds of every error.
abbrev pub HasNoHint : Error → Type 0
HasNoHint e = e.kind ≡ ErrorKind.application → e.retry_hint ≡ never

parts_never :
    (c : ErrorCategory) (s : ℕ) (code message : Bytes) (e : Error)
    → application_parts c s code message ≡ ok e
    → e.retry_hint ≡ never
unfolding application_parts
parts_never c s code message e h = elim (Result-cases (error_code code)) [
  | inl (v, n) ↦ ground (arith, rw (n, application_parts) at h)
  | inr (x, n) ↦ absurd (cc (rw (n, application_parts) at h))
]

application_never :
    (c : ErrorCategory) (code message : Bytes) (e : Error)
    → new_application c code message ≡ ok e
    → e.retry_hint ≡ never
unfolding new_application
application_never c code message e h = elim (Option-cases (canonical_status c)) [
  | inl n ↦ absurd (cc (rw (n, new_application) at h))
  | inr (s, n) ↦ parts_never c s code message e (rw (n, new_application) at h)
]

local_never :
    (c : ErrorCategory) (code message : Bytes) (e : Error)
    → new_local c code message ≡ ok e
    → e.retry_hint ≡ never
unfolding new_local
local_never c code message e h = elim (Option-cases (canonical_status c)) [
  | inl n ↦ absurd (cc (rw (n, new_local) at h))
  | inr (s, n) ↦ elim (Result-cases (error_code code)) [
    | inl (v, m) ↦ ground (arith, rw (n, m, new_local) at h)
    | inr (x, m) ↦ absurd (cc (rw (n, m, new_local) at h))
  ]
]

framework_never :
    (c : ErrorCategory) (code message : Bytes) (e : Error)
    → new_framework c code message ≡ some e
    → e.retry_hint ≡ never
unfolding new_framework
framework_never c code message e h = elim (Option-cases (canonical_status c)) [
  | inl n ↦ absurd (cc (rw (n, new_framework) at h))
  | inr (s, n) ↦ ground (arith, rw (n, new_framework) at h)
]

status_never :
    (s : ℕ) (code message : Bytes) (e : Error)
    → application_status s code message ≡ ok e
    → e.retry_hint ≡ never
unfolding application_status
status_never s code message e h =
    elim (Bool-cases (not (is_client_error s) && not (is_server_error s))) [
      | inl y ↦ absurd (cc (rw (y, application_status) at h))
      | inr y ↦ parts_never _ s code message e (rw (y, application_status) at h)
    ]

hint_or-HasNoHint :
    (k : ErrorKind) (hint old : RetryHint)
    → (k ≡ ErrorKind.application → old ≡ never)
    → k ≡ ErrorKind.application
    → hint_or k hint old ≡ never
hint_or-HasNoHint ErrorKind.application hint old h k = h k
hint_or-HasNoHint ErrorKind.framework hint old h k = absurd (cc)

hint_for-HasNoHint :
    (k : ErrorKind) (hint : RetryHint) → k ≡ ErrorKind.application → hint_for k hint ≡ never
hint_for-HasNoHint ErrorKind.application hint k = refl
hint_for-HasNoHint ErrorKind.framework hint k = absurd (cc)

-- An application error carries no retry hint, however it was made and whatever was set on it since.
pub Made-HasNoHint : {e : Error} → Made e → HasNoHint e
unfolding from_remote_parts with_attempts with_request_id with_remote_origin with_local_origin
    with_retry_hint
Made-HasNoHint (by_application c code message h) k = application_never c code message _ h
Made-HasNoHint (by_status s code message h) k = status_never s code message _ h
Made-HasNoHint (by_local c code message h) k = local_never c code message _ h
Made-HasNoHint (by_framework c code message h) k = framework_never c code message _ h
Made-HasNoHint (by_peer parts) k = hint_for-HasNoHint parts.kind parts.retry_hint k
Made-HasNoHint (attempts_set n m) k = Made-HasNoHint m k
Made-HasNoHint (request_set id m) k = Made-HasNoHint m k
Made-HasNoHint (remote_set m) k = Made-HasNoHint m k
Made-HasNoHint (local_set m) k = Made-HasNoHint m k
Made-HasNoHint (hint_set hint {e} m) k =
    hint_or-HasNoHint e.kind hint e.retry_hint (Made-HasNoHint m) k
