-- ===== src/Client/Response.antt =====
-- `Response` of fusen/src/context.rs, without its headers and extensions. The permit of the service
-- breaker stands in a cell that the clones of a response share; here a response says whether it holds it.
use fusen_rs.Client.Select.{framework_error}
use fusen_rs.Errors.{Error, invalid_argument}
use fusen_rs.Prelude.{ℕ, Bool, true, false, ◌&&◌, leb, if◌then◌else◌, Result, ok, err}
use fusen_rs.Prelude.Bytes.{bytes_of}

pub record Response (B : Type 0) : Type 0 where
  pub body : B
  pub status : ℕ
  pub attempts : ℕ
  pub wire_origin : Bool
  pub tracks_endpoint_breaker : Bool
  pub holds_service_breaker : Bool

-- `Response::new`.
unfoldable pub new_response : {B : Type 0} → B → Response B
new_response body = record {
  body = body;
  status = 200;
  attempts = 0;
  wire_origin = false;
  tracks_endpoint_breaker = false;
  holds_service_breaker = false;
}

-- `Response::body_mut`, with what is written.
unfoldable pub body_mut : {B : Type 0} → B → Response B → Response B
body_mut body response = record response { body = body; wire_origin = false }

-- `Response::map`.
unfoldable pub map_body : {B C : Type 0} → (B → C) → Response B → Response C
map_body f response = record {
  body = f response.body;
  status = response.status;
  attempts = response.attempts;
  wire_origin = false;
  tracks_endpoint_breaker = response.tracks_endpoint_breaker;
  holds_service_breaker = response.holds_service_breaker;
}

unfoldable pub set_status : {B : Type 0} → ℕ → Response B → Result (Response B) Error
set_status status response =
    if leb 200 status && leb status 299
    then ok (record response { status = status })
    else err (
        framework_error invalid_argument 400 (bytes_of "invalid_response_status")
          (bytes_of "service invocation success response status must be 2xx"))

unfoldable pub set_attempts : {B : Type 0} → ℕ → Response B → Response B
set_attempts attempts response = record response { attempts = attempts }

unfoldable pub mark_wire_origin : {B : Type 0} → Response B → Response B
mark_wire_origin response = record response { wire_origin = true }

unfoldable pub track_endpoint_breaker : {B : Type 0} → Response B → Response B
track_endpoint_breaker response = record response { tracks_endpoint_breaker = true }

unfoldable pub hold_service_breaker : {B : Type 0} → Response B → Response B
hold_service_breaker response = record response { holds_service_breaker = true }
