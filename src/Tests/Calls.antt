-- ===== src/Tests/Calls.antt =====
-- An invocation of fusen/src/client/invocation.rs whose first attempt does not connect, with the circuit
-- breakers of fusen/src/resilience/breaker.rs.
use fusen_rs.Client.Attempts.{Exchange, around, Sent, Decoded, deadline_error, intercepted}
use fusen_rs.Client.Execute.{Settings, Round, World, AttemptSuccess}
use fusen_rs.Client.Execute.Bounds.{attempt_limit, execute_attempts_ends}
use fusen_rs.Client.Execute.Loop.{execute_attempts, attempt_round, attempt_on}
use fusen_rs.Client.Execute.Retried.{Retried, attempt_round-Retried}
use fusen_rs.Client.Invoke.{value, Permits}
use fusen_rs.Client.Invoke.Calls.{Outside, invoke}
use fusen_rs.Client.Invoke.Ends.{invoke_settles}
use fusen_rs.Client.Response.{Response, new_response}
use fusen_rs.Client.Select.{
  Client, direct, returned, direct_capabilities, candidates, select_endpoint, SelectedEndpoint,
  Breakers,
}
use fusen_rs.Client.Select.Chosen.{Eligible, select_endpoint-Eligible}
use fusen_rs.Client.Select.Circuits.{Circuits, BreakerPermit, circuits, acquire_permit}
use fusen_rs.Client.Select.Outstanding.{out_count}
use fusen_rs.Client.Select.Tracked.{Tracked, tracked, IsSound}
use fusen_rs.Resilience.Breaker.Permits.{step}
use fusen_rs.Contract.Http.{http_11, ServiceEndpoint, HttpVersionPolicy}
use fusen_rs.Errors.{Error}
use fusen_rs.Errors.Classify.{ClassifiedError}
use fusen_rs.Resilience.Breaker.{PermitPhase}
use fusen_rs.Resilience.Retry.{retry, new_budget}
use fusen_rs.Tests.Breakers.{thousandths, config, closed_breaker}
use fusen_rs.Prelude.{
  ℕ, ◌≤◌, ◌≡◌, refl, inr, arith, Bool, true, false, Option, none, some, [], ◌==◌, ==_iff,
  if◌then◌else◌, Result, ok, err,
}
use fusen_rs.Prelude.Bytes.{bytes_of, str_eq}

abbrev same : ℕ → ℕ → Bool
same a b = a == b

abbrev breakers : Breakers Circuits BreakerPermit
breakers = circuits thousandths config

abbrev start : Circuits
start = record {
  calls = 3;
  now = 100;
  breaker = λ url. record { inner = closed_breaker; permits = [] };
}

abbrev users : ServiceEndpoint
users = record { url = bytes_of "http://users"; https = false }

abbrev client : Client ℕ
client = record {
  binding_id = bytes_of "json";
  http_version_policy = HttpVersionPolicy.auto;
  source = direct users none;
  routers = [];
  load_balancer = λ is. returned 0;
  default_weight = 1;
}

abbrev settings : Settings
settings = record { max_attempts = 3; backoff_base = 10; backoff_cap = 100; allows_retries = true }

abbrev pass : Option (Result (Response ℕ) Error) → Result (Response ℕ) Error
pass none = err deadline_error
pass (some result) = result

abbrev exchange : ℕ → Exchange (Response ℕ)
exchange n = record {
  bulkhead_free = true;
  template_error = none;
  request_error = none;
  sent = if n == 1 then Sent.unconnected deadline_error else Sent.answered http_11;
  answer = Decoded.decoded (new_response 7);
}

abbrev rounds : {S : Type 0} → ℕ → Round ℕ S ℕ
rounds n = record {
  client = client;
  before = λ s. s;
  meanwhile = λ s. s;
  budget = λ b. b;
  exchange = exchange n;
  interception = around pass;
  sample = λ top. top;
  remaining = 1000;
  policy = λ context. some retry;
  now = 5;
  force_cancelled = false;
}

abbrev world : World Circuits
world = record { breakers = start; budget = new_budget 2 1 0; attempts_started = 0 }

execute_attempts_ends_example :
    (out : World Circuits × Result (AttemptSuccess ℕ BreakerPermit) ClassifiedError)
    × (execute_attempts breakers settings same rounds world ≡ some out)
    × (out.0.attempts_started ≤ attempt_limit settings)
execute_attempts_ends_example = execute_attempts_ends breakers settings same rounds world refl

abbrev fresh : Tracked thousandths config
fresh = record {
  state = start;
  sound = inr (record {
    few = omega arith;
    accounted = λ url. record { none_later = tt; counted = refl; bounded = omega arith };
    epochs = λ url. omega arith;
  });
}

abbrev outside : Outside ℕ (Tracked thousandths config) (Tracked thousandths config) ℕ ℕ
outside = record {
  request_id = bytes_of "1";
  method_missing = none;
  running = true;
  admission_error = none;
  encoded = returned [];
  transport_open = true;
  interception = around pass;
  service_key = bytes_of "users";
  before = λ s. s;
  meanwhile = λ s. s;
  rounds = rounds;
  decode = λ body. value body;
}

abbrev tracked_world : World (Tracked thousandths config)
tracked_world = record { breakers = fresh; budget = new_budget 2 1 0; attempts_started = 0 }

invoke_settles_example :
    (out : Permits
        (Tracked thousandths config)
        (Tracked thousandths config)
        BreakerPermit
        BreakerPermit
      × Result (Response ℕ) Error)
    × (invoke
          (tracked thousandths config)
          (tracked thousandths config)
          settings
          same
          outside
          tracked_world
          fresh
        ≡ some out)
    × ((x : BreakerPermit)
        → (out_count x out.0.world.breakers.state ≡ out_count x start)
          × (out_count x out.0.services.state ≡ out_count x start))
    × IsSound thousandths config out.0.world.breakers.state
    × IsSound thousandths config out.0.services.state
invoke_settles_example =
    invoke_settles thousandths config config settings same outside tracked_world fresh (λ x.
      record {
        rounds = λ n. record { kept_before = λ s. refl; kept_meanwhile = λ s. refl };
        before = λ s. refl;
        meanwhile = λ s. refl;
      })

abbrev chosen : SelectedEndpoint ℕ BreakerPermit
chosen = record {
  instance_ = record {
    instance_id = bytes_of "direct";
    endpoint = users;
    capabilities = direct_capabilities (bytes_of "json") users none;
    weight = 1;
    metadata = [];
  };
  breaker_permit = record {
    endpoint = bytes_of "http://users";
    token = record { epoch = 3; phase = PermitPhase.closed };
  };
  http_version = http_11;
  auto_negotiate = false;
  invocation_controls = false;
}

was_chosen : (select_endpoint same breakers client [] start).result ≡ ok chosen
unfolding select_endpoint candidates str_eq acquire_permit
was_chosen = refl

select_endpoint-Eligible_example : Eligible breakers client [] chosen
select_endpoint-Eligible_example =
    select_endpoint-Eligible breakers client [] same ==_iff start chosen was_chosen

goes_on : (attempt_round breakers settings same (rounds 1) 1 [] world).outcome ≡ none
unfolding attempt_round attempt_on str_eq acquire_permit new_budget step
goes_on = refl

attempt_round-Retried_example :
    (endpoint : SelectedEndpoint ℕ BreakerPermit) × ((select_endpoint same breakers client []
        start).result
      ≡ ok endpoint)
    × Retried {S = Circuits} settings
        (rounds 1)
        1
        world.budget
        (intercepted (around pass) 1 0 (exchange 1))
attempt_round-Retried_example =
    attempt_round-Retried breakers settings same (rounds 1) 1 [] world goes_on
