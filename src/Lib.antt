-- ===== src/Lib.antt =====
-- A model of the parts of this repository, a framework for remote calls over HTTP, that decide by
-- themselves: when a call may be attempted, when it is attempted again, how much work and memory a
-- process takes on, and which route a request belongs to. The code around them moves bytes.
--
-- A client picks an endpoint that is offered, compatible and admitted by its circuit breaker, attempts the
-- call there and reports to the breaker how it ended; the retry guard then decides on another attempt. The
-- breaker of the service sees the call as a whole. A server checks the routes of its services when they
-- are described, puts them into one trie for each HTTP method, admits requests at the admission
-- gate and charges their bodies to the byte budget.
--
-- Files and code:
--   Resilience/Failure       FailureClass and its tables (fusen/src/resilience/breaker.rs)
--   Resilience/Window        RollingWindow: new, advance, record_success, record_failure, counts
--   Resilience/Breaker       CircuitBreaker: try_acquire, complete and its two halves; the permits
--                            that are out are in Breaker/Permits
--   Resilience/Store         EndpointBreakerStore
--   Resilience/Retry         RetryBudget, decide_with_guards, full_jitter_backoff, the attempt limits
--                            (fusen/src/resilience/retry.rs)
--   Runtime/Admission        AdmissionGate and AdmissionGuard (fusen/src/runtime/admission.rs)
--   Runtime/Budget           ByteBudget and BytePermit (fusen/src/runtime/budget.rs); BudgetedWriter is
--                            in Budget/Writer
--   Contract/Identity        identifiers and ServiceSelector (fusen-contract/src/service.rs)
--   Contract/Route           validate_http_route, decode_route_literal
--   Contract/Operation       validate_http_operation
--   Contract/Methods         validate_methods, http_route_shape, ServiceDescriptor::method
--   Contract/Http            bindings, version sets, capabilities (fusen-contract/src/http.rs)
--   Errors                   Error, its kinds and constructors (fusen/src/error/invocation.rs)
--   Errors/Classify          classify_error (fusen/src/resilience/classify.rs)
--   Client/Instances         select_http_version, same_instance, validate_router_output
--                            (fusen/src/client/invocation.rs, as the files of Client below)
--   Client/Select            select_endpoint; Select/Circuits puts the circuit breakers, with the permits
--                            that are out, behind its interface, and Select/Tracked keeps their account
--                            beside the state
--   Client/Response          Response (fusen/src/context.rs)
--   Client/Attempts          AttemptTerminal and the interceptors of an attempt
--   Client/Execute           the decision on a failed attempt; Execute/Loop is execute_attempts
--   Client/Invoke            the permits of an invocation; Invoke/Calls is execute, invoke and
--                            finish_result_failure
--   Client/Members           DiscoveryMemberships and EndpointBreakers
--                            (fusen/src/client/endpoint_breakers.rs)
--   Client/Config            the validation of retries and circuit breakers (fusen/src/client/config.rs)
--   Client/Forward           update_snapshot, mark_disconnected, expire_stale, set_provider_failure,
--                            set_retrying_state (fusen/src/client/subscription.rs)
--   Server/Routes            HttpRouteTrie: insert, match_segments (fusen/src/server/routes.rs)
--   Server/Table             RouteTable: build, match_http, parse_template, split_path
--   Register/Directory       the publisher of a service directory (fusen-register/src/directory.rs)
--   Prelude                  shared names, Boolean tests, lists, results, texts as lists of bytes
--   Tests                    concrete runs
--
-- How the model stands to the code. Instants and durations are numbers of nanoseconds; instants have no
-- upper end, a `Duration` has the bound of the standard library. Subtraction of instants saturates, as
-- in the code. 32-bit counters saturate, the 64-bit epoch wraps, a `usize` has 64 bits. The sums of the
-- window are not cut to 64 bits. A floating-point number is a value of an abstract
-- type with the three operations used. A method that runs under a mutex is one step. For the admission
-- gate and the byte budget, an action is one atomic access, and accesses are taken to be sequentially
-- consistent; any order of the actions of any number of callers is a history. The state of a
-- concurrent object counts the callers at each point of the code. A permit of the byte budget is grown by
-- one caller at a time. Two loops have fuel: that of
-- `try_acquire`, with two rounds, since from the second on the breaker is not open, and that of
-- `execute_attempts`, with three, since the guard of a retry stops at the hard limit of attempts.
--
-- An invocation of a client runs against values that stand for everything outside it: what each attempt
-- meets, what the interceptors, routers, load balancers and retry policies of a user answer or that they
-- panic, and what other tasks do to the breakers and the budget in between. An interceptor of an attempt may
-- answer itself, enter the rest of the chain once, or drop it at an await; one of the call may answer itself
-- or let the rest of the chain run to its end, and that it drops the chain at an await is not modelled,
-- which would drop the attempts at that point. An invocation that is dropped
-- while it runs, by its caller, its deadline or the cancellation of the client, is not modelled, and neither
-- is a response that an interceptor keeps after the call. Attempt metrics are left out.
--
-- Not under the repository, and arguments here: the decoding of UTF-8 and the classes of characters,
-- percent decoding of a path, random numbers, the retry policy of a user. A hash map is a list of
-- entries with distinct keys; that of the path arguments is a list with an entry for each parameter of the
-- template, whose names a valid template does not repeat.
--
-- Not modelled: sockets, tasks and timers, JSON, tracing, the client and server pipelines around these
-- components, media types and URLs, configuration sources, the registry adapters and the macros.
pub mod Prelude
pub mod Resilience
pub mod Errors
pub mod Runtime
pub mod Contract
pub mod Server
pub mod Client
pub mod Register
pub mod Tests
