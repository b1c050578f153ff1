-- ===== src/Lib.antt =====
-- Verification of resile, a library of resilience patterns for Go: retries, circuit breakers,
-- bulkheads, limiters, hedging and fallbacks, each a middleware round an action.
--
-- The parts of the program and the files that model them (paths from the repository's root):
--   * circuit/breaker.go, circuit/statevent.go: Circuit. State has the types and `New`, Window the
--     two sliding windows (recordCountBased, recordTimeBased, advanceTimeBasedWindow, clearWindow,
--     getStatsLocked), Breaker the state machine. A method that holds the lock is a function of the
--     instant at which it runs; Execute is two of them, `begin` and `finish`, round the action, which
--     runs without the lock. System has the calls of many goroutines as a step relation: the critical
--     sections of different calls in any order, panics (no second section), State and Reset.
--     Ring, Sliding (count-based window), Buckets, Counts, Expiry (time-based window), Frame,
--     Machine, Tripping, Probes, Refusal, Timeout, Signals (the health channel) and Recovery hold
--     proofs. The channel of health events, here and of the adaptive limiter, is Channel.
--   * policy.go (errors, retryPolicy), adaptive_retry.go, backoff.go and retryMiddleware of
--     retry.go: Errors and Retry. Loop is the retry loop over a record of what it calls (the rest of
--     the pipeline, the policy, the bucket, the backoff, sleep), so that the proofs hold for all of
--     them; Trace says what calls a run may make, Pauses what it may do between them; History, Timing,
--     Recovery, Budget, Success and Jitter (the delays of backoff.go) hold the proofs.
--   * bulkhead.go, ratelimit.go, adaptive_concurrency.go, statevent.go (Health): Limits. Bulkhead and
--     Adaptive take a slot with `enter` and give it back with `leave`; Occupancy has goroutines under
--     a bulkhead as a step relation, Shares those of each priority under a PriorityBulkhead and Crowd
--     those under an adaptive limiter; Inside, Tokens, Burst and Floor hold proofs.
--   * priority.go, and sleep and WithTestingBypass of retry.go: Context, with Go's contexts.
--   * retry.go (Config, the middlewares, execute, Do and its kin), options.go, policy.go (Policy) and
--     chaos/injector.go: Pipeline. Config is the configuration with its components, World the state
--     of an execution, Middleware, Guarded and Attempt the middlewares, Compose getComposedPipeline
--     and execute, Options the options, Entry the entry points. Frame, Framed and Chain hold
--     the lemmas on each middleware that the other proofs share; Choices has the options as data
--     and Nested what they put round an action; Budget, Calls, Ending, Success, Invariants, Flaky,
--     Recovery, Policies and Order hold proofs.
--   * statemachine.go: StateMachine. Handle has NewStateMachine and Handle, Atomic the proofs.
--   * propagation.go: Propagation. Format has both functions, Reading what a server makes of the
--     header; RoundTrip and Inject hold proofs.
--   * executeHedged of retry.go and the hedged entry points: Hedging. Loop is its main loop as a
--     machine that the events of its select drive, Attempt what each goroutine runs, Race the two
--     together, with the channel between them and the entry points round them; Cases, Bounds, Ends,
--     Success, Stored, Value and Answer hold proofs.
--   * telemetry/resileotel/otel.go and telemetry/resileslog/slog.go: Telemetry, with OpenTelemetry
--     and slog as parameters; Counts and Logs hold proofs.
--   * examples/http_resume_stream/main.go: Examples.Resume. Range is the header that asks for the rest
--     of a file, Server the handler with its drops, Client the download under DoErr and what main
--     prints; Parsed, Served, Downloaded and Verified hold proofs. net/http, io.Copy and the disk are
--     parameters (Environment).
--   * examples/statemachine/main.go: Examples.Connection; Connected and Events hold proofs.
--   * circuitBreakerWorker of examples/backpressure/main.go: Examples.Backpressure, a step relation of
--     the worker's iterations and its calls' critical sections; Stalled holds the proofs.
--   * Prelude has shared helpers, Float the interface of float64, Tests concrete runs.
-- The pipeline's middlewares call the components' operations on the configuration in the world; the
-- retry middleware instantiates Retry.Loop; the breaker and the limiters know nothing of the rest.
--
-- How the model reads the code:
--   * Time is a natural number of nanoseconds since an origin later than Go's zero time; a critical
--     section is at one instant, passed as an argument; durations are integers. The one ready-or-not
--     choice of a select between a free slot and a done context is an argument too.
--   * uint32, uint64 and int32 arithmetic wraps; float64 is a type F with the operations that the
--     code uses (Float) and, where a proof needs them, laws of IEEE 754: on finite numbers
--     (FloatLaws; of int32(float64) only where the result has room), on counts (CountLaws), on
--     parts of a capacity (ShareLaws), on integers times powers of two (Scales) and on quotients of
--     durations (Truncates). The fixed-point numbers Milli have all of them.
--   * nil is `none`; errors are trees with errors.Is, errors.As and errors.Join on them; a function
--     returns or panics (Outcome). An action may change the world at will, so that what other
--     goroutines do while it runs is part of what it does.
--   * The wall clock and the monotonic clock are one. Where a timer and the end of a context come at
--     one instant, the timer's case of the select is taken.
--   * The error of RetryIf is a sentinel; the function of RetryIfFunc and the fallbacks are pure, and
--     neither panic nor change the world.
--   * No two components of a configuration are the same object. Map reads are association lists.
--   * Loops are structural recursion. clear_range has fuel 10, the number of buckets, which is
--     enough since it visits no bucket twice; the retry loop has MaxAttempts rounds, which is its
--     own bound; the loop of executeHedged consumes a list of events; the handler's loop that writes
--     a file has as many rounds as there are bytes left, and each writes one at least.
-- Not modelled: what attempts of a hedged execution do after it has returned; the stack trace of a
-- PanicError; the other examples and limiterWorker of examples/backpressure/main.go, which configure
-- the library, call it and print; tests.
pub mod Prelude
pub mod Float
pub mod Errors
pub mod Context
pub mod Channel
pub mod Circuit
pub mod Retry
pub mod Limits
pub mod Pipeline
pub mod StateMachine
pub mod Propagation
pub mod Telemetry
pub mod Hedging
pub mod Examples
pub mod Tests
