-- ===== src/Examples/Backpressure.antt =====
-- circuitBreakerWorker of examples/backpressure/main.go: a worker that listens to the breaker's health
-- channel, and the calls that it starts. Each is one Execute of the breaker, which may overlap with
-- others; ctx is not done.
use resile.Circuit.State.{
  State, HealthState, healthy, degraded, unhealthy, StateEvent, Breaker, Config, count_based,
  second, new,
}
use resile.Circuit.Breaker.{refused, admitted, begin, finish, health}
use resile.Circuit.System.{System}
use resile.Errors.{Err}
use resile.Float.{Float}
use resile.Prelude.{
  ℕ, suc, ◌+◌, ◌*◌, ◌≡◌, pos, Bool, true, false, Option, none, some, List, [], ◌∷◌, ◌++◌,
  if◌then◌else◌,
}

-- The breaker with the calls that run, the flag `paused`, and the number of goroutines that were
-- started and have not called Execute yet.
pub record Worker (F : Type 0) : Type 0 where
  pub calls : System F
  pub paused : Bool
  pub spawned : ℕ

module _ {F : Type 0} ⦃f : Float F⦄ where
  -- The configuration of demonstrateCircuitBreakerBackpressure.
  abbrev pub worker_config : Config F
  worker_config = record {
    window_type = count_based;
    window_size = 5;
    window_duration = pos 0;
    failure_rate_threshold = f.of_int (pos 50);
    minimum_calls = 3;
    reset_timeout = pos (2 * second);
    half_open_max_calls = 2;
  }

  abbrev pub new_worker : Worker F
  new_worker = record {
    calls = record { breaker = (health (new worker_config)).1; running = [] };
    paused = false;
    spawned = 0;
  }

abbrev pub pauses : HealthState → Bool
pauses unhealthy = true
pauses degraded = false
pauses healthy = false

module _ {F : Type 0} where
  abbrev pub take_event : Worker F → Option (List StateEvent) → Worker F
  take_event w none = w
  take_event w (some []) = w
  take_event w (some (e ∷ es)) = record w {
    calls = record (w.calls) { breaker = record (w.calls.breaker) { health_ch = some es } };
    paused = pauses e.state;
  }

  abbrev pub go_on : Worker F → Worker F
  go_on w = if w.paused then w else record w { spawned = w.spawned + 1 }

  -- One iteration of the loop.
  unfoldable pub iterate : Worker F → Worker F
  iterate w = go_on (take_event w w.calls.breaker.health_ch)

module _ {F : Type 0} ⦃f : Float F⦄ where
  -- An iteration, or a critical section of a call that was started.
  pub data Turn (now : ℕ) (w : Worker F) : Worker F → Type 0 where
    iteration : Turn now w (iterate w)
    call_admitted :
        {n : ℕ} {s : State} {b : Breaker F}
        → w.spawned ≡ suc n
        → begin none now w.calls.breaker ≡ (admitted s, b)
        → Turn now w (record w {
          calls = record { breaker = b; running = s ∷ w.calls.running };
          spawned = n;
        })
    call_refused :
        {n : ℕ} {e : Err} {b : Breaker F}
        → w.spawned ≡ suc n
        → begin none now w.calls.breaker ≡ (refused e, b)
        → Turn now w (record w { calls = record (w.calls) { breaker = b }; spawned = n })
    call_over :
        (before after : List State) (s : State) (err : Option Err)
        → w.calls.running ≡ before ++ s ∷ after
        → Turn now w (record w {
          calls = record { breaker = finish s err now w.calls.breaker; running = before ++ after };
        })

  pub data Turns (w : Worker F) : Worker F → Type 0 where
    start : Turns w w
    then_ : {v u : Worker F} {now : ℕ} → Turns w v → Turn now v u → Turns w u
