-- ===== src/Tests/ExampleRuns.antt =====
-- Runs of the programs of examples/.
use resile.Circuit.State.{closed, Breaker, new, with_defaults}
use resile.Circuit.Window.{record_outcome, record_count_based, get_stats, clear_window}
use resile.Circuit.Breaker.{
  health, finish, on_failure, check_failure_rate, transition_to_open, emit_state_event,
  failure_rate,
}
use resile.Examples.Backpressure.{Worker, worker_config, iterate, iteration, start, then_}
use resile.Examples.Stalled.{IsStalled, Turns-IsStalled}
use resile.Errors.{Err, sentinel, user}
use resile.Float.{milli_float, Milli}
use resile.Pipeline.Config.{default_config}
use resile.Pipeline.World.{World}
use resile.Retry.Loop.{returned}
use resile.Examples.Resume.Server.{file_size}
use resile.Examples.Resume.Client.{Client, clean, Environment, run}
use resile.Examples.Resume.Downloaded.{IsHttp}
use resile.Examples.Resume.Verified.{Delivered, run-Delivered}
use resile.Examples.Connection.{connect, disconnect, connected, machine, send_all}
use resile.Examples.Events.{send_all-final}
use resile.StateMachine.Handle.{Update}
use resile.Examples.Connection.{State, Data, zero_update}
use resile.Prelude.{
  ℕ, ◌/◌, ◌≤◌, ◌≡◌, refl, Bool, true, false, Option, none, some, [], ◌∷◌, ltb, length, arith,
}

abbrev world : {V U : Type 0} → U → World Milli V U
world u = record {
  config = default_config;
  clock = 1000;
  draws = 7 ∷ [];
  floats = [];
  events = [];
  takes_slot = true;
  user = u;
}

abbrev lost : Err
lost = sentinel (user 7)

-- Of a response that breaks off, half arrives.
abbrev arrived : ℕ → Bool → ℕ × Option Err
arrived n true = (n / 2, some lost)
arrived n false = (n, none)

-- The first three connections may drop.
abbrev flaky_network : Environment
flaky_network = record {
  request_error = λ i. none;
  do_error = λ i. none;
  luck =
      λ i. record { drops = ltb i 3; random = 12345; is_hijacker = true; write_fails = λ k. false };
  open_error = λ i. none;
  copied = λ i r. arrived (length r.body) r.broken;
  time = λ i. 1000;
}

arrived-bounded : (n : ℕ) (b : Bool) → (arrived n b).0 ≤ n
arrived-bounded n true = omega arith
arrived-bounded n false = omega arith

arrived-whole : (n : ℕ) (b : Bool) → (arrived n b).1 ≡ none → (b ≡ false) × ((arrived n b).0 ≡ n)
arrived-whole n true e = absurd cc
arrived-whole n false e = (refl, refl)

flaky_network-IsHttp : IsHttp flaky_network
flaky_network-IsHttp = record {
  hijacks = λ i. refl;
  bounded = λ i r. arrived-bounded (length r.body) r.broken;
  whole = λ i r e. arrived-whole (length r.body) r.broken e;
}

abbrev at_first : World Milli ℕ Client
at_first = world clean

run-Delivered_example : Delivered file_size (run flaky_network file_size at_first)
run-Delivered_example =
    run-Delivered flaky_network file_size at_first flaky_network-IsHttp (omega arith)

abbrev at_rest : World Milli (Update State Data) (Update State Data × ℕ)
at_rest = world (zero_update, 5)

send_all-final_example :
    let (rs, sm, v) = send_all (connect ∷ disconnect ∷ connect ∷ []) machine at_rest in
    (rs ≡ returned none ∷ returned none ∷ returned none ∷ [])
    × (sm.state ≡ connected)
    × (sm.data_ ≡ record { endpoint = "api.example.com" })
send_all-final_example = send_all-final (connect ∷ disconnect ∷ connect ∷ []) at_rest

-- The worker's breaker after three failed calls, and the worker after it has read the event.
abbrev failed_call : Breaker Milli → Breaker Milli
failed_call b = finish closed (some lost) 3 b

abbrev told : Worker Milli
told = record {
  calls = record {
    breaker = record (failed_call (failed_call (failed_call (health (new worker_config)).1))) {
      health_ch = some [];
    };
    running = [];
  };
  paused = true;
  spawned = 0;
}

-- Four seconds later.
Turns-IsStalled_example : IsStalled (iterate told)
unfolding finish on_failure check_failure_rate record_outcome record_count_based get_stats
    transition_to_open emit_state_event clear_window new with_defaults failure_rate health
Turns-IsStalled_example =
    Turns-IsStalled told (iterate told) (then_ {now = 4000000000} start iteration)
      (record { paused = refl; shut = refl; read = refl; late = tt; quiet = refl })
