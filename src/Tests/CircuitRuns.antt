-- ===== src/Tests/CircuitRuns.antt =====
-- Runs of the breaker of circuit/breaker.go.
use resile.Circuit.State.{
  closed, open_, half_open, count_based, time_based, empty_bucket, Config, Breaker, new,
  with_defaults,
}
use resile.Circuit.Window.{
  get_stats, record_outcome, record_count_based, clear_window, advance_from, bucket_idx,
}
use resile.Circuit.Breaker.{
  health, refused, admit, wake, transition_to_half_open, transition_to_open, emit_state_event,
  on_failure, check_failure_rate, begin, finish, failure_rate, reset_elapsed,
}
use resile.Circuit.Sliding.{record_all, get_stats-record_all}
use resile.Circuit.Expiry.{record_calls, get_stats-Steady, advance_from_lem}
use resile.Circuit.Tripping.{verdict, finish_closed-state}
use resile.Circuit.Machine.{begin-refused}
use resile.Circuit.System.{System, Steps, done, more, enter, turn_away, leave}
use resile.Circuit.Signals.{Tells, channel-Tells}
use resile.Circuit.Probes.{probes, probes-le}
use resile.Circuit.Timeout.{open_until_timeout, half_open_for_ever}
use resile.Circuit.Recovery.{
  good_probes, calls_succeed, calls_succeed-closed, open_closed_by_late_probes,
}
use resile.Errors.{user, circuit_open, Err, sentinel}
use resile.Float.{milli_float, Milli, to_milli}
use resile.Prelude.{
  ◌≤◌, ◌≡◌, ◌⊎◌, ◌↔◌, refl, arith, pos, true, false, none, some, [], ◌∷◌, replicate, get_or,
}

abbrev oops : Err
oops = sentinel (user 1)

-- A window of three outcomes, two calls at least, 60 percent, two probes, 100 ns to the reset.
abbrev settings : Config Milli
settings = record {
  window_type = count_based;
  window_size = 3;
  window_duration = pos 1000;
  failure_rate_threshold = to_milli 60000;
  minimum_calls = 2;
  reset_timeout = pos 100;
  half_open_max_calls = 2;
}

abbrev fresh : Breaker Milli
fresh = record {
  config = settings;
  state = closed;
  opened_at = 0;
  ring = false ∷ false ∷ false ∷ [];
  ring_idx = 0;
  ring_full = false;
  total = 0;
  failures = 0;
  buckets = [];
  bucket_duration = 0;
  last_update_time = none;
  half_open_calls = 0;
  half_open_failures = 0;
  half_open_completed = 0;
  health_ch = none;
}

abbrev opened : Breaker Milli
opened = record fresh { state = open_; opened_at = 50 }

-- Both probes are under way.
abbrev probing : Breaker Milli
probing = record fresh { state = half_open; half_open_calls = 2 }

abbrev timed : Breaker Milli
timed = record fresh {
  config = record settings { window_type = time_based; window_size = 0 };
  ring = [];
  buckets = replicate 10 empty_bucket;
  bucket_duration = 100;
  last_update_time = some 1000;
}

get_stats-record_all_example :
    ((get_stats 9 (record_all 5 (true ∷ false ∷ false ∷ true ∷ []) (clear_window fresh))).0 ≡ 3)
    × ((get_stats 9 (record_all 5 (true ∷ false ∷ false ∷ true ∷ []) (clear_window fresh))).1 ≡ 2)
get_stats-record_all_example =
    get_stats-record_all fresh (true ∷ false ∷ false ∷ true ∷ []) 5 9 refl (omega arith)
      (omega arith)

get_stats-Steady_example :
    ((get_stats 1150 (record_calls ((1000, true) ∷ (1099, false) ∷ []) timed)).0 ≡ 2)
    × ((get_stats 1150 (record_calls ((1000, true) ∷ (1099, false) ∷ []) timed)).1 ≡ 1)
get_stats-Steady_example =
    get_stats-Steady ((1000, true) ∷ (1099, false) ∷ []) timed 1000 1150
      (record { by_time = refl; updated = refl; ten = refl; within = omega arith })
      (omega arith, omega arith, (omega arith, omega arith, tt)) (omega arith) (omega arith)
      (omega arith)

abbrev used : Breaker Milli
used = record timed { buckets = replicate 10 (record { success = 3; failure = 1 }) }

advance_from_example : get_or (advance_from 1000 1250 used).buckets 1 empty_bucket ≡ empty_bucket
unfolding bucket_idx
advance_from_example =
    advance_from_lem used 1000 1250 (omega arith) refl (omega arith) 1 (omega arith)

begin-refused_example :
    ((begin none 120 opened).0 ≡ refused (sentinel circuit_open))
    ↔ (((open_ ≡ open_) × (reset_elapsed 120 opened ≡ false)) ⊎ ((open_ ≡ half_open) × (2 ≤ 0)))
begin-refused_example = begin-refused 120 opened (omega arith)

-- Two calls fail, which opens the breaker; 198 ns later two probes are admitted, and a third call
-- is turned away.
abbrev failed_once : Breaker Milli
failed_once = finish closed (some oops) 2 (new settings)

abbrev failed_twice : Breaker Milli
failed_twice = finish closed (some oops) 2 failed_once

abbrev probed_once : Breaker Milli
probed_once = (begin none 200 failed_twice).1

abbrev probed_twice : System Milli
probed_twice = record {
  breaker = (begin none 201 probed_once).1;
  running = half_open ∷ half_open ∷ [];
}

trip : Steps false 300 (record { breaker = new settings; running = [] }) probed_twice
unfolding begin admit wake transition_to_half_open emit_state_event finish on_failure
    check_failure_rate record_outcome record_count_based get_stats transition_to_open clear_window
    new with_defaults failure_rate
trip =
    more {now = 202}
      (more {now = 201}
        (more {now = 200}
          (more {now = 2}
            (more {now = 2}
              (more {now = 1} (more {now = 1} done (omega arith) (enter refl)) (omega arith)
                (enter refl))
              (omega arith) (leave [] (closed ∷ []) closed (some oops) refl))
            (omega arith) (leave [] [] closed (some oops) refl))
          (omega arith) (enter refl))
        (omega arith) (enter refl))
      (omega arith) (turn_away none refl)

probes-le_example : probes trip ≤ (with_defaults settings).half_open_max_calls
unfolding with_defaults
probes-le_example = probes-le settings probed_twice trip (omega arith)

-- The count of this run is the limit.
both_probes : probes trip ≡ 2
unfolding trip
both_probes = refl

-- The same two failures, after Health was called.
abbrev watched : Breaker Milli
watched = (health (new settings)).1

abbrev watched_open : Breaker Milli
watched_open = finish closed (some oops) 2 (finish closed (some oops) 2 watched)

watched_trip :
    Steps false 200
      (record { breaker = watched; running = [] })
      (record { breaker = watched_open; running = [] })
unfolding begin admit wake finish on_failure check_failure_rate record_outcome record_count_based
    get_stats transition_to_open emit_state_event clear_window new with_defaults failure_rate health
watched_trip =
    more {now = 2}
      (more {now = 2}
        (more {now = 1} (more {now = 1} done (omega arith) (enter refl)) (omega arith) (enter refl))
        (omega arith) (leave [] (closed ∷ []) closed (some oops) refl))
      (omega arith) (leave [] [] closed (some oops) refl)

channel-Tells_example : Tells watched_open.health_ch watched_open.state
channel-Tells_example =
    channel-Tells settings false 200 (record { breaker = watched_open; running = [] }) watched_trip

refused_and_left :
    Steps false 120
      (record { breaker = opened; running = closed ∷ [] })
      (record { breaker = finish closed none 110 opened; running = [] })
unfolding begin finish failure_rate
refused_and_left =
    more {now = 110} (more {now = 110} done (omega arith) (turn_away none refl)) (omega arith)
      (leave [] [] closed none refl)

open_until_timeout_example :
    ((finish closed none 110 opened).state ≡ open_)
    × ((finish closed none 110 opened).opened_at ≡ 50)
    × (0 ≤ 1)
open_until_timeout_example =
    open_until_timeout (record { breaker = opened; running = closed ∷ [] })
      (record { breaker = finish closed none 110 opened; running = [] }) refl (refl, tt) refl
      refused_and_left

lost_probes :
    Steps false 100000
      (record { breaker = probing; running = [] })
      (record { breaker = probing; running = [] })
unfolding begin
lost_probes = more {now = 99999} done (omega arith) (turn_away none refl)

half_open_for_ever_example : (half_open ≡ half_open) × (0 ≤ 0)
half_open_for_ever_example =
    half_open_for_ever (record { breaker = probing; running = [] })
      (record { breaker = probing; running = [] }) refl (omega arith) tt lost_probes

-- The second call asks 5 ns after the first one has returned.
calls_succeed_example :
    (c : Breaker Milli) × (calls_succeed ((200, 210) ∷ (215, 230) ∷ []) opened ≡ some c)
    × (c.state ≡ closed)
unfolding failure_rate
calls_succeed_example =
    calls_succeed-closed 200 210 ((215, 230) ∷ []) opened refl refl refl (omega arith) refl

late_probes_example :
    ((finish half_open (some oops) 70 probing).state ≡ open_)
    × ((finish half_open (some oops) 70 probing).opened_at ≡ 70)
    × ((good_probes 1 70 (finish half_open (some oops) 70 probing)).state ≡ closed)
unfolding failure_rate
late_probes_example = open_closed_by_late_probes 0 70 oops probing refl refl refl (omega arith) refl

-- One failure is in the window; a second one makes two of two.
abbrev one_failed : Breaker Milli
one_failed = record fresh { ring_idx = 1; total = 1; failures = 1 }

finish_closed-state_example :
    (finish closed (some oops) 7 one_failed).state ≡ verdict one_failed (false ∷ false ∷ [])
finish_closed-state_example =
    finish_closed-state (some oops) 7 3 one_failed (false ∷ [])
      (record {
        counting = record {
          small = omega arith;
          in_ring = omega arith;
          total_counts = refl;
          failures_count = refl;
        };
        slots = refl;
        by_count = refl;
        shown = refl;
      })
      refl
