-- ===== src/Hedging/Loop.antt =====
-- The main loop of executeHedged in retry.go, as a machine that the events of its select drive. The
-- attempts run in goroutines of their own; each sends its error once to the channel `results`,
-- which has room for all of them.
use resile.Errors.{circuit_open, Err, is_sentinel, as_retry_after, join}
use resile.Prelude.{
  ℕ, ◌+◌, ◌-◌, ℤ, Bool, true, false, not, ◌&&◌, Option, none, some, List, [], ◌∷◌, ◌++◌, ltb, leb,
  ◌==◌, if◌then◌else◌,
}

-- What the loop calls: the token bucket (true where none is configured), and the policy.
pub record Effects (W : Type 0) : Type 0 where
  pub acquire_retry_token : W → Bool × W
  pub add_success_token : W → W
  pub should_retry : Err → Bool

-- The loop's variables; `launched` counts the goroutines that were started.
pub record Hedge (W : Type 0) : Type 0 where
  pub in_flight : ℕ
  pub attempts_started : ℕ
  pub errs : List Err
  pub launched : ℕ
  pub world : W

-- What the select receives.
pub data Event : Type 0 where
  context_done : Err → Event
  result : Option Err → Event
  timer : Event

-- At the select, or returned.
pub data Phase (W : Type 0) : Type 0 where
  waiting : Hedge W → Phase W
  ended : Option Err → W → Phase W

abbrev pub initial : {W : Type 0} → W → Hedge W
initial w = record { in_flight = 0; attempts_started = 0; errs = []; launched = 0; world = w }

abbrev pub calls_off : Option (ℤ × Bool) → Bool
calls_off none = false
calls_off (some (d, cancel)) = cancel

module _ {W : Type 0} (eff : Effects W) (limit : ℕ) where
  abbrev pub may_start : Hedge W → Bool × W
  may_start h =
      if ltb 0 h.attempts_started then eff.acquire_retry_token h.world else (true, h.world)

  abbrev pub start_or_stop : Hedge W → Bool × W → Hedge W
  start_or_stop h (true, w) = record h {
    in_flight = h.in_flight + 1;
    attempts_started = h.attempts_started + 1;
    launched = h.launched + 1;
    world = w;
  }
  start_or_stop h (false, w) = record h { attempts_started = limit; world = w }

  unfoldable pub launch : Hedge W → Hedge W
  launch h = if ltb h.attempts_started limit then start_or_stop h (may_start h) else h

  abbrev pub or_break : Hedge W → Phase W
  or_break h =
      if leb limit h.attempts_started && h.in_flight == 0
      then ended (join h.errs) h.world
      else waiting h

  -- The top of the loop, up to the select.
  unfoldable pub turn : Hedge W → Phase W
  turn h = or_break (launch h)

  unfoldable pub on_failure : Err → Hedge W → Phase W
  on_failure e h =
      if is_sentinel circuit_open e
      then ended (join h.errs) h.world
      else if calls_off (as_retry_after e)
      then ended (join h.errs) h.world
      else if not (eff.should_retry e)
      then ended (join h.errs) h.world
      else turn h

  -- A case of the select.
  unfoldable pub receive : Event → Hedge W → Phase W
  receive (context_done e) h = ended (join (h.errs ++ e ∷ [])) h.world
  receive (result none) h = ended none (eff.add_success_token h.world)
  receive (result (some e)) h =
      on_failure e (record h { in_flight = h.in_flight - 1; errs = h.errs ++ e ∷ [] })
  receive timer h = turn h

  abbrev pub step : Event → Phase W → Phase W
  step e (waiting h) = receive e h
  step e (ended r w) = ended r w

  unfoldable pub run : List Event → Phase W → Phase W
  run [] p = p
  run (e ∷ es) p = run es (step e p)

  unfoldable pub execute_hedged : List Event → W → Phase W
  unfolding run receive on_failure turn launch
  execute_hedged es w = run es (turn (initial w))
