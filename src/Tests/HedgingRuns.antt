-- ===== src/Tests/HedgingRuns.antt =====
-- Runs of the hedged entry points of retry.go.
use resile.Context.{background, remaining}
use resile.Errors.{Err, user, sentinel, is_sentinel, as_retry_after, is_fatal}
use resile.Float.{Milli, milli_float}
use resile.Hedging.Answer.{SoundIfEnded, do_state_hedged-Sound}
use resile.Hedging.Attempt.{run_attempt, hedged_pipeline}
use resile.Hedging.Loop.{turn, launch, receive, on_failure}
use resile.Hedging.Race.{Move, finish, take, tick, HedgedAction, race, race_hedged, do_state_hedged}
use resile.Hedging.Stored.{IsRacer}
use resile.Pipeline.Attempt.{apply}
use resile.Pipeline.Middleware.{instrumenter_middleware, deadline_middleware}
use resile.Retry.Policy.{should_retry_err}
use resile.Pipeline.Config.{default_config}
use resile.Pipeline.Entry.{Result, gives}
use resile.Pipeline.Options.{new}
use resile.Pipeline.Success.{Sound}
use resile.Pipeline.World.{World}
use resile.Prelude.{ℕ, zero, suc, ◌≡◌, refl, true, false, Option, none, some, List, [], ◌∷◌, arith}

abbrev oops : Err
oops = sentinel (user 1)

abbrev world : World Milli ℕ (Option ℕ × ℕ)
world = record {
  config = default_config;
  clock = 1000;
  draws = [];
  floats = [];
  events = [];
  takes_slot = true;
  user = (none, 0);
}

-- The first attempt fails, all others answer 42.
abbrev answer : ℕ → Result ℕ
answer zero = gives 7 (some oops)
answer (suc n) = gives 42 none

answer-Sound : (n : ℕ) → Sound (λ v. v ≡ 42) (answer n)
answer-Sound zero = tt
answer-Sound (suc n) = refl

abbrev answering : HedgedAction Milli ℕ ℕ
answering ctx st w = (answer st.attempt, w)

answering-IsRacer : IsRacer (λ v. v ≡ 42) answering
answering-IsRacer = record {
  attempts = λ c s v. refl;
  fallback = λ c s v. refl;
  value = λ c s v. answer-Sound s.attempt;
  set = λ c s v h. h;
  stored = λ c s v h. h;
}

-- The hedging delay passes, both attempts end, and the loop receives their results.
abbrev both : List Move
both = tick ∷ finish 0 false ∷ finish 1 false ∷ take ∷ take ∷ []

do_state_hedged_example :
    SoundIfEnded (λ v. v ≡ 42) (do_state_hedged [] 0 background answering both world)
unfolding new default_config
do_state_hedged_example =
    do_state_hedged-Sound (λ v. v ≡ 42) [] 0 background answering both world (omega arith)
      answering-IsRacer tt

answered_by_the_second : do_state_hedged [] 0 background answering both world ≡ some (gives 42 none)
unfolding do_state_hedged new default_config race_hedged race run_attempt hedged_pipeline turn
    launch receive on_failure apply instrumenter_middleware deadline_middleware remaining
    is_sentinel as_retry_after should_retry_err is_fatal
answered_by_the_second = refl
