-- ===== src/Tests/StateMachineRuns.antt =====
-- Runs of statemachine.go.
use resile.Context.{background}
use resile.Errors.{Err, user, sentinel}
use resile.Float.{Milli, milli_float}
use resile.Pipeline.Config.{default_config}
use resile.Pipeline.World.{World}
use resile.Pipeline.Entry.{Result, gives, panics}
use resile.Pipeline.Options.{new}
use resile.StateMachine.Handle.{Update, TransitionFunc, StateMachine, handle}
use resile.StateMachine.Atomic.{Advanced, handle-Advanced}
use resile.Prelude.{ℕ, ◌+◌, ◌≡◌, refl, ap, arith, true, ◌==◌, if◌then◌else◌, none, some, []}

abbrev oops : Err
oops = sentinel (user 1)

-- Only from the state 0 is there a transition, to the state 1.
abbrev adding : TransitionFunc ℕ ℕ ℕ Milli ℕ
adding ctx s d e st w = if s == 0 then (gives (1, d + e) none, w) else (gives (7, 7) (some oops), w)

abbrev at_start : StateMachine ℕ ℕ ℕ Milli ℕ
at_start = record { state = 0; data_ = 4; transition = adding; options = [] }

abbrev world : World Milli (Update ℕ ℕ) (Update ℕ ℕ × ℕ)
world = record {
  config = default_config;
  clock = 1000;
  draws = [];
  floats = [];
  events = [];
  takes_slot = true;
  user = ((0, 0), 0);
}

abbrev update_of : Result (Update ℕ ℕ) → Update ℕ ℕ
update_of (gives v e) = v
update_of (panics n) = (0, 0)

handle-Advanced_example :
    let r = handle (0, 0) background 5 at_start world in
    Advanced (0, 0) 5 at_start (λ u. (1, 9) ≡ u) (r.0, r.1)
unfolding new default_config
handle-Advanced_example =
    handle-Advanced (0, 0) 5 at_start (λ u. (1, 9) ≡ u) background world (omega arith) tt
      (λ c s v. (refl, refl)) (λ c s v u h. ap update_of h)
