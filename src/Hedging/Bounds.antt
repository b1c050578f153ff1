-- ===== src/Hedging/Bounds.antt =====
-- The number of attempts that executeHedged of retry.go starts.
use resile.Errors.{Err}
use resile.Hedging.Loop.{
  Effects, Hedge, Event, Phase, waiting, ended, initial, launch, turn, receive, run, execute_hedged,
}
use resile.Prelude.{ℕ, ◌+◌, ◌≤◌, ◌<◌, ◌≡◌, refl, List, [], ◌∷◌, length, length-append, arith}
use resile.Hedging.Cases.{CanCome, turn_cases, failed, receive_cases, Valid}

-- The variables agree, with at most the limit of attempts.
pub record IsSane {W : Type 0} (limit : ℕ) (h : Hedge W) : Type 0 where
  pub started : h.attempts_started ≤ limit
  pub launches : h.launched ≤ h.attempts_started
  pub accounts : length h.errs + h.in_flight ≡ h.launched

abbrev pub IsSanePhase : {W : Type 0} → ℕ → Phase W → Type 0
IsSanePhase limit (waiting h) = IsSane limit h
IsSanePhase limit (ended r w) = Unit {0}

module _ {W : Type 0} (eff : Effects W) (limit : ℕ) where
  launch-IsSane : (h : Hedge W) → IsSane limit h → IsSane limit (launch eff limit h)
  unfolding launch
  launch-IsSane h v = ground arith

  turn-IsSane : (h : Hedge W) → IsSane limit h → IsSanePhase limit (turn eff limit h)
  turn-IsSane h v = turn_cases eff limit (IsSanePhase limit) h tt (launch-IsSane h v)

  failed-IsSane :
      (x : Err) (h : Hedge W)
      → 0 < h.in_flight
      → IsSane limit h
      → IsSane limit (failed eff limit x h)
  failed-IsSane x h some_run v = record {
    started = v.started;
    launches = v.launches;
    accounts = omega (arith, length-append h.errs (x ∷ []), v.accounts);
  }

  receive-IsSane :
      (e : Event) (h : Hedge W)
      → CanCome limit e h
      → IsSane limit h
      → IsSanePhase limit (receive eff limit e h)
  receive-IsSane e h c v =
      receive_cases eff limit (IsSanePhase limit) h e c (λ r w. tt)
        (λ x k. turn-IsSane (failed eff limit x h) (failed-IsSane x h k v)) (λ k. turn-IsSane h v)

  run-IsSane :
      (es : List Event) (p : Phase W)
      → Valid eff limit es p
      → IsSanePhase limit p
      → IsSanePhase limit (run eff limit es p)
  unfolding run
  run-IsSane [] p c v = v
  run-IsSane (e ∷ es) (waiting h) c v =
      run-IsSane es (receive eff limit e h) c.1 (receive-IsSane e h c.0 v)
  run-IsSane (e ∷ es) (ended r w) c v = run-IsSane es (ended r w) c.1 v

  -- In every state that executeHedged can reach, at most MaxAttempts goroutines were started, and
  -- each of them is in flight or its error is recorded, so that the channel of the results, which
  -- has room for MaxAttempts, never blocks a sender.
  pub execute_hedged-IsSane :
      (es : List Event) (w : W)
      → Valid eff limit es (turn eff limit (initial w))
      → IsSanePhase limit (execute_hedged eff limit es w)
  unfolding execute_hedged
  execute_hedged-IsSane es w c = run-IsSane es (turn eff limit (initial w)) c (
      turn-IsSane (initial w)
        (record { started = omega arith; launches = omega arith; accounts = refl }))
