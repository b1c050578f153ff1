-- ===== src/Hedging/Cases.antt =====
-- What the main loop of executeHedged in retry.go does with an event that can come.
use resile.Errors.{circuit_open, Err, is_sentinel, as_retry_after, join}
use resile.Hedging.Loop.{
  Effects, Hedge, Event, context_done, result, timer, Phase, waiting, ended, calls_off, launch,
  turn, on_failure, receive, step,
}
use resile.Prelude.{
  ◌&&◌, ◌==◌, leb, ℕ, ◌-◌, ◌<◌, inl, inr, Option, none, some, List, [], ◌∷◌, ◌++◌, Bool-cases,
}

-- An event that the select can receive: a result only of a goroutine in flight, a tick only of a
-- timer that was set.
abbrev pub CanCome : {W : Type 0} → ℕ → Event → Hedge W → Type 0
CanCome limit (context_done e) h = Unit {0}
CanCome limit (result r) h = 0 < h.in_flight
CanCome limit timer h = h.attempts_started < limit

abbrev pub CanComeAt : {W : Type 0} → ℕ → Event → Phase W → Type 0
CanComeAt limit e (waiting h) = CanCome limit e h
CanComeAt limit e (ended r w) = Unit {0}

module _ {W : Type 0} (eff : Effects W) (limit : ℕ) where
  pub turn_cases :
      (P : Phase W → Type 0) (h : Hedge W)
      → P (ended (join (launch eff limit h).errs) (launch eff limit h).world)
      → P (waiting (launch eff limit h))
      → P (turn eff limit h)
  unfolding turn
  turn_cases P h stop go =
      elim (Bool-cases
        (leb limit (launch eff limit h).attempts_started && (launch eff limit h).in_flight == 0)) [
          | inl e ↦ rw e stop
          | inr e ↦ rw e go
        ]

  pub on_failure_cases :
      (P : Phase W → Type 0) (x : Err) (h : Hedge W)
      → ((r : Option Err) (w : W) → P (ended r w))
      → P (turn eff limit h)
      → P (on_failure eff limit x h)
  unfolding on_failure
  on_failure_cases P x h stop go = elim (Bool-cases (is_sentinel circuit_open x)) [
    | inl e ↦ rw e (stop _ _)
    | inr e ↦ elim (Bool-cases (calls_off (as_retry_after x))) [
      | inl k ↦ rw (e, k) (stop _ _)
      | inr k ↦ elim (Bool-cases (eff.should_retry x)) [
        | inl l ↦ rw (e, k, l) go
        | inr l ↦ rw (e, k, l) (stop _ _)
      ]
    ]
  ]

  abbrev pub failed : Err → Hedge W → Hedge W
  failed x h = record h { in_flight = h.in_flight - 1; errs = h.errs ++ x ∷ [] }

  pub receive_cases :
      (P : Phase W → Type 0) (h : Hedge W) (e : Event)
      → CanCome limit e h
      → ((r : Option Err) (w : W) → P (ended r w))
      → ((x : Err) → 0 < h.in_flight → P (turn eff limit (failed x h)))
      → (h.attempts_started < limit → P (turn eff limit h))
      → P (receive eff limit e h)
  unfolding receive
  receive_cases P h (context_done x) c stop fail tick = stop _ _
  receive_cases P h (result none) c stop fail tick = stop _ _
  receive_cases P h (result (some x)) c stop fail tick =
      on_failure_cases P x (failed x h) stop (fail x c)
  receive_cases P h timer c stop fail tick = tick c

  -- Events that can come, each where the one before it has left the loop.
  abbrev pub Valid : List Event → Phase W → Type 0
  Valid [] p = Unit {0}
  Valid (e ∷ es) p = CanComeAt limit e p × Valid es (step eff limit e p)
