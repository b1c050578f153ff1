-- ===== src/Hedging/Ends.antt =====
-- The end of the main loop of executeHedged in retry.go.
use resile.Errors.{Err}
use resile.Hedging.Loop.{
  Effects, Hedge, Event, Phase, waiting, ended, initial, launch, turn, receive, run, execute_hedged,
}
use resile.Prelude.{
  leb, ℕ, ◌+◌, ◌-◌, ◌*◌, ◌≤◌, ◌<◌, ◌≡◌, refl, inl, inr, true, false, Option, List, [], ◌∷◌, length,
  arith, ltb, ltb→lt, Bool-cases,
}
use resile.Hedging.Cases.{CanCome, turn_cases, failed, receive_cases, Valid}

-- How many more events the loop can take.
abbrev pub left : {W : Type 0} → ℕ → Hedge W → ℕ
left limit h = 2 * (limit - h.attempts_started) + h.in_flight

abbrev pub LeftUnder : {W : Type 0} → ℕ → ℕ → Phase W → Type 0
LeftUnder limit n (waiting h) = left limit h < n
LeftUnder limit n (ended r w) = Unit {0}

module _ {W : Type 0} (eff : Effects W) (limit : ℕ) where
  launch-left :
      (h : Hedge W)
      → (left limit (launch eff limit h) ≤ left limit h)
        × (h.attempts_started < limit → left limit (launch eff limit h) < left limit h)
  unfolding launch
  launch-left h = (ground arith, λ q. ground arith)

  turn-LeftUnder :
      (n : ℕ) (h : Hedge W)
      → left limit (launch eff limit h) < n
      → LeftUnder limit n (turn eff limit h)
  turn-LeftUnder n h k = turn_cases eff limit (LeftUnder limit n) h tt k

  receive-LeftUnder :
      (e : Event) (h : Hedge W)
      → CanCome limit e h
      → LeftUnder limit (left limit h) (receive eff limit e h)
  receive-LeftUnder e h c =
      receive_cases eff limit (LeftUnder limit (left limit h)) h e c (λ r w. tt)
        (λ x k.
          turn-LeftUnder (left limit h) (failed eff limit x h)
            (omega (arith, (launch-left (failed eff limit x h)).0)))
        (λ k. turn-LeftUnder (left limit h) h ((launch-left h).1 k))

  LeftUnder-mono : (m n : ℕ) (p : Phase W) → m ≤ n → LeftUnder limit m p → LeftUnder limit n p
  LeftUnder-mono m n (waiting h) q k = omega arith
  LeftUnder-mono m n (ended r w) q k = tt

  run-ended : (es : List Event) (r : Option Err) (w : W) → run eff limit es (ended r w) ≡ ended r w
  unfolding run
  run-ended [] r w = refl
  run-ended (e ∷ es) r w = run-ended es r w

  run-ends :
      (es : List Event) (p : Phase W)
      → Valid eff limit es p
      → LeftUnder limit (length es) p
      → (r : Option Err) × (w : W) × (run eff limit es p ≡ ended r w)
  unfolding run
  run-ends [] (waiting h) c k = absurd (omega arith)
  run-ends [] (ended r w) c k = (r, w, refl)
  run-ends (e ∷ es) (waiting h) c k = run-ends es (receive eff limit e h) c.1 (
      LeftUnder-mono (left limit h) (length es) (receive eff limit e h) (omega arith)
        (receive-LeftUnder e h c.0))
  run-ends (e ∷ es) (ended r w) c k = (r, w, run-ended es r w)

  turn-initial : (w : W) → LeftUnder limit (2 * limit) (turn eff limit (initial w))
  unfolding turn launch
  turn-initial w = elim (Bool-cases (ltb 0 limit)) [
    | inl some_attempt ↦
        turn-LeftUnder (2 * limit) (initial w)
          (omega (arith, (launch-left (initial w)).1 (ltb→lt 0 limit some_attempt)))
    | inr no_attempt ↦ rw (no_attempt, no_limit no_attempt) tt
  ]
    where
      no_limit : ltb 0 limit ≡ false → leb limit 0 ≡ true
      no_limit h = ground arith

  -- The loop of executeHedged ends: with MaxAttempts n, after 2 n events at the latest it has
  -- returned, whichever they are and in whatever order they come.
  pub execute_hedged-ends :
      (es : List Event) (w : W)
      → Valid eff limit es (turn eff limit (initial w))
      → 2 * limit ≤ length es
      → (r : Option Err) × (w' : W) × (execute_hedged eff limit es w ≡ ended r w')
  unfolding execute_hedged
  execute_hedged-ends es w c k =
      run-ends es (turn eff limit (initial w)) c
        (LeftUnder-mono (2 * limit) (length es) (turn eff limit (initial w)) k (turn-initial w))
