-- ===== src/Circuit/Tripping.antt =====
-- When a closed breaker of circuit/breaker.go with a count-based window opens.
use resile.Circuit.State.{State, closed, open_, Breaker}
use resile.Circuit.Window.{record_outcome, get_stats, stats_as}
use resile.Circuit.Breaker.{
  finish, on_success, on_failure, check_failure_rate, check_in, judge, failure_rate,
}
use resile.Circuit.Frame.{record-Frame, to_open-Moved}
use resile.Circuit.Ring.{last_of, count_false}
use resile.Circuit.Sliding.{Shows, record-Shows}
use resile.Errors.{Err}
use resile.Float.{Float}
use resile.Prelude.{
  ℕ, ◌≡◌, ap, ◌∙◌, inl, inr, Bool, true, false, Option, none, some, List, [], ◌∷◌, ◌++◌, length,
  ltb, if◌then◌else◌, Bool-cases,
}

-- Whether a call that ended with this error succeeded.
abbrev pub succeeded : Option Err → Bool
succeeded none = true
succeeded (some e) = false

module _ {F : Type 0} ⦃f : Float F⦄ where
  -- The state after the failure rate of the outcomes in the window is checked.
  abbrev pub verdict : Breaker F → List Bool → State
  verdict b seen =
      if ltb (length seen) b.config.minimum_calls
      then closed
      else if f.le b.config.failure_rate_threshold (failure_rate (count_false seen) (length seen))
      then open_
      else closed

  judge-state :
      (now : ℕ) (b c : Breaker F) (seen : List Bool)
      → c.state ≡ closed
      → c.config ≡ b.config
      → (judge now (length seen, count_false seen, c)).state ≡ verdict b seen
  judge-state now b c seen still same =
      let opened = (to_open-Moved now c).0.state in
      let rate = failure_rate (count_false seen) (length seen) in
      rw (← same) (elim (Bool-cases (ltb (length seen) c.config.minimum_calls)) [
        | inl few ↦ rw few still
        | inr enough ↦ elim (Bool-cases (f.le c.config.failure_rate_threshold rate)) [
          | inl high ↦ rw (enough, high) opened
          | inr low ↦ rw (enough, low) still
        ]
      ])

  check-state :
      (now : ℕ) (b c : Breaker F) (seen : List Bool)
      → c.state ≡ closed
      → c.config ≡ b.config
      → get_stats now c ≡ (length seen, count_false seen, c)
      → (check_failure_rate now c).state ≡ verdict b seen
  unfolding check_failure_rate
  check-state now b c seen still same stats =
      ap (λ s. (check_in s now c).state) still
      ∙ ap (λ t. (judge now t).state) stats
      ∙ judge-state now b c seen still same

  shown_stats :
      (now : ℕ) (c : Breaker F) (h : List Bool) (n : ℕ)
      → Shows c h n
      → get_stats now c ≡ (length (last_of n h), count_false (last_of n h), c)
  unfolding get_stats
  shown_stats now c h n v =
      ap (λ t. stats_as t now c) v.by_count
      ∙ ap (λ (t : ℕ). (t, c.failures, c)) (v.counting.total_counts ∙ ap length v.shown)
      ∙ ap (λ (t : ℕ). (length (last_of n h), t, c))
          (v.counting.failures_count ∙ ap count_false v.shown)

  recorded-state :
      (s : Bool) (now n : ℕ) (b : Breaker F) (h : List Bool)
      → Shows b h n
      → b.state ≡ closed
      → (check_failure_rate now (record_outcome s now b)).state
        ≡ verdict b (last_of n (h ++ s ∷ []))
  recorded-state s now n b h v e =
      let c = record_outcome s now b in
      let frame = record-Frame s now b in
      check-state now b c (last_of n (h ++ s ∷ [])) (frame.state ∙ e) frame.config
        (shown_stats now c (h ++ s ∷ []) n (record-Shows s now b h n v))

  -- A closed breaker with a count-based window of n slots (1 <= n < 2^32) that shows the last n
  -- outcomes so far: when a call that it admitted while closed ends, it opens just if the window,
  -- which this outcome has joined, holds the minimum number of calls and the rate of failures among
  -- them has reached the threshold, and else it stays closed.
  pub finish_closed-state :
      (err : Option Err) (now n : ℕ) (b : Breaker F) (h : List Bool)
      → Shows b h n
      → b.state ≡ closed
      → (finish closed err now b).state ≡ verdict b (last_of n (h ++ succeeded err ∷ []))
  unfolding finish on_success on_failure
  finish_closed-state none now n b h v e = recorded-state true now n b h v e
  finish_closed-state (some x) now n b h v e = recorded-state false now n b h v e
