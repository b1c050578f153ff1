-- ===== src/Examples/Stalled.antt =====
-- The worker of examples/backpressure/main.go after it was told that the circuit is open.
use resile.Circuit.State.{closed, open_, Breaker}
use resile.Circuit.Breaker.{finish}
use resile.Circuit.Machine.{finish_closed-Checked}
use resile.Circuit.System.{All, All-remove, All-at}
use resile.Errors.{Err}
use resile.Float.{Float}
use resile.Examples.Backpressure.{
  Worker, iterate, go_on, take_event, Turn, iteration, call_admitted, call_refused, call_over,
  Turns, start, then_,
}
use resile.Prelude.{
  ℕ, ◌≡◌, refl, sym, ap, subst, ◌∙◌, inl, inr, Bool, true, false, arith, if◌then◌else◌, Option,
  some, [],
}

module _ {F : Type 0} ⦃f : Float F⦄ where
  -- The circuit is open, its event has been read, and the calls that still run were admitted before.
  pub record IsStalled (w : Worker F) : Type 0 where
    pub paused : w.paused ≡ true
    pub shut : w.calls.breaker.state ≡ open_
    pub read : w.calls.breaker.health_ch ≡ some []
    pub late : All (λ s. s ≡ closed) w.calls.running
    pub quiet : w.spawned ≡ 0

  paused_on : (w v : Worker F) (b : Bool) → b ≡ true → (if b then w else v) ≡ w
  paused_on w v true e = refl
  paused_on w v false e = absurd cc

  iterate-IsStalled : (w : Worker F) → IsStalled w → IsStalled (iterate w)
  unfolding iterate
  iterate-IsStalled w h =
      subst IsStalled
        (sym (ap (λ o. go_on (take_event w o)) h.read ∙ paused_on w _ w.paused h.paused)) h

  over-shut :
      (err : Option Err) (now : ℕ) (b : Breaker F)
      → b.state ≡ open_
      → let c = finish closed err now b in (c.state ≡ open_) × (c.health_ch ≡ b.health_ch)
  over-shut err now b h = elim (finish_closed-Checked err now b) [
    | inl same ↦ (same.state ∙ h, same.channel)
    | inr (was_closed, moved, at) ↦ absurd cc
  ]

  Turn-IsStalled : (now : ℕ) (w v : Worker F) → Turn now w v → IsStalled w → IsStalled v
  Turn-IsStalled now w _ iteration h = iterate-IsStalled w h
  Turn-IsStalled now w _ (call_admitted at e) h = absurd (omega (arith, at, h.quiet))
  Turn-IsStalled now w _ (call_refused at e) h = absurd (omega (arith, at, h.quiet))
  Turn-IsStalled now w _ (call_over before after s err e) h =
      let late = subst (All (λ s. s ≡ closed)) e h.late in
      let (shut, same) =
        subst
          (λ s.
            let c = finish s err now w.calls.breaker in
            (c.state ≡ open_) × (c.health_ch ≡ w.calls.breaker.health_ch))
          (sym (All-at (λ s. s ≡ closed) before after s late))
          (over-shut err now w.calls.breaker h.shut) in
      record {
        paused = h.paused;
        shut = shut;
        read = same ∙ h.read;
        late = All-remove (λ s. s ≡ closed) before after s late;
        quiet = h.quiet;
      }

  -- Once the worker has read that the circuit is open, and the calls that it had started are under way
  -- or over, it stays paused and never starts another call, and the circuit stays open, whatever time
  -- passes, also long after the reset time-out.
  pub Turns-IsStalled : (w v : Worker F) → Turns w v → IsStalled w → IsStalled v
  Turns-IsStalled w _ start h = h
  Turns-IsStalled w _ (then_ {v} {u} {now} turns turn) h =
      Turn-IsStalled now v u turn (Turns-IsStalled w v turns h)
