-- ===== src/Circuit/Machine.antt =====
-- What one critical section of circuit/breaker.go does, on every branch: the section before the
-- action and the one after it.
use resile.Circuit.State.{closed, open_, half_open, Breaker}
use resile.Circuit.Window.{u64, record_outcome}
use resile.Circuit.Breaker.{refused, reset_elapsed, wake, begin, finish, failure_rate}
use resile.Circuit.Frame.{
  Checked, record-Frame, to_open-Moved, to_closed-Moved, check-Checked, Checked-Frame,
}
use resile.Errors.{circuit_open, Err, sentinel}
use resile.Float.{Float}
use resile.Prelude.{
  ℕ, ◌+◌, ◌≤◌, ◌<◌, ◌≡◌, ◌⊎◌, ◌↔◌, true, false, Option, none, some, arith, ltb, if◌then◌else◌,
}

module _ {F : Type 0} where
  -- A call whose context is not done is refused with ErrCircuitOpen just if the breaker is open and
  -- the reset time-out has not passed, or half-open with all its probes taken; at least one probe is
  -- configured.
  pub begin-refused :
      (now : ℕ) (b : Breaker F)
      → 0 < b.config.half_open_max_calls
      → ((begin none now b).0 ≡ refused (sentinel circuit_open)) ↔ (
          ((b.state ≡ open_) × (reset_elapsed now b ≡ false))
          ⊎ ((b.state ≡ half_open) × (b.config.half_open_max_calls ≤ b.half_open_calls)))
  unfolding begin
  begin-refused now b h = (λ e. ground arith, λ d. ground arith)

  wake-config : (now : ℕ) (b : Breaker F) → (wake now b).config ≡ b.config
  unfolding wake
  wake-config now b = ground arith

  -- An open breaker refuses every call, and does not change, until the time-out has passed.
  pub begin-open :
      (now : ℕ) (b : Breaker F)
      → b.state ≡ open_
      → reset_elapsed now b ≡ false
      → begin none now b ≡ (refused (sentinel circuit_open), b)
  unfolding begin
  begin-open now b e h = ground arith

module _ {F : Type 0} ⦃f : Float F⦄ where
  -- The end of a call that was admitted while the breaker was closed touches nothing but the
  -- window, or opens a breaker that still is closed.
  pub finish_closed-Checked :
      (err : Option Err) (now : ℕ) (b : Breaker F) → Checked now b (finish closed err now b)
  unfolding finish
  finish_closed-Checked none now b =
      Checked-Frame (record-Frame true now b) now (check-Checked now (record_outcome true now b))
  finish_closed-Checked (some e) now b =
      Checked-Frame (record-Frame false now b) now (check-Checked now (record_outcome false now b))

  -- A probe that fails opens the breaker, whatever its state, and starts the time-out anew.
  pub finish_failed_probe :
      (e : Err) (now : ℕ) (b : Breaker F)
      → let c = finish half_open (some e) now b in
        (c.state ≡ open_)
        × (c.opened_at ≡ now)
        × (c.config ≡ b.config)
        × (c.half_open_calls ≡ b.half_open_calls)
        × (c.half_open_failures ≡ u64 (b.half_open_failures + 1))
        × (c.half_open_completed ≡ u64 (b.half_open_completed + 1))
  unfolding finish
  finish_failed_probe e now b =
      let (m, at) = to_open-Moved now (record b {
        half_open_failures = u64 (b.half_open_failures + 1);
        half_open_completed = u64 (b.half_open_completed + 1);
      }) in
      (m.state, at, m.config, m.calls, m.probe_failures, m.completed)

  abbrev pub probed : Breaker F → Breaker F
  probed b = record b { half_open_completed = u64 (b.half_open_completed + 1) }

  -- A probe that succeeds is counted; if it is the last one that the configuration asks for, the
  -- breaker closes or opens by the rate of failed probes, whatever its state was.
  pub finish_good_probe :
      (now : ℕ) (b : Breaker F)
      → let c = finish half_open none now b in
        let n = u64 (b.half_open_completed + 1) in
        (c.config ≡ b.config)
        × (c.half_open_calls ≡ b.half_open_calls)
        × (c.half_open_failures ≡ b.half_open_failures)
        × (c.half_open_completed ≡ n)
        × (c.state ≡ (
            if ltb n b.config.half_open_max_calls
            then b.state
            else if f.lt (failure_rate b.half_open_failures n) b.config.failure_rate_threshold
            then closed
            else open_))
  unfolding finish
  finish_good_probe now b =
      let o = (to_open-Moved now (probed b)).0 in
      let c = to_closed-Moved now (probed b) in ground (arith, o, c)
