-- ===== src/Circuit/Frame.antt =====
-- What the window's operations of circuit/breaker.go leave alone: all of the breaker but the window.
use resile.Circuit.State.{State, closed, open_, half_open, Breaker}
use resile.Circuit.Window.{
  advance_time_based_window, record_count_based, record_time_based, record_outcome, clear_window,
  get_stats,
}
use resile.Circuit.Breaker.{
  transition_to_open, transition_to_closed, check_failure_rate, judge, check_in, failure_rate,
}
use resile.Float.{Float}
use resile.Prelude.{ℕ, ◌≡◌, refl, sym, ◌∙◌, ◌⊎◌, inl, inr, Bool, arith, ltb, Bool-cases}

module _ {F : Type 0} where
  pub record Frame (b c : Breaker F) : Type 0 where
    pub config : c.config ≡ b.config
    pub state : c.state ≡ b.state
    pub opened_at : c.opened_at ≡ b.opened_at
    pub calls : c.half_open_calls ≡ b.half_open_calls
    pub probe_failures : c.half_open_failures ≡ b.half_open_failures
    pub completed : c.half_open_completed ≡ b.half_open_completed
    pub channel : c.health_ch ≡ b.health_ch

  advance-Frame : (now : ℕ) (b : Breaker F) → Frame b (advance_time_based_window now b)
  unfolding advance_time_based_window
  advance-Frame now b = ground arith

  record_count-Frame : (s : Bool) (b : Breaker F) → Frame b (record_count_based s b)
  unfolding record_count_based
  record_count-Frame s b = ground arith

  record_time-Frame : (s : Bool) (now : ℕ) (b : Breaker F) → Frame b (record_time_based s now b)
  unfolding record_time_based
  record_time-Frame s now b = ground (arith, advance-Frame now b)

  pub record-Frame : (s : Bool) (now : ℕ) (b : Breaker F) → Frame b (record_outcome s now b)
  unfolding record_outcome
  record-Frame s now b = ground (arith, record_count-Frame s b, record_time-Frame s now b)

  pub clear-Frame : (b : Breaker F) → Frame b (clear_window b)
  unfolding clear_window
  clear-Frame b = ground arith

  pub stats-Frame : (now : ℕ) (b : Breaker F) → Frame b (get_stats now b).2
  unfolding get_stats
  stats-Frame now b = ground (arith, advance-Frame now b)

  -- The breaker has moved to a state; its configuration and the probe counters are what they were.
  pub record Moved (to : State) (b c : Breaker F) : Type 0 where
    pub config : c.config ≡ b.config
    pub state : c.state ≡ to
    pub calls : c.half_open_calls ≡ b.half_open_calls
    pub probe_failures : c.half_open_failures ≡ b.half_open_failures
    pub completed : c.half_open_completed ≡ b.half_open_completed

  pub to_open-Moved :
      (now : ℕ) (b : Breaker F)
      → Moved open_ b (transition_to_open now b) × ((transition_to_open now b).opened_at ≡ now)
  unfolding transition_to_open
  to_open-Moved now b =
      let w = clear-Frame (record b { state = open_; opened_at = now }) in
      (
        record {
          config = w.config;
          state = w.state;
          calls = w.calls;
          probe_failures = w.probe_failures;
          completed = w.completed;
        },
        w.opened_at,
      )

  pub to_closed-Moved : (now : ℕ) (b : Breaker F) → Moved closed b (transition_to_closed now b)
  unfolding transition_to_closed
  to_closed-Moved now b =
      let w = clear-Frame (record b { state = closed }) in
      record {
        config = w.config;
        state = w.state;
        calls = w.calls;
        probe_failures = w.probe_failures;
        completed = w.completed;
      }

-- What checking the failure rate may do: nothing outside the window, or open a closed breaker.
abbrev pub Checked : {F : Type 0} → ℕ → Breaker F → Breaker F → Type 0
Checked now b c = Frame b c ⊎ ((b.state ≡ closed) × Moved open_ b c × (c.opened_at ≡ now))

-- One frame after another, and a move after a frame.
module _ {F : Type 0} {b c d : Breaker F} (v : Frame b c) where
  pub Frame-Frame : Frame c d → Frame b d
  Frame-Frame w = record {
    config = w.config ∙ v.config;
    state = w.state ∙ v.state;
    opened_at = w.opened_at ∙ v.opened_at;
    calls = w.calls ∙ v.calls;
    probe_failures = w.probe_failures ∙ v.probe_failures;
    completed = w.completed ∙ v.completed;
    channel = w.channel ∙ v.channel;
  }

  pub Moved-Frame : {to : State} → Moved to c d → Moved to b d
  Moved-Frame m = record {
    config = m.config ∙ v.config;
    state = m.state;
    calls = m.calls ∙ v.calls;
    probe_failures = m.probe_failures ∙ v.probe_failures;
    completed = m.completed ∙ v.completed;
  }

  pub Checked-Frame : (now : ℕ) → Checked now c d → Checked now b d
  Checked-Frame now (inl w) = inl (Frame-Frame w)
  Checked-Frame now (inr (e, m, at)) = inr (sym v.state ∙ e, Moved-Frame m, at)

module _ {F : Type 0} ⦃f : Float F⦄ where
  judge-Checked :
      (now total failures : ℕ) (b c : Breaker F)
      → Frame b c
      → b.state ≡ closed
      → Checked now b (judge now (total, failures, c))
  judge-Checked now total failures b c v e =
      let (o, at) = to_open-Moved now c in
      let opened : Checked now b (transition_to_open now c) = inr (e, Moved-Frame v o, at) in
      elim (Bool-cases (ltb total c.config.minimum_calls)) [
        | inl few ↦ rw few (inl v)
        | inr enough ↦
            rw enough
              (elim (Bool-cases
                (f.le c.config.failure_rate_threshold (failure_rate failures total))) [
                  | inl high ↦ rw high opened
                  | inr fine ↦ rw fine (inl v)
                ])
      ]

  check_in-Checked :
      (s : State) (now : ℕ) (b : Breaker F) → b.state ≡ s → Checked now b (check_in s now b)
  check_in-Checked closed now b e =
      let (total, failures, c) = get_stats now b in
      judge-Checked now total failures b c (stats-Frame now b) e
  check_in-Checked open_ now b e = inl (ground arith)
  check_in-Checked half_open now b e = inl (ground arith)

  pub check-Checked : (now : ℕ) (b : Breaker F) → Checked now b (check_failure_rate now b)
  unfolding check_failure_rate
  check-Checked now b = check_in-Checked b.state now b refl
