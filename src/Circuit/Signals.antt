-- ===== src/Circuit/Signals.antt =====
-- What the health channel of circuit/breaker.go tells of the breaker.
use resile.Channel.{health_capacity, send_event}
use resile.Circuit.State.{
  State, closed, open_, half_open, HealthState, healthy, degraded, unhealthy, StateEvent, Breaker,
  Config, new,
}
use resile.Circuit.Window.{record_outcome, clear_window, get_stats, u64}
use resile.Circuit.Breaker.{
  Admission, transition_to_open, transition_to_half_open, transition_to_closed, reset,
  reset_elapsed, wake_from, wake, state_of, admit_in, admit, begin, judge, judge_probes,
  failure_rate, check_in, check_failure_rate, on_failure, on_success, finish, health,
}
use resile.Circuit.Frame.{Frame, record-Frame, clear-Frame, stats-Frame}
use resile.Circuit.System.{
  System, Step, enter, turn_away, leave, crash, query, by_reset, Steps, done, more,
}
use resile.Errors.{Err}
use resile.Float.{Float}
use resile.Prelude.{
  ℕ, ◌+◌, ◌≤◌, ◌≡◌, refl, sym, ap, subst, ◌∙◌, ◌⊎◌, inl, inr, Bool, true, false, Option, none, some,
  List, [], ◌∷◌, ◌++◌, length, length-append, ltb, leb, if_of, arith,
}

-- The health that an event of each state reports.
abbrev pub health_of : State → HealthState
health_of closed = healthy
health_of half_open = degraded
health_of open_ = unhealthy

-- The state of the event that was sent last.
abbrev pub newest : List StateEvent → Option HealthState
newest [] = none
newest (e ∷ []) = some e.state
newest (e ∷ d ∷ es) = newest (d ∷ es)

-- A channel that has room for another event has told the state that the breaker is in, if anything.
abbrev pub Tells : Option (List StateEvent) → State → Type 0
Tells none s = Unit {0}
Tells (some q) s =
    (length q ≤ health_capacity)
    × ((length q ≡ health_capacity) ⊎ (newest q ≡ none) ⊎ (newest q ≡ some (health_of s)))

newest-append : (q : List StateEvent) (e : StateEvent) → newest (q ++ e ∷ []) ≡ some e.state
newest-append [] e = refl
newest-append (x ∷ []) e = refl
newest-append (x ∷ y ∷ q) e = newest-append (y ∷ q) e

send-Tells :
    (o : Option (List StateEvent)) (s t : State) (e : StateEvent)
    → e.state ≡ health_of t
    → Tells o s
    → Tells (send_event e o) t
send-Tells none s t e h k = tt
send-Tells (some q) s t e h (short, k) =
    if_of (λ l. Tells (some l) t) (ltb (length q) health_capacity) _ _
      (λ room. (fits room, inr (inr (newest-append q e ∙ ap some h))))
      (λ full. (short, inl (is_full full)))
  where
    fits : ltb (length q) health_capacity ≡ true → length (q ++ e ∷ []) ≤ health_capacity
    fits room = ground (arith, length-append q (e ∷ []))

    is_full : ltb (length q) health_capacity ≡ false → length q ≡ health_capacity
    is_full full = ground arith

module _ {F : Type 0} where
  abbrev TellsOf : Breaker F → Type 0
  TellsOf b = Tells b.health_ch b.state

  Frame-Tells : (b c : Breaker F) → Frame b c → TellsOf b → TellsOf c
  Frame-Tells b c fr h =
      subst (λ o. Tells o c.state) (sym fr.channel) (subst (Tells b.health_ch) (sym fr.state) h)

  to_open-Tells :
      (now : ℕ) (s : State) (b : Breaker F)
      → Tells b.health_ch s
      → TellsOf (transition_to_open now b)
  unfolding transition_to_open
  to_open-Tells now s b h =
      let c = clear_window (record b { state = open_; opened_at = now }) in
      let fr = clear-Frame (record b { state = open_; opened_at = now }) in
      send-Tells c.health_ch s c.state _ (ap health_of (sym fr.state))
        (subst (λ o. Tells o s) (sym fr.channel) h)

  to_closed-Tells :
      (now : ℕ) (s : State) (b : Breaker F)
      → Tells b.health_ch s
      → TellsOf (transition_to_closed now b)
  unfolding transition_to_closed
  to_closed-Tells now s b h =
      let c = clear_window (record b { state = closed }) in
      let fr = clear-Frame (record b { state = closed }) in
      send-Tells c.health_ch s c.state _ (ap health_of (sym fr.state))
        (subst (λ o. Tells o s) (sym fr.channel) h)

  wake-Tells : (now : ℕ) (b : Breaker F) → TellsOf b → TellsOf (wake now b)
  unfolding wake transition_to_half_open
  wake-Tells now b h = woken b.state refl
    where
      woken : (s : State) → b.state ≡ s → TellsOf (wake_from s now b)
      woken closed e = h
      woken half_open e = h
      woken open_ e =
          if_of TellsOf (reset_elapsed now b) _ _
            (λ elapsed. send-Tells b.health_ch b.state half_open _ refl h) (λ early. h)

  admit-Tells : (b : Breaker F) → TellsOf b → TellsOf (admit b).1
  unfolding admit
  admit-Tells b h = admitted_in b.state
    where
      admitted_in : (s : State) → TellsOf (admit_in s b).1
      admitted_in closed = h
      admitted_in open_ = h
      admitted_in half_open =
          if_of (λ (x : Admission × Breaker F). TellsOf x.1)
            (leb b.config.half_open_max_calls b.half_open_calls) _ _ (λ taken. h) (λ free. h)

  begin-Tells :
      (err : Option Err) (now : ℕ) (b : Breaker F) → TellsOf b → TellsOf (begin err now b).1
  unfolding begin
  begin-Tells none now b h = admit-Tells (wake now b) (wake-Tells now b h)
  begin-Tells (some e) now b h = h

module _ {F : Type 0} ⦃f : Float F⦄ where
  judge-Tells :
      (now total failures : ℕ) (b : Breaker F)
      → TellsOf b
      → TellsOf (judge now (total, failures, b))
  judge-Tells now total failures b h =
      if_of TellsOf (ltb total b.config.minimum_calls) _ _ (λ few. h)
        (λ enough.
          if_of TellsOf (f.le b.config.failure_rate_threshold (failure_rate failures total)) _ _
            (λ reached. to_open-Tells now b.state b h) (λ below. h))

  check-Tells : (now : ℕ) (b : Breaker F) → TellsOf b → TellsOf (check_failure_rate now b)
  unfolding check_failure_rate
  check-Tells now b h = checked b.state
    where
      checked : (s : State) → TellsOf (check_in s now b)
      checked closed =
          let (total, failures, c) = get_stats now b in
          judge-Tells now total failures c (Frame-Tells b c (stats-Frame now b) h)
      checked open_ = h
      checked half_open = h

  recorded-Tells :
      (ok : Bool) (now : ℕ) (b : Breaker F)
      → TellsOf b
      → TellsOf (check_failure_rate now (record_outcome ok now b))
  recorded-Tells ok now b h =
      check-Tells now (record_outcome ok now b)
        (Frame-Tells b (record_outcome ok now b) (record-Frame ok now b) h)

  probes-Tells : (now : ℕ) (b : Breaker F) → TellsOf b → TellsOf (judge_probes now b)
  probes-Tells now b h =
      if_of TellsOf (leb b.config.half_open_max_calls b.half_open_completed) _ _
        (λ all.
          if_of TellsOf
            (f.lt (failure_rate b.half_open_failures b.half_open_completed)
              b.config.failure_rate_threshold)
            _ _ (λ good. to_closed-Tells now b.state b h) (λ bad. to_open-Tells now b.state b h))
        (λ waiting. h)

  finish-Tells :
      (s : State) (err : Option Err) (now : ℕ) (b : Breaker F)
      → TellsOf b
      → TellsOf (finish s err now b)
  unfolding finish on_success on_failure
  finish-Tells closed none now b h = recorded-Tells true now b h
  finish-Tells open_ none now b h = recorded-Tells true now b h
  finish-Tells half_open none now b h =
      probes-Tells now (record b { half_open_completed = u64 (b.half_open_completed + 1) }) h
  finish-Tells closed (some e) now b h = recorded-Tells false now b h
  finish-Tells open_ (some e) now b h = recorded-Tells false now b h
  finish-Tells half_open (some e) now b h =
      to_open-Tells now b.state
        (record b {
          half_open_failures = u64 (b.half_open_failures + 1);
          half_open_completed = u64 (b.half_open_completed + 1);
        })
        h

  Step-Tells :
      (by_hand : Bool) (now : ℕ) (y z : System F)
      → Step by_hand now y z
      → TellsOf y.breaker
      → TellsOf z.breaker
  unfolding state_of reset
  Step-Tells by_hand now y _ (enter e) h =
      subst (λ r. TellsOf r.1) e (begin-Tells none now y.breaker h)
  Step-Tells by_hand now y _ (turn_away err e) h =
      subst (λ r. TellsOf r.1) e (begin-Tells err now y.breaker h)
  Step-Tells by_hand now y _ (leave before after s err e) h = finish-Tells s err now y.breaker h
  Step-Tells by_hand now y _ (crash before after s e) h = h
  Step-Tells by_hand now y _ query h = wake-Tells now y.breaker h
  Step-Tells by_hand now y _ (by_reset e) h = to_closed-Tells now y.breaker.state y.breaker h

  Steps-Tells :
      (by_hand : Bool) (limit : ℕ) (y z : System F)
      → Steps by_hand limit y z
      → TellsOf y.breaker
      → TellsOf z.breaker
  Steps-Tells by_hand limit y _ done h = h
  Steps-Tells by_hand limit y _ (more {x} {y = m} {z} {now} steps le step) h =
      Step-Tells by_hand now m z step (Steps-Tells by_hand limit y m steps h)

  -- After Health was called on a new breaker, and while nobody receives, the channel never holds more
  -- than ten events, and as long as it has room for another, the newest one in it, if there is one,
  -- reports the state that the breaker is in, however calls, panics, queries and resets interleave.
  pub channel-Tells :
      (cfg : Config F) (by_hand : Bool) (limit : ℕ) (z : System F)
      → Steps by_hand limit (record { breaker = (health (new cfg)).1; running = [] }) z
      → Tells z.breaker.health_ch z.breaker.state
  unfolding health new
  channel-Tells cfg by_hand limit z steps =
      Steps-Tells by_hand limit (record { breaker = (health (new cfg)).1; running = [] }) z steps
        (omega arith, inr (inl refl))
