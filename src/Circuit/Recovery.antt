-- ===== src/Circuit/Recovery.antt =====
-- How a breaker of circuit/breaker.go closes after it was open: by probes in their own half-open
-- period, or by late ones.
use resile.Circuit.State.{State, closed, open_, half_open, Breaker}
use resile.Circuit.Window.{u64}
use resile.Circuit.Breaker.{
  Admission, refused, admitted, reset_elapsed, begin, finish, failure_rate,
}
use resile.Circuit.Machine.{finish_failed_probe, finish_good_probe}
use resile.Errors.{Err}
use resile.Float.{Float}
use resile.Prelude.{
  ℕ, zero, suc, ◌+◌, ◌<◌, ◌≡◌, refl, ap, ◌∙◌, true, Option, none, some, List, [], ◌∷◌, length,
  arith,
}

module _ {F : Type 0} where
  begin_probe :
      (now : ℕ) (b : Breaker F)
      → b.state ≡ half_open
      → b.half_open_calls < b.config.half_open_max_calls
      → b.config.half_open_max_calls < 18446744073709551616
      → begin none now b
        ≡ (admitted half_open, record b { half_open_calls = b.half_open_calls + 1 })
  unfolding begin
  begin_probe now b e h small = ground arith

  begin_woken :
      (now : ℕ) (b : Breaker F)
      → b.state ≡ open_
      → reset_elapsed now b ≡ true
      → 0 < b.config.half_open_max_calls
      → let (a, c) = begin none now b in
        (a ≡ admitted half_open)
        × (c.state ≡ half_open)
        × (c.config ≡ b.config)
        × (c.half_open_calls ≡ 1)
        × (c.half_open_completed ≡ 0)
        × (c.half_open_failures ≡ 0)
  unfolding begin
  begin_woken now b e late h = ground arith

module _ {F : Type 0} ⦃f : Float F⦄ where
  -- The ends of n probes that succeed.
  abbrev pub good_probes : ℕ → ℕ → Breaker F → Breaker F
  good_probes zero now b = b
  good_probes (suc n) now b = good_probes n now (finish half_open none now b)

  -- What the end of a good probe changes while others are still missing.
  record Counts (b c : Breaker F) : Type 0 where
    config : c.config ≡ b.config
    state : c.state ≡ b.state
    failed : c.half_open_failures ≡ b.half_open_failures
    completed : c.half_open_completed ≡ b.half_open_completed + 1

  finish-Counts :
      (now : ℕ) (b : Breaker F)
      → b.half_open_completed + 1 < b.config.half_open_max_calls
      → b.config.half_open_max_calls < 18446744073709551616
      → Counts b (finish half_open none now b)
  finish-Counts now b h small =
      let (config, calls, failed, completed, state) = finish_good_probe now b in
      record { config = config; state = ground arith; failed = failed; completed = omega arith }

  good_probes-closed :
      (n now : ℕ) (b : Breaker F)
      → b.half_open_completed + suc n ≡ b.config.half_open_max_calls
      → b.config.half_open_max_calls < 18446744073709551616
      → f.lt
          (failure_rate b.half_open_failures b.config.half_open_max_calls)
          b.config.failure_rate_threshold
        ≡ true
      → (good_probes (suc n) now b).state ≡ closed
  good_probes-closed zero now b e small low =
      let (config, calls, failed, completed, state) = finish_good_probe now b in
      let last : u64 (b.half_open_completed + 1) ≡ b.config.half_open_max_calls = omega arith in
      state ∙ rw last (ground arith)
  good_probes-closed (suc n) now b e small low =
      let c = finish half_open none now b in
      let v = finish-Counts now b (omega arith) small in
      good_probes-closed n now c
        (omega (arith, v.completed, ap (λ t. t.half_open_max_calls) v.config)) (rw v.config small)
        (rw (v.failed, v.config) low)

  -- A breaker whose half-open period has its n + 2 probes under way, one of which fails: it opens,
  -- and if one failure in n + 2 is below the threshold, the late successes of the other probes close
  -- it at once, at the very instant at which it opened, and no time-out has passed.
  pub open_closed_by_late_probes :
      (n now : ℕ) (e : Err) (b : Breaker F)
      → b.half_open_completed ≡ 0
      → b.half_open_failures ≡ 0
      → b.config.half_open_max_calls ≡ suc (suc n)
      → suc (suc n) < 18446744073709551616
      → f.lt (failure_rate 1 (suc (suc n))) b.config.failure_rate_threshold ≡ true
      → let tripped = finish half_open (some e) now b in
        (tripped.state ≡ open_)
        × (tripped.opened_at ≡ now)
        × ((good_probes (suc n) now tripped).state ≡ closed)
  open_closed_by_late_probes n now e b none_done none_failed max small low =
      let (state, at, config, calls, failed, completed) = finish_failed_probe e now b in
      let tripped = finish half_open (some e) now b in
      let one : tripped.half_open_failures ≡ 1 = failed ∙ ap (λ k. u64 (k + 1)) none_failed in
      let again : tripped.config.half_open_max_calls ≡ suc (suc n) =
        ap (λ c. c.half_open_max_calls) config ∙ max in
      (
        state,
        at,
        good_probes-closed n now tripped (omega arith) (rw again small)
            (rw (one, again, config) low),
      )

  -- Calls one after the other, each given by the instants at which it asks and at which its action
  -- returns without an error; nothing where one of them is refused.
  abbrev returns : ℕ → Admission × Breaker F → Option (Breaker F)
  returns now (admitted s, b) = some (finish s none now b)
  returns now (refused e, b) = none

  abbrev pub calls_succeed : List (ℕ × ℕ) → Breaker F → Option (Breaker F)
  calls_succeed [] b = some b
  calls_succeed ((asks, ends) ∷ ts) b = elim (returns ends (begin none asks b)) [
    | none ↦ none
    | some c ↦ calls_succeed ts c
  ]

  abbrev Closes : List (ℕ × ℕ) → Breaker F → Type 0
  Closes ts b = (c : Breaker F) × (calls_succeed ts b ≡ some c) × (c.state ≡ closed)

  admitted-Closes :
      (asks ends : ℕ) (ts : List (ℕ × ℕ)) (s : State) (b c : Breaker F)
      → begin none asks b ≡ (admitted s, c)
      → Closes ts (finish s none ends c)
      → Closes ((asks, ends) ∷ ts) b
  admitted-Closes asks ends ts s b c asked (d, e, shut) = (
    d,
    ap (λ x. elim (returns ends x) [ none ↦ none | some k ↦ calls_succeed ts k ]) asked ∙ e,
    shut,
  )

  -- Half-open, with as many probes done as were begun, and none of them failed.
  record IsHealing (b : Breaker F) (done : ℕ) : Type 0 where
    state : b.state ≡ half_open
    begun : b.half_open_calls ≡ done
    completed : b.half_open_completed ≡ done
    failed : b.half_open_failures ≡ 0

  probe-IsHealing :
      (now done : ℕ) (b c : Breaker F)
      → c.state ≡ half_open
      → c.config ≡ b.config
      → c.half_open_calls ≡ suc done
      → c.half_open_completed ≡ done
      → c.half_open_failures ≡ 0
      → suc done < b.config.half_open_max_calls
      → b.config.half_open_max_calls < 18446744073709551616
      → let d = finish half_open none now c in IsHealing d (suc done) × (d.config ≡ b.config)
  probe-IsHealing now done b c state config begun completed failed h small =
      let r = finish_good_probe now c in
      let few : suc done < c.config.half_open_max_calls = rw config h in
      (
        record {
          state = ground arith;
          begun = r.1 ∙ begun;
          completed = omega arith;
          failed = r.2 ∙ failed;
        },
        r.0 ∙ config,
      )

  healed :
      (ts : List (ℕ × ℕ)) (done now : ℕ) (b c : Breaker F)
      → c.state ≡ half_open
      → c.config ≡ b.config
      → c.half_open_calls ≡ suc done
      → c.half_open_completed ≡ done
      → c.half_open_failures ≡ 0
      → done + suc (length ts) ≡ b.config.half_open_max_calls
      → b.config.half_open_max_calls < 18446744073709551616
      → f.lt (failure_rate 0 b.config.half_open_max_calls) b.config.failure_rate_threshold ≡ true
      → Closes ts (finish half_open none now c)
  healed [] done now b c state config begun completed failed e small low = (
    finish half_open none now c,
    refl,
    good_probes-closed zero now c (rw (completed, config) e) (rw config small)
        (rw (failed, config) low),
  )
  healed ((asks, ends) ∷ ts) done now b c state config begun completed failed e small low =
      let d = finish half_open none now c in
      let (v, same) =
        probe-IsHealing now done b c state config begun completed failed (omega arith) small in
      let max = ap (λ k. k.half_open_max_calls) same in
      let asked = begin_probe asks d v.state (omega (arith, v.begun, max)) (rw same small) in
      admitted-Closes asks ends ts half_open d
        (record d { half_open_calls = d.half_open_calls + 1 }) asked
        (healed ts (suc done) ends b (record d { half_open_calls = d.half_open_calls + 1 }) v.state
          same (omega (arith, v.begun)) v.completed v.failed (omega arith) small low)

  -- A breaker that has been open for longer than its reset time-out, and asks for n + 1 probes:
  -- n + 1 calls, one after the other, that succeed, at whatever instants the later ones ask and
  -- return, are all admitted, and afterwards it is closed, if no failures at all are below the
  -- failure rate's threshold.
  pub calls_succeed-closed :
      (asks ends : ℕ) (ts : List (ℕ × ℕ)) (b : Breaker F)
      → b.state ≡ open_
      → reset_elapsed asks b ≡ true
      → b.config.half_open_max_calls ≡ suc (length ts)
      → suc (length ts) < 18446744073709551616
      → f.lt (failure_rate 0 (suc (length ts))) b.config.failure_rate_threshold ≡ true
      → (c : Breaker F) × (calls_succeed ((asks, ends) ∷ ts) b ≡ some c) × (c.state ≡ closed)
  calls_succeed-closed asks ends ts b e late max small low =
      let (asked, state, config, begun, completed, failed) =
        begin_woken asks b e late (omega (arith, max)) in
      let c = (begin none asks b).1 in
      admitted-Closes asks ends ts half_open b c (ap (λ a. (a, c)) asked) (
        healed ts 0 ends b c state config begun completed failed (omega (arith, max)) (rw max small)
          (rw max low))
