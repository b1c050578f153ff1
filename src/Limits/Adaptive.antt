-- ===== src/Limits/Adaptive.antt =====
-- adaptive_concurrency.go: a concurrency limit that follows the round-trip time. `enter` and
-- `leave` are the two atomic additions of `Execute`, `update` its last step.
use resile.Errors.{shed_load, Err, sentinel}
use resile.Float.{Float}
use resile.Channel.{send_event}
use resile.Limits.Health.{HealthState, healthy, degraded, StateEvent}
use resile.Prelude.{
  ℕ, ◌*◌, ℤ, pos, negsuc, ◌+ℤ◌, ◌-ℤ◌, sub_ℕ, ltb_ℤ, Bool, true, false, Option, none, some, List, [],
  String, ◌==◌, if◌then◌else◌,
}

-- int32 and time.Duration fields are integers.
pub record AdaptiveLimiter (F : Type 0) : Type 0 where
  pub current_concurrency : ℤ
  pub max_concurrency : ℤ
  pub min_baseline_rtt : ℤ
  pub rtt_ewma : ℤ
  pub min_concurrency : ℤ
  pub limit_scaling : F
  pub threshold : F
  pub alpha : F
  pub last_decay_update : ℕ
  pub decay_interval : ℤ
  pub prev_max_concurrency : ℤ
  pub health_ch : Option (List StateEvent)

-- int32 addition wraps.
unfoldable pub i32 : ℤ → ℤ
unfolding ◌+ℤ◌ ◌-ℤ◌
i32 z =
    if ltb_ℤ (pos 2147483647) z
    then z -ℤ pos 4294967296
    else if ltb_ℤ z (negsuc 2147483647)
    then z +ℤ pos 4294967296
    else z

abbrev pub is_zero : ℤ → Bool
is_zero (pos n) = n == 0
is_zero (negsuc n) = false

module _ {F : Type 0} ⦃f : Float F⦄ where
  unfoldable pub new_adaptive_limiter : ℕ → AdaptiveLimiter F
  new_adaptive_limiter now = record {
    current_concurrency = pos 0;
    max_concurrency = pos 10;
    min_baseline_rtt = pos 0;
    rtt_ewma = pos 0;
    min_concurrency = pos 1;
    limit_scaling = f.ratio 8 10;
    threshold = f.ratio 15 10;
    alpha = f.ratio 1 10;
    last_decay_update = now;
    decay_interval = pos (60 * 1000000000);
    prev_max_concurrency = pos 10;
    health_ch = none;
  }

module _ {F : Type 0} where
  abbrev pub add_current : ℤ → AdaptiveLimiter F → AdaptiveLimiter F
  add_current k al = record al { current_concurrency = i32 (al.current_concurrency +ℤ k) }

  -- Admission: the error, if the limit is passed, and the limiter that counts the call.
  unfoldable pub enter : AdaptiveLimiter F → Option Err × AdaptiveLimiter F
  unfolding i32
  enter al =
      let al' = add_current (pos 1) al in
      (
        if ltb_ℤ al'.max_concurrency al'.current_concurrency
            then some (sentinel shed_load)
            else none,
        al',
      )

  -- The deferred addition.
  unfoldable pub leave : AdaptiveLimiter F → AdaptiveLimiter F
  unfolding i32
  leave al = add_current (negsuc 0) al

  unfoldable pub emit_state_event : HealthState → String → ℕ → AdaptiveLimiter F → AdaptiveLimiter F
  emit_state_event s msg now al = record al {
    health_ch =
        send_event
          (record { component = "adaptive-limiter"; state = s; timestamp = now; message = msg })
          al.health_ch;
  }

  unfoldable pub health : AdaptiveLimiter F → List StateEvent × AdaptiveLimiter F
  health al = elim al.health_ch [
    | none ↦ ([], record al { health_ch = some [] })
    | some q ↦ (q, al)
  ]

module _ {F : Type 0} ⦃f : Float F⦄ where
  abbrev pub event_for : Bool → ℕ → AdaptiveLimiter F → AdaptiveLimiter F
  event_for true now al =
      if f.le (f.of_int al.max_concurrency)
        (f.mul (f.of_int al.prev_max_concurrency) (f.ratio 5 10))
      then emit_state_event degraded "capacity decreased" now al
      else al
  event_for false now al =
      if ltb_ℤ al.prev_max_concurrency al.max_concurrency
      then emit_state_event healthy "capacity increased" now al
      else al

  unfoldable pub check_and_emit_event : Bool → ℕ → AdaptiveLimiter F → AdaptiveLimiter F
  unfolding emit_state_event
  check_and_emit_event decreased now al = record (event_for decreased now al) {
    prev_max_concurrency = al.max_concurrency;
  }

  unfoldable pub decay : ℕ → AdaptiveLimiter F → AdaptiveLimiter F
  decay now al =
      if ltb_ℤ al.decay_interval (sub_ℕ now al.last_decay_update)
      then record al {
        min_baseline_rtt = f.trunc (f.mul (f.of_int al.min_baseline_rtt) (f.ratio 105 100));
        last_decay_update = now;
      }
      else al

  unfoldable pub measure : ℤ → AdaptiveLimiter F → AdaptiveLimiter F
  measure rtt al = record al {
    min_baseline_rtt = if ltb_ℤ rtt al.min_baseline_rtt then rtt else al.min_baseline_rtt;
    rtt_ewma = f.trunc (
        f.add (f.mul (f.sub (f.ratio 1 1) al.alpha) (f.of_int al.rtt_ewma))
          (f.mul al.alpha (f.of_int rtt)));
  }

  unfoldable pub decreased_limit : AdaptiveLimiter F → ℤ
  decreased_limit al =
      let new_max = f.mul (f.of_int al.max_concurrency) al.limit_scaling in
      if f.lt new_max (f.of_int al.min_concurrency)
      then f.trunc32 (f.of_int al.min_concurrency)
      else f.trunc32 new_max

  -- Additive increase, multiplicative decrease.
  unfoldable pub adjust : ℕ → AdaptiveLimiter F → AdaptiveLimiter F
  unfolding check_and_emit_event i32 decreased_limit
  adjust now al =
      if f.lt (f.of_int al.rtt_ewma) (f.mul (f.of_int al.min_baseline_rtt) al.threshold)
      then check_and_emit_event false now
          (record al { max_concurrency = i32 (al.max_concurrency +ℤ pos 1) })
      else check_and_emit_event true now (record al { max_concurrency = decreased_limit al })

  unfoldable pub update : ℤ → ℕ → AdaptiveLimiter F → AdaptiveLimiter F
  unfolding adjust measure decay
  update rtt now al =
      if is_zero al.min_baseline_rtt
      then record al { min_baseline_rtt = rtt; rtt_ewma = rtt }
      else adjust now (measure rtt (decay now al))
