-- ===== src/Pipeline/Framed.antt =====
-- What the guarded middlewares of retry.go, and those of chaos/injector.go, pass on of what is inside
-- them.
use resile.Context.{Context, ctx_err, done_at, wait_until}
use resile.Circuit.Breaker
use resile.Circuit.Breaker.{Admission}
use resile.Circuit.State.{State, Breaker}
use resile.Errors.{Err, sentinel, rate_limit_exceeded}
use resile.Float.{Float}
use resile.Limits.Adaptive
use resile.Limits.Adaptive.{AdaptiveLimiter}
use resile.Limits.Bulkhead
use resile.Limits.Bulkhead.{PriorityBulkhead, Entry, refused, entered}
use resile.Limits.Rate
use resile.Limits.Rate.{RateLimiter}
use resile.Pipeline.Config.{Chaos}
use resile.Pipeline.World.{on_bulkhead_full, on_rate_limit_exceeded, World, DoAction}
use resile.Pipeline.Middleware.{
  is_full_or_shed, with_config, tell_if, release_priority_bulkhead, in_priority_bulkhead,
}
use resile.Pipeline.Guarded.{
  through_priority_bulkhead, if_token, through_rate_limiter, limited, in_limiter,
  through_adaptive_limiter, finished, in_breaker, through_breaker,
}
use resile.Pipeline.Attempt.{roll, or_error, or_inject, delayed_by, inject, through_chaos}
use resile.Pipeline.Frame.{Quiet, tell_if-Quiet, IsFrame, Affords, either}
use resile.Retry.Loop.{RetryState, Outcome, returned, panicked}
use resile.Prelude.{
  ◌∙◌, ℕ, ◌+◌, pos, pos_part, ltb_ℤ, refl, Bool, true, false, Option, none, some, arith,
}

module _ {F V U : Type 0} ⦃f : Float F⦄ where
  roll-Quiet : (b : Bool) (p : F) (w : World F V U) → Quiet w (roll b p w).1
  roll-Quiet b p w = ground arith

  module _ (Covers : World F V U → Outcome × World F V U → Type 0) (frame : IsFrame Covers) where
    module _ (next : DoAction F V U) (p : Affords Covers frame next) (ctx : Context)
        (st : RetryState) where
      in_priority_bulkhead-Affords :
          (u w : World F V U) (entry : Entry)
          → Quiet u w
          → Covers u (in_priority_bulkhead next ctx st w entry)
      in_priority_bulkhead-Affords u w (refused e) q = frame.refusal u w e q
      in_priority_bulkhead-Affords u w entered q =
          let (r, v) = next ctx st w in
          frame.after u v (release_priority_bulkhead v) r (frame.ahead u w (r, v) q (p ctx st w))
            (refl, refl, refl)

      pub through_priority_bulkhead-Affords :
          (w : World F V U) (o : Option (PriorityBulkhead F))
          → Covers w (through_priority_bulkhead next ctx st w o)
      through_priority_bulkhead-Affords w none = p ctx st w
      through_priority_bulkhead-Affords w (some b) =
          let (entry, b') = Bulkhead.enter_priority w.takes_slot ctx w.clock b in
          let inner = with_config (λ c. record c { priority_bulkhead = some b' }) w in
          let (r, v) = in_priority_bulkhead next ctx st inner entry in
          frame.after w v (tell_if (is_full_or_shed r) (on_bulkhead_full st) v) r
            (in_priority_bulkhead-Affords w inner entry (refl, refl, refl))
            (tell_if-Quiet (is_full_or_shed r) (on_bulkhead_full st) v)

      if_token-Affords :
          (u w : World F V U) (ok : Bool) → Quiet u w → Covers u (if_token next ctx st w ok)
      if_token-Affords u w true q = frame.ahead u w (next ctx st w) q (p ctx st w)
      if_token-Affords u w false q =
          frame.after u w (if_token next ctx st w false).1
            (returned (some (sentinel rate_limit_exceeded)))
            (frame.refusal u w (sentinel rate_limit_exceeded) q)
            (tell_if-Quiet true (on_rate_limit_exceeded st) w)

      pub through_rate_limiter-Affords :
          (w : World F V U) (o : Option (RateLimiter F))
          → Covers w (through_rate_limiter next ctx st w o)
      through_rate_limiter-Affords w none = p ctx st w
      through_rate_limiter-Affords w (some rl) =
          let (ok, rl') = Rate.acquire w.clock rl in
          if_token-Affords w (with_config (λ c. record c { rate_limiter = some rl' }) w) ok
            (refl, refl, refl)

      limited-Affords :
          (u v : World F V U) (start : ℕ) (r : Outcome)
          → Covers u (r, v)
          → Covers u (limited start (r, v))
      limited-Affords u v start (returned e) h =
          frame.after u v (limited start (returned e, v)).1 (returned e) h (refl, refl, refl)
      limited-Affords u v start (panicked x) h =
          frame.after u v (limited start (panicked x, v)).1 (panicked x) h (refl, refl, refl)

      in_limiter-Affords :
          (u w : World F V U) (o : Option Err) → Quiet u w → Covers u (in_limiter next ctx st w o)
      in_limiter-Affords u w (some e) q =
          frame.after u w (in_limiter next ctx st w (some e)).1 (returned (some e))
            (frame.refusal u w e q) (refl, refl, refl)
      in_limiter-Affords u w none q =
          let (r, v) = next ctx st w in
          limited-Affords u v w.clock r (frame.ahead u w (r, v) q (p ctx st w))

      pub through_adaptive_limiter-Affords :
          (w : World F V U) (o : Option (AdaptiveLimiter F))
          → Covers w (through_adaptive_limiter next ctx st w o)
      through_adaptive_limiter-Affords w none = p ctx st w
      through_adaptive_limiter-Affords w (some al) =
          let (refusal, al') = Adaptive.enter al in
          in_limiter-Affords w (with_config (λ c. record c { adaptive_limiter = some al' }) w)
            refusal (refl, refl, refl)

      finished-Affords :
          (u v : World F V U) (s : State) (r : Outcome)
          → Covers u (r, v)
          → Covers u (finished s (r, v))
      finished-Affords u v s (returned e) h =
          frame.after u v (finished s (returned e, v)).1 (returned e) h (refl, refl, refl)
      finished-Affords u v s (panicked x) h = h

      in_breaker-Affords :
          (u w : World F V U) (a : Admission) → Quiet u w → Covers u (in_breaker next ctx st w a)
      in_breaker-Affords u w (Admission.refused e) q = frame.refusal u w e q
      in_breaker-Affords u w (Admission.admitted s) q =
          let (r, v) = next ctx st w in
          finished-Affords u v s r (frame.ahead u w (r, v) q (p ctx st w))

      pub through_breaker-Affords :
          (w : World F V U) (o : Option (Breaker F)) → Covers w (through_breaker next ctx st w o)
      through_breaker-Affords w none = p ctx st w
      through_breaker-Affords w (some b) =
          let (admission, b') = Breaker.begin (ctx_err ctx w.clock) w.clock b in
          in_breaker-Affords w (with_config (λ c. record c { circuit_breaker = some b' }) w)
            admission (refl, refl, refl)

      or_error-Affords :
          (u w : World F V U) (x : F) (o : Option Err)
          → Quiet u w
          → Covers u (or_error x next ctx st w o)
      or_error-Affords u w x none q = frame.ahead u w (next ctx st w) q (p ctx st w)
      or_error-Affords u w x (some e) q =
          let (hit, v) = roll true x w in
          let drawn : Quiet w v = roll-Quiet true x w in
          let both : Quiet u v = (drawn.0 ∙ q.0, drawn.1 ∙ q.1, drawn.2 ∙ q.2) in
          either Covers frame hit u (returned (some e), v) (next ctx st v)
            (frame.refusal u v e both) (frame.ahead u v (next ctx st v) both (p ctx st v))

      delayed_by-Affords :
          (c : Chaos F) (u w : World F V U) (o : Option Err) (t : ℕ)
          → Quiet u w
          → Covers u (delayed_by c next ctx st w (o, t))
      delayed_by-Affords c u w none t q =
          or_error-Affords u (record w { clock = t }) c.error_probability c.injected_error q
      delayed_by-Affords c u w (some e) t q = frame.refusal u (record w { clock = t }) e q

      pub through_chaos-Affords :
          (w : World F V U) (o : Option (Chaos F)) → Covers w (through_chaos next ctx st w o)
      unfolding inject
      through_chaos-Affords w none = p ctx st w
      through_chaos-Affords w (some c) =
          let matters = ltb_ℤ (pos 0) c.latency_duration in
          let (slow, v) = roll matters c.latency_probability w in
          let drawn : Quiet w v = roll-Quiet matters c.latency_probability w in
          let (e, t) = wait_until v.clock (v.clock + pos_part c.latency_duration) (done_at ctx) in
          either Covers frame slow w (delayed_by c next ctx st v (e, t)) (or_inject c next ctx st v)
            (delayed_by-Affords c w v e t drawn)
            (or_error-Affords w v c.error_probability c.injected_error drawn)
