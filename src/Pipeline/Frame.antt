-- ===== src/Pipeline/Frame.antt =====
-- What the simpler middlewares of retry.go pass on of what is inside them.
use resile.Context.{Context, ctx_err}
use resile.Errors.{Err, sentinel, deadline_exceeded, panic_error}
use resile.Limits.Bulkhead
use resile.Limits.Bulkhead.{Bulkhead, PriorityBulkhead, Entry, refused, entered}
use resile.Pipeline.Config.{Fallback, err_fallback, value_fallback}
use resile.Pipeline.World.{Event, before_attempt, on_bulkhead_full, World, DoAction, tell}
use resile.Pipeline.Middleware.{
  is_full, with_config, tell_if, release_bulkhead, in_bulkhead, through_bulkhead, through_deadline,
  through_instrumenter, after_attempt_of, recovered, fall_back,
}
use resile.Retry.Loop.{RetryState, Outcome, returned, panicked}
use resile.Prelude.{
  ℕ, ℤ, leb_ℤ, ◌≡◌, refl, Bool, true, false, Option, none, some, if◌then◌else◌, arith,
}

-- The caller's own state, the number of attempts and the fallback are the same.
abbrev pub Quiet : {F V U : Type 0} → World F V U → World F V U → Type 0
Quiet v w =
    (w.user ≡ v.user)
    × (w.config.max_attempts ≡ v.config.max_attempts)
    × (w.config.fallback ≡ v.config.fallback)

module _ {F V U : Type 0} where
  pub tell_if-Quiet : (told : Bool) (e : Event) (w : World F V U) → Quiet w (tell_if told e w)
  tell_if-Quiet told e w = ground arith

-- What a run from a world may come to, such that quiet steps before and behind it do not matter.
pub record IsFrame {F V U : Type 0} (Covers : World F V U → Outcome × World F V U → Type 0)
    : Type 0 where
  pub refusal : (v w : World F V U) (e : Err) → Quiet v w → Covers v (returned (some e), w)
  pub ahead : (u v : World F V U) (x : Outcome × World F V U) → Quiet u v → Covers v x → Covers u x
  pub after : (u v w : World F V U) (r : Outcome) → Covers u (r, v) → Quiet v w → Covers u (r, w)
  pub calmed :
      (u v : World F V U) (x : ℕ)
      → Covers u (panicked x, v)
      → Covers u (returned (some (panic_error x)), v)
  pub replaced :
      (u v : World F V U) (g : Context → Err → Option Err) (ctx : Context) (e : Err)
      → v.config.fallback ≡ some (err_fallback g)
      → Covers u (returned (some e), v)
      → Covers u (returned (g ctx e), v)

module _ {F V U : Type 0} (Covers : World F V U → Outcome × World F V U → Type 0)
    (frame : IsFrame Covers) where
  abbrev pub Affords : DoAction F V U → Type 0
  Affords act = (ctx : Context) (st : RetryState) (w : World F V U) → Covers w (act ctx st w)

  pub either :
      (b : Bool) (u : World F V U) (x y : Outcome × World F V U)
      → Covers u x
      → Covers u y
      → Covers u (if b then x else y)
  either true u x y h k = h
  either false u x y h k = k

  module _ (next : DoAction F V U) (p : Affords next) (ctx : Context) (st : RetryState) where
    in_bulkhead-Affords :
        (u w : World F V U) (entry : Entry) → Quiet u w → Covers u (in_bulkhead next ctx st w entry)
    in_bulkhead-Affords u w (refused e) q = frame.refusal u w e q
    in_bulkhead-Affords u w entered q =
        let (r, v) = next ctx st w in
        frame.after u v (release_bulkhead v) r (frame.ahead u w (r, v) q (p ctx st w))
          (refl, refl, refl)

    pub through_bulkhead-Affords :
        (w : World F V U) (o : Option Bulkhead) → Covers w (through_bulkhead next ctx st w o)
    through_bulkhead-Affords w none = p ctx st w
    through_bulkhead-Affords w (some b) =
        let (entry, b') = Bulkhead.enter w.takes_slot (ctx_err ctx w.clock) b in
        let inner = with_config (λ c. record c { bulkhead = some b' }) w in
        let (r, v) = in_bulkhead next ctx st inner entry in
        frame.after w v (tell_if (is_full r) (on_bulkhead_full st) v) r
          (in_bulkhead-Affords w inner entry (refl, refl, refl))
          (tell_if-Quiet (is_full r) (on_bulkhead_full st) v)

    pub through_deadline-Affords :
        (w : World F V U) (o : Option ℤ) → Covers w (through_deadline next ctx st w o)
    through_deadline-Affords w none = p ctx st w
    through_deadline-Affords w (some left) =
        either (leb_ℤ left w.config.min_deadline_threshold) w
          (returned (some (sentinel deadline_exceeded)), w) (next ctx st w)
          (frame.refusal w w (sentinel deadline_exceeded) (refl, refl, refl)) (p ctx st w)

    after_attempt_of-Affords :
        (u v : World F V U) (r : Outcome) → Covers u (r, v) → Covers u (after_attempt_of st (r, v))
    after_attempt_of-Affords u v (returned e) h =
        frame.after u v (after_attempt_of st (returned e, v)).1 (returned e) h (refl, refl, refl)
    after_attempt_of-Affords u v (panicked x) h = h

    pub through_instrumenter-Affords :
        (w : World F V U) (o : Option (Context → RetryState → Context))
        → Covers w (through_instrumenter next ctx st w o)
    through_instrumenter-Affords w none = p ctx st w
    through_instrumenter-Affords w (some start) =
        let told = tell (before_attempt st) w in
        let (r, v) = next (start ctx st) st told in
        after_attempt_of-Affords w v r
          (frame.ahead w told (r, v) (refl, refl, refl) (p (start ctx st) st told))

  pub recovered-Affords :
      (u v : World F V U) (r : Outcome) → Covers u (r, v) → Covers u (recovered (r, v))
  recovered-Affords u v (returned e) h = h
  recovered-Affords u v (panicked x) h = frame.calmed u v x h

  pub fall_back-Affords :
      (ctx : Context) (o : Option (Fallback V)) (u v : World F V U) (r : Outcome)
      → v.config.fallback ≡ o
      → Covers u (r, v)
      → Covers u (fall_back ctx o (r, v))
  fall_back-Affords ctx (some (err_fallback g)) u v (returned (some e)) q h =
      frame.replaced u v g ctx e q h
  fall_back-Affords ctx (some (err_fallback g)) u v (returned none) q h = h
  fall_back-Affords ctx (some (err_fallback g)) u v (panicked x) q h = h
  fall_back-Affords ctx (some (value_fallback g)) u v r q h = h
  fall_back-Affords ctx none u v r q h = h
