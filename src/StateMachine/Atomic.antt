-- ===== src/StateMachine/Atomic.antt =====
-- The state and the data of statemachine.go after an event.
use resile.Context.{Context}
use resile.Float.{Float}
use resile.Pipeline.World.{World}
use resile.Pipeline.Compose.{execute}
use resile.Pipeline.Entry.{Result, gives, panics, storing, result_of}
use resile.Pipeline.Options.{new}
use resile.Pipeline.Success.{Sound, Modest, stored-Sound}
use resile.Pipeline.Ending.{NotForErrors}
use resile.Retry.Loop.{RetryState, Outcome, returned, panicked}
use resile.StateMachine.Handle.{Update, StateMachine, or_zero, on_event, outcome_of, settle, handle}
use resile.Prelude.{◌<◌, ◌≡◌, refl, subst, sym, none, some}

module _ {S D E F U : Type 0} ⦃f : Float F⦄ (zero_update : Update S D) (event : E)
    (sm : StateMachine S D E F U) (P : Update S D → Type 0) where
  -- What a transition of this event gives without an error has P.
  abbrev pub Gives : Type 0
  Gives =
      (c : Context) (s : RetryState) (v : World F (Update S D) (Update S D × U)) (u : Update S D)
      → (sm.transition c sm.state sm.data_ event s v).0 ≡ gives u none
      → P u

  abbrev pub Advanced : Outcome × StateMachine S D E F U → Type 0
  Advanced (returned none, t) = P (t.state, t.data_)
  Advanced (returned (some e), t) = t ≡ sm
  Advanced (panicked n, t) = t ≡ sm

  advanced : (r : Result (Update S D)) → Sound P r → Advanced (outcome_of r, settle r sm)
  advanced (gives v none) h = h
  advanced (gives v (some e)) h = refl
  advanced (panics n) h = refl

  or_zero-Sound :
      (r : Result (Update S D)) (w : World F (Update S D) (Update S D × U))
      → ((u : Update S D) → r ≡ gives u none → P u)
      → Sound P (or_zero zero_update (r, w)).0
  or_zero-Sound (gives v none) w h = h v refl
  or_zero-Sound (gives v (some e)) w h = tt
  or_zero-Sound (panics n) w h = tt

  or_zero-world :
      (r : Result (Update S D)) (w : World F (Update S D) (Update S D × U))
      → (or_zero zero_update (r, w)).1 ≡ w
  or_zero-world (gives v none) w = refl
  or_zero-world (gives v (some e)) w = refl
  or_zero-world (panics n) w = refl

  -- With one attempt at least, a transition that leaves the number of attempts and the fallback alone,
  -- and no fallback for errors: an event that ends without an error has moved the state machine to a
  -- state and data that a transition from the old ones gave, together, without an error; after one
  -- that ends with an error or a panic it is what it was.
  pub handle-Advanced :
      (ctx : Context) (w : World F (Update S D) (Update S D × U))
      → 0 < (new sm.options).max_attempts
      → NotForErrors (new sm.options).fallback
      → Modest (λ c s v. sm.transition c sm.state sm.data_ event s v)
      → Gives
      → let r = handle zero_update ctx event sm w in Advanced (r.0, r.1)
  unfolding handle
  handle-Advanced ctx w some_attempt fit modest good =
      let start = record w { config = new sm.options; user = (zero_update, w.user.1) } in
      let act = on_event zero_update event sm in
      let (q, v) = result_of (execute ctx (some (storing act)) none start) in
      advanced q (
        stored-Sound P ctx act start some_attempt
          (λ c s u.
            let (r, u') = sm.transition c sm.state sm.data_ event s u in
            subst
              (λ x.
                (x.config.max_attempts ≡ u.config.max_attempts)
                × (x.config.fallback ≡ u.config.fallback))
              (sym (or_zero-world r u')) (modest c s u))
          (λ c s u.
            let (r, u') = sm.transition c sm.state sm.data_ event s u in
            or_zero-Sound r u' (good c s u))
          fit)
