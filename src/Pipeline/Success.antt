-- ===== src/Pipeline/Success.antt =====
-- What the entry points of retry.go give where they give no error.
use resile.Context.{Context}
use resile.Errors.{Err}
use resile.Float.{Float}
use resile.Pipeline.Config.{Fallback, err_fallback, value_fallback, Config}
use resile.Pipeline.World.{World}
use resile.Pipeline.Compose.{execute}
use resile.Pipeline.Entry.{
  Result, gives, panics, ValueAction, storing, assign, result_of, value_or_fallback, config_do,
  do_state, policy_do,
}
use resile.Pipeline.Frame.{Quiet}
use resile.Pipeline.Options.{new}
use resile.Retry.Loop.{RetryState, Outcome, returned, panicked}
use resile.Prelude.{◌<◌, ◌≡◌, refl, sym, subst, Option, none, some, List}
use resile.Pipeline.Ending.{NotForErrors, Any, Good, Ends, Quiet-Good, execute-Ends}

-- What is said of a value that comes without an error.
abbrev pub Sound : {V : Type 0} → (V → Type 0) → Result V → Type 0
Sound P (gives v none) = P v
Sound P (gives v (some e)) = Unit {0}
Sound P (panics n) = Unit {0}

-- The action leaves the number of attempts and the fallback alone.
abbrev pub Modest : {F V U : Type 0} → ValueAction F V U → Type 0
Modest {F} {V} {U} action =
    (c : Context) (s : RetryState) (v : World F V (V × U))
    → ((action c s v).1.config.max_attempts ≡ v.config.max_attempts)
      × ((action c s v).1.config.fallback ≡ v.config.fallback)

abbrev Kept : {V U : Type 0} → (V → Type 0) → V × U → Type 0
Kept P x = P x.0

-- A fallback's values are as sound as the action's.
abbrev pub SoundFallback : {V : Type 0} → (V → Type 0) → Option (Fallback V) → Type 0
SoundFallback P none = Unit {0}
SoundFallback P (some (value_fallback g)) =
    (ctx : Context) (e : Err) → Sound P (gives (g ctx e).0 (g ctx e).1)
SoundFallback P (some (err_fallback g)) = ⊥

module _ {F V U : Type 0} (P : V → Type 0) (fb : Option (Fallback V)) where
  assign-Ends :
      (r : Result V) (v w : World F V (V × U))
      → Quiet (record v { user = w.user }) w
      → Sound P r
      → Good fb Any (Kept P) v
      → Ends fb Any (Kept P) (assign (r, w))
  assign-Ends (gives x none) v w q h g =
      (Quiet-Good fb Any (Kept P) (record v { user = w.user }) w q g, h)
  assign-Ends (gives x (some e)) v w q h g =
      Quiet-Good fb Any (Kept P) (record v { user = w.user }) w q g
  assign-Ends (panics n) v w q h g = Quiet-Good fb Any (Kept P) (record v { user = w.user }) w q g

  top-Sound :
      (ctx : Context) (o : Option (Fallback V)) (r : Outcome) (w : World F V (V × U))
      → SoundFallback P o
      → Ends fb Any (Kept P) (r, w)
      → Sound P (value_or_fallback ctx o (result_of (r, w))).0
  top-Sound ctx (some (value_fallback g)) (returned (some e)) w back h = back ctx e
  top-Sound ctx (some (value_fallback g)) (returned none) w back h = h.1
  top-Sound ctx (some (value_fallback g)) (panicked n) w back h = tt
  top-Sound ctx (some (err_fallback g)) r w back h = absurd back
  top-Sound ctx none (returned none) w back h = h.1
  top-Sound ctx none (returned (some e)) w back h = tt
  top-Sound ctx none (panicked n) w back h = tt

  Ends-fallback :
      (r : Outcome) (w : World F V (V × U)) → Ends fb Any (Kept P) (r, w) → w.config.fallback ≡ fb
  Ends-fallback (returned none) w h = h.0.1
  Ends-fallback (returned (some e)) w h = h.1
  Ends-fallback (panicked n) w h = h.1

module _ {F V U : Type 0} ⦃f : Float F⦄ (P : V → Type 0) where
  -- The run of an action whose value is kept: how it ends, and the fallback behind it.
  stored-Ends :
      (ctx : Context) (action : ValueAction F V U) (w : World F V (V × U))
      → 0 < w.config.max_attempts
      → Modest action
      → ((c : Context) (s : RetryState) (v : World F V (V × U)) → Sound P (action c s v).0)
      → NotForErrors w.config.fallback
      → Ends w.config.fallback Any (Kept P) (execute ctx (some (storing action)) none w)
  stored-Ends ctx action w some_attempt modest sound fit =
      let fb = w.config.fallback in
      execute-Ends fb Any (Kept P) fit ctx (storing action) w
        (λ c s u g.
          let (x, u') = action c s u in
          let (m, k) = modest c s u in assign-Ends P fb x u u' (refl, m, k) (sound c s u) g)
        (some_attempt, refl, tt)

  pub stored-Sound :
      (ctx : Context) (action : ValueAction F V U) (w : World F V (V × U))
      → 0 < w.config.max_attempts
      → Modest action
      → ((c : Context) (s : RetryState) (v : World F V (V × U)) → Sound P (action c s v).0)
      → NotForErrors w.config.fallback
      → Sound P (result_of (execute ctx (some (storing action)) none w)).0
  stored-Sound ctx action w some_attempt modest sound fit =
      let (r, v) = execute ctx (some (storing action)) none w in
      top-Sound P w.config.fallback ctx none r v tt
        (stored-Ends ctx action w some_attempt modest sound fit)

  -- Policy.Do, with one attempt at least, an action that leaves the number of attempts and the
  -- fallback alone, and no fallback or one for values: where it gives no error, its value is one that
  -- the action gave without an error, whatever the fallback would give and whatever middlewares there
  -- are, that of the fallback included: such a policy never falls back.
  pub policy_do-Sound :
      (ctx : Context) (action : ValueAction F V U) (w : World F V (V × U))
      → 0 < w.config.max_attempts
      → Modest action
      → ((c : Context) (s : RetryState) (v : World F V (V × U)) → Sound P (action c s v).0)
      → NotForErrors w.config.fallback
      → Sound P (policy_do ctx action w).0
  unfolding policy_do
  policy_do-Sound ctx action w some_attempt modest sound fit =
      stored-Sound ctx action w some_attempt modest sound fit

  config_do-Sound :
      (ctx : Context) (action : ValueAction F V U) (w : World F V (V × U))
      → 0 < w.config.max_attempts
      → Modest action
      → ((c : Context) (s : RetryState) (v : World F V (V × U)) → Sound P (action c s v).0)
      → SoundFallback P w.config.fallback
      → Sound P (config_do ctx action w).0
  unfolding config_do
  config_do-Sound ctx action w some_attempt modest sound back =
      let fb = w.config.fallback in
      let (r, v) = execute ctx (some (storing action)) none w in
      let h : Ends fb Any (Kept P) (r, v) =
        stored-Ends ctx action w some_attempt modest sound (fits fb back) in
      top-Sound P fb ctx v.config.fallback r v
        (subst (SoundFallback P) (sym (Ends-fallback P fb r v h)) back) h
    where
      fits : (o : Option (Fallback V)) → SoundFallback P o → NotForErrors o
      fits none b = tt
      fits (some (value_fallback g)) b = tt
      fits (some (err_fallback g)) b = absurd b

  -- DoState, with one attempt at least, an action that leaves the number of attempts and the fallback
  -- alone, and no fallback or one for values: where it gives no error, its value is one that the
  -- action or the fallback gave without an error, whatever middlewares there are, and never the zero
  -- value or what a failed attempt left.
  pub do_state-Sound :
      (opts : List (Config F V → Config F V)) (zero_value : V) (ctx : Context)
      (action : ValueAction F V U) (w : World F V (V × U))
      → 0 < (new opts).max_attempts
      → Modest action
      → ((c : Context) (s : RetryState) (v : World F V (V × U)) → Sound P (action c s v).0)
      → SoundFallback P (new opts).fallback
      → Sound P (do_state opts zero_value ctx action w).0
  unfolding do_state
  do_state-Sound opts zero_value ctx action w =
      config_do-Sound ctx action (record w { config = new opts; user = (zero_value, w.user.1) })
