-- ===== src/Hedging/Answer.antt =====
-- What the hedged entry points of retry.go give where they give no error.
use resile.Context.{Context}
use resile.Errors.{Err}
use resile.Float.{Float}
use resile.Hedging.Loop.{Phase, waiting, ended, initial, turn}
use resile.Hedging.Race.{
  Move, hedged_effects, race_hedged, or_zero, HedgedAction, storing_once, hedged_fallback, value_of,
  config_do_hedged, do_state_hedged,
}
use resile.Hedging.Stored.{IsGiven, IsSound, IsRacer, Kept, Stored, Told}
use resile.Hedging.Success.{Fine, initial-Fine}
use resile.Hedging.Value.{effects-IsKept, race-Ok}
use resile.Pipeline.Config.{Fallback, err_fallback, value_fallback, Config}
use resile.Pipeline.Ending.{NotForErrors}
use resile.Pipeline.Entry.{Result, gives, panics}
use resile.Pipeline.Options.{new}
use resile.Pipeline.Success.{Sound, SoundFallback}
use resile.Pipeline.World.{World}
use resile.Prelude.{ℕ, ◌<◌, refl, sym, subst, Option, none, some, List, []}

-- Of an entry point that may not have returned yet.
abbrev pub SoundIfEnded : {V : Type 0} → (V → Type 0) → Option (Result V) → Type 0
SoundIfEnded P none = Unit {0}
SoundIfEnded P (some r) = Sound P r

module _ {V : Type 0} (P : V → Type 0) where
  stored_value :
      (zero_value : V) (o : Option V) → IsGiven o → IsSound P o → P (or_zero zero_value o)
  stored_value zero_value none s p = absurd s
  stored_value zero_value (some v) s p = p

  fallback-Sound :
      (ctx : Context) (o : Option (Fallback V)) (r : Result V)
      → SoundFallback P o
      → Sound P r
      → Sound P (hedged_fallback ctx o r)
  fallback-Sound ctx (some (value_fallback g)) (gives v (some e)) back p = back ctx e
  fallback-Sound ctx (some (value_fallback g)) (gives v none) back p = p
  fallback-Sound ctx (some (value_fallback g)) (panics n) back p = p
  fallback-Sound ctx (some (err_fallback g)) r back p = p
  fallback-Sound ctx none r back p = p

module _ {F V U : Type 0} ⦃f : Float F⦄ (P : V → Type 0) (fb : Option (Fallback V)) where
  back-Sound :
      (w : World F V (Option V × U))
      → SoundFallback P fb
      → Kept P fb w
      → SoundFallback P w.config.fallback
  back-Sound w back k = subst (SoundFallback P) (sym k.0.1) back

  ended-Sound :
      (zero_value : V) (ctx : Context) (es : List (Option Err)) (limit : ℕ) (c : Config F V)
      (crashed : Option ℕ) (p : Phase (World F V (Option V × U)))
      → SoundFallback P fb
      → Fine (λ v. Kept P fb v × Told P fb es v) (Stored P fb) (hedged_effects c) limit p
      → SoundIfEnded P (value_of zero_value ctx crashed p)
  ended-Sound zero_value ctx es limit c (some n) p back k = tt
  ended-Sound zero_value ctx es limit c none (waiting h) back k = tt
  ended-Sound zero_value ctx es limit c none (ended none w) back ((k, t), s) =
      fallback-Sound P ctx w.config.fallback (gives (or_zero zero_value w.user.0) none)
        (back-Sound w back k) (stored_value P zero_value w.user.0 s k.1)
  ended-Sound zero_value ctx es limit c none (ended (some x) w) back (k, t) =
      fallback-Sound P ctx w.config.fallback (gives (or_zero zero_value w.user.0) (some x))
        (back-Sound w back k) tt

module _ {F V U : Type 0} ⦃f : Float F⦄ (P : V → Type 0) where
  config_do_hedged-Sound :
      (zero_value : V) (ctx : Context) (action : HedgedAction F V U) (moves : List Move)
      (w : World F V (Option V × U))
      → 0 < w.config.max_attempts
      → IsRacer P action
      → SoundFallback P w.config.fallback
      → SoundIfEnded P (config_do_hedged zero_value ctx action moves w)
  unfolding config_do_hedged race_hedged
  config_do_hedged-Sound zero_value ctx action moves w some_attempt racer back =
      let fb = w.config.fallback in
      let limit = w.config.max_attempts in
      let c = w.config in
      let start = record w { user = (none, w.user.1) } in
      let r = race_hedged ctx (some (storing_once action)) none moves start in
      ended-Sound P fb zero_value ctx r.sent limit c r.crashed r.phase back (
        race-Ok P fb action racer (fits fb back) (hedged_effects c) limit ctx w.clock
          (effects-IsKept P fb c) some_attempt moves
          (record {
            phase = turn (hedged_effects c) limit (initial start);
            sent = [];
            finished = 0;
            crashed = none;
          })
          (initial-Fine (λ v. Kept P fb v × Told P fb [] v) (Stored P fb) (hedged_effects c) limit
            (effects-IsKept P fb c []) some_attempt start (((some_attempt, refl, tt), tt), tt)))
    where
      fits : (o : Option (Fallback V)) → SoundFallback P o → NotForErrors o
      fits none b = tt
      fits (some (value_fallback g)) b = tt
      fits (some (err_fallback g)) b = absurd b

  -- DoStateHedged with one attempt at least, and no fallback or one for values, however its attempts,
  -- its loop, the time-outs and the cancellation of its context interleave: where it gives no error,
  -- its value is one that an attempt's action or the fallback gave without an error.
  pub do_state_hedged-Sound :
      (opts : List (Config F V → Config F V)) (zero_value : V) (ctx : Context)
      (action : HedgedAction F V U) (moves : List Move) (w : World F V (Option V × U))
      → 0 < (new opts).max_attempts
      → IsRacer P action
      → SoundFallback P (new opts).fallback
      → SoundIfEnded P (do_state_hedged opts zero_value ctx action moves w)
  unfolding do_state_hedged
  do_state_hedged-Sound opts zero_value ctx action moves w =
      config_do_hedged-Sound zero_value ctx action moves (record w { config = new opts })
