-- ===== src/Pipeline/Ending.antt =====
-- How a run of a pipeline of retry.go ends, beside how the calls of the action end.
use resile.Context.{Context}
use resile.Float.{Float}
use resile.Pipeline.Config.{Middleware, Fallback, err_fallback, value_fallback, Config}
use resile.Pipeline.World.{World, DoAction}
use resile.Pipeline.Attempt.{acquire_from, effects, retry_middleware}
use resile.Pipeline.Compose.{
  terminal_action, get_composed_pipeline, build_default_pipeline, first_state, compose, execute,
}
use resile.Pipeline.Chain.{compose-Affords}
use resile.Pipeline.Frame.{Quiet, IsFrame, Affords}
use resile.Retry.Bucket.{AdaptiveBucket}
use resile.Retry.Loop.{RetryState, Outcome, returned, panicked}
use resile.Retry.Success.{IsEnding, retry-Ends}
use resile.Prelude.{ℕ, ◌<◌, ◌≡◌, sym, ◌∙◌, subst, Option, none, some, List, [], ◌∷◌, arith}

-- A fallback for errors alone would turn the error of an action into success without a value.
abbrev pub NotForErrors : {V : Type 0} → Option (Fallback V) → Type 0
NotForErrors none = Unit {0}
NotForErrors (some (value_fallback g)) = Unit {0}
NotForErrors (some (err_fallback g)) = ⊥

-- What holds of every state.
abbrev pub Any : {U : Type 0} → U → Type 0
Any u = Unit {0}

module _ {F V U : Type 0} (fb : Option (Fallback V)) (I P : U → Type 0) where
  -- At least one attempt, the fallback that was configured, and I of the caller's state.
  abbrev pub Good : World F V U → Type 0
  Good w = (0 < w.config.max_attempts) × (w.config.fallback ≡ fb) × I w.user

  abbrev pub Ends : Outcome × World F V U → Type 0
  Ends (returned none, w) = Good w × P w.user
  Ends (returned (some e), w) = Good w
  Ends (panicked x, w) = Good w

  abbrev pub Covers : World F V U → Outcome × World F V U → Type 0
  Covers u x = Good u → Ends x

  pub Quiet-Good : (v w : World F V U) → Quiet v w → Good v → Good w
  Quiet-Good v w q g = (subst (λ (k : ℕ). 0 < k) (sym q.1) g.0, q.2 ∙ g.1, subst I (sym q.0) g.2)

  Quiet-Ends : (v w : World F V U) (r : Outcome) → Quiet v w → Ends (r, v) → Ends (r, w)
  Quiet-Ends v w (returned none) q h = (Quiet-Good v w q h.0, subst P (sym q.0) h.1)
  Quiet-Ends v w (returned (some e)) q h = Quiet-Good v w q h
  Quiet-Ends v w (panicked x) q h = Quiet-Good v w q h

  module _ (fit : NotForErrors fb) where
    Covers-IsFrame : IsFrame Covers
    Covers-IsFrame = record {
      refusal = λ v w e q g. Quiet-Good v w q g;
      ahead = λ u v x q h g. h (Quiet-Good u v q g);
      after = λ u v w r h q g. Quiet-Ends v w r q (h g);
      calmed = λ u v x h g. h g;
      replaced = λ u v k ctx e q h g. absurd (subst NotForErrors (sym (h g).1 ∙ q) fit);
    }

module _ {F V U : Type 0} ⦃f : Float F⦄ (fb : Option (Fallback V)) (I P : U → Type 0) where
  token-Good :
      (w : World F V U) (o : Option (AdaptiveBucket F))
      → Good fb I P w
      → Good fb I P (acquire_from w o).1
  token-Good w none g = g
  token-Good w (some b) g = g

  delay-Good :
      (c : Config F V) (next : DoAction F V U) (ctx : Context) (a : ℕ) (w : World F V U)
      → Good fb I P w
      → Good fb I P ((effects c next ctx).next_delay a w).1
  delay-Good c next ctx a w g =
      elim w.draws
        as (λ ds. Good fb I P ((effects c next ctx).next_delay a (record w { draws = ds })).1) [
          | [] ↦ g
          | n ∷ ns ↦ g
        ]

  effects-IsEnding :
      (c : Config F V) (next : DoAction F V U) (ctx : Context)
      → ((st : RetryState) (w : World F V U) → Covers fb I P w (next ctx st w))
      → IsEnding (Good fb I P) (Ends fb I P) (effects c next ctx)
  effects-IsEnding c next ctx p = record {
    failing = λ e w g. g;
    good = λ e w g. g;
    next = λ st w g. p st w g;
    success = λ w h. h;
    token = λ w g. token-Good w w.config.adaptive_bucket g;
    delay = λ a w g. delay-Good c next ctx a w g;
    sleep = λ d w g. g;
  }

  composed-Good :
      (w : World F V U)
      → Good fb I P w
      → Good fb I P (record w { config = (get_composed_pipeline w.config).1 })
  unfolding get_composed_pipeline build_default_pipeline
  composed-Good w g = grind (arith, g)

  module _ (fit : NotForErrors fb) where
    again :
        (next : DoAction F V U)
        → Affords (Covers fb I P) (Covers-IsFrame fb I P fit) next
        → Affords (Covers fb I P) (Covers-IsFrame fb I P fit) (retry_middleware next)
    unfolding retry_middleware
    again next p ctx st w g =
        retry-Ends (Good fb I P) (Ends fb I P) (effects w.config next ctx)
          (effects-IsEnding w.config next ctx (p ctx)) w.config.max_attempts st w g.0 g

    pub compose-Ends :
        (ms : List Middleware) (base : DoAction F V U)
        → ((c : Context) (s : RetryState) (v : World F V U) → Covers fb I P v (base c s v))
        → (c : Context) (s : RetryState) (v : World F V U) → Covers fb I P v (compose ms base c s v)
    compose-Ends ms base p =
        compose-Affords (λ n. Covers fb I P) (λ n. Covers-IsFrame fb I P fit) 0 (λ n. again) ms 0
          base p

    pub execute-Ends :
        (ctx : Context) (action : DoAction F V U) (w : World F V U)
        → ((c : Context) (s : RetryState) (v : World F V U) → Covers fb I P v (action c s v))
        → Good fb I P w
        → Ends fb I P (execute ctx (some action) none w)
    unfolding execute terminal_action
    execute-Ends ctx action w p g =
        let (ms, c) = get_composed_pipeline w.config in
        compose-Ends ms (terminal_action none (some action)) p ctx (first_state c)
          (record w { config = c }) (composed-Good w g)
