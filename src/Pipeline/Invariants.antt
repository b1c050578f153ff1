-- ===== src/Pipeline/Invariants.antt =====
-- An invariant of the caller's own state through DoErrState of retry.go, and what a success leaves.
use resile.Context.{Context}
use resile.Float.{Float}
use resile.Pipeline.Config.{Config}
use resile.Pipeline.World.{World, DoAction}
use resile.Pipeline.Compose.{execute}
use resile.Pipeline.Entry.{config_do_err_state, do_err_state, err_or_fallback}
use resile.Pipeline.Options.{new}
use resile.Pipeline.Ending.{Good, Ends, execute-Ends}
use resile.Retry.Loop.{RetryState, Outcome, returned, panicked}
use resile.Prelude.{◌<◌, ◌≡◌, sym, ◌∙◌, subst, none, some, List}

module _ {F V U : Type 0} (I P : U → Type 0) where
  -- I holds of what is left, and P too after a success.
  abbrev pub Leaves : Outcome × World F V U → Type 0
  Leaves (returned none, w) = I w.user × P w.user
  Leaves (returned (some e), w) = I w.user
  Leaves (panicked n, w) = I w.user

  -- A call that leaves the number of attempts and the fallback alone, and keeps I.
  abbrev pub Keeps : World F V U → Outcome × World F V U → Type 0
  Keeps v x =
      (x.1.config.max_attempts ≡ v.config.max_attempts)
      × (x.1.config.fallback ≡ v.config.fallback)
      × (I v.user → Leaves x)

  kept :
      (v : World F V U) (x : Outcome × World F V U)
      → Keeps v x
      → Good none I (λ u. I u × P u) v
      → Ends none I (λ u. I u × P u) x
  kept v (returned none, w) k g =
      ((subst (λ n. 0 < n) (sym k.0) g.0, k.1 ∙ g.1, (k.2 g.2).0), k.2 g.2)
  kept v (returned (some e), w) k g = (subst (λ n. 0 < n) (sym k.0) g.0, k.1 ∙ g.1, k.2 g.2)
  kept v (panicked n, w) k g = (subst (λ n. 0 < n) (sym k.0) g.0, k.1 ∙ g.1, k.2 g.2)

  topped :
      (ctx : Context) (x : Outcome × World F V U)
      → Ends none I (λ u. I u × P u) x
      → Leaves (err_or_fallback ctx x.1.config.fallback x)
  topped ctx (returned none, w) h = rw h.0.1 h.1
  topped ctx (returned (some e), w) h = rw h.1 h.2
  topped ctx (panicked n, w) h = rw h.1 h.2

module _ {F V U : Type 0} ⦃f : Float F⦄ (I P : U → Type 0) where
  pub do_err_state-Leaves :
      (opts : List (Config F V → Config F V)) (ctx : Context) (action : DoAction F V U)
      (w : World F V U)
      → 0 < (new opts).max_attempts
      → (new opts).fallback ≡ none
      → ((c : Context) (s : RetryState) (v : World F V U) → Keeps I P v (action c s v))
      → I w.user
      → Leaves I P (do_err_state opts ctx action w)
  unfolding do_err_state config_do_err_state
  do_err_state-Leaves opts ctx action w some_attempt bare keeps h =
      let start = record w { config = new opts } in
      topped I P ctx (execute ctx (some action) none start) (
        execute-Ends none I (λ u. I u × P u) tt ctx action start
          (λ c s v. kept I P v (action c s v) (keeps c s v)) (some_attempt, bare, h))
