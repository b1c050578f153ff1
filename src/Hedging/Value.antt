-- ===== src/Hedging/Value.antt =====
-- What is stored while the attempts of executeHedged of retry.go race.
use resile.Context.{Context, ctx_err}
use resile.Errors.{Err}
use resile.Float.{Float}
use resile.Hedging.Attempt.{hedged_pipeline, hedged_state, run_attempt}
use resile.Hedging.Loop.{
  Effects, Hedge, Event, context_done, result, timer, Phase, waiting, ended, receive,
}
use resile.Hedging.Race.{
  Race, Move, finish, take, done, tick, is_some, hedged_effects, reported, taken, if_done, go_on,
  unless_crashed, race, HedgedAction, storing_once,
}
use resile.Hedging.Success.{IsKept, Fine, receive-Fine}
use resile.Pipeline.Attempt.{acquire_from}
use resile.Pipeline.Budget.{compose-Reach}
use resile.Pipeline.Compose.{terminal_action}
use resile.Pipeline.Config.{Fallback, Config}
use resile.Pipeline.Ending.{NotForErrors, Any, Ends, Covers, compose-Ends}
use resile.Pipeline.World.{World}
use resile.Retry.Bucket.{AdaptiveBucket}
use resile.Retry.Loop.{RetryState, Outcome, returned, panicked}
use resile.Prelude.{
  ℕ, ◌<◌, ◌≡◌, sym, ◌∙◌, subst, Bool, true, false, ◌&&◌, Option, none, some, List, [], ◌∷◌, ◌++◌,
  ltb, if◌then◌else◌, arith,
}
use resile.Hedging.Stored.{
  IsRacer, Set, Grows, Grows-IsFair, store_once-Grows, store_once-Ends, Kept, Stored, Told,
  Told-mono, Told-snoc,
}

module _ {F V U : Type 0} ⦃f : Float F⦄ (P : V → Type 0) (fb : Option (Fallback V)) where
  token-Kept :
      (es : List (Option Err)) (w : World F V (Option V × U)) (o : Option (AdaptiveBucket F))
      → Kept P fb w × Told P fb es w
      → Kept P fb (acquire_from w o).1 × Told P fb es (acquire_from w o).1
  token-Kept es w none k = k
  token-Kept es w (some b) k = (k.0, Told-mono P fb es w (acquire_from w (some b)).1 (λ s. s) k.1)

  pub effects-IsKept :
      (c : Config F V) (es : List (Option Err))
      → IsKept (λ w. Kept {U = U} P fb w × Told P fb es w) (Stored P fb) (hedged_effects c)
  effects-IsKept c es = record {
    token = λ w k. token-Kept es w w.config.adaptive_bucket k;
    success =
        λ w k. (k.0, Told-mono P fb es w ((hedged_effects c).add_success_token w) (λ s. s) k.1);
    success_set = λ w s. s;
  }

  module _ (action : HedgedAction F V U) (racer : IsRacer P action) (fit : NotForErrors fb) where
    action-Grows :
        (c : Context) (s : RetryState) (v : World F V (Option V × U))
        → Grows P 0 v (storing_once action c s v).1
    action-Grows c s v =
        let (r, w) = action c s v in
        store_once-Grows P r v w (racer.value c s v) (racer.set c s v, racer.stored c s v)

    action-Ends :
        (c : Context) (s : RetryState) (v : World F V (Option V × U))
        → Covers fb Any Set v (storing_once action c s v)
    action-Ends c s v g =
        let (r, w) = action c s v in
        store_once-Ends P fb r w (racer.value c s v) (
          subst (λ (k : ℕ). 0 < k) (sym (racer.attempts c s v)) g.0,
          racer.fallback c s v ∙ g.1,
          tt,
        )

    attempt-Grows :
        (ctx : Context) (start a : ℕ) (w : World F V (Option V × U))
        → Grows P 0 w (run_attempt ctx start a (some (storing_once action)) none w).1
    unfolding run_attempt terminal_action
    attempt-Grows ctx start a w =
        compose-Reach (Grows P) (Grows-IsFair P) 0 (λ n v u p. p) (hedged_pipeline w.config) 0
          (terminal_action none (some (storing_once action))) action-Grows ctx
          (hedged_state w.config a start w.clock) w

    attempt-Ends :
        (ctx : Context) (start a : ℕ) (w : World F V (Option V × U))
        → Covers fb Any Set w (run_attempt ctx start a (some (storing_once action)) none w)
    unfolding run_attempt terminal_action
    attempt-Ends ctx start a w =
        compose-Ends fb Any Set fit (hedged_pipeline w.config)
          (terminal_action none (some (storing_once action))) action-Ends ctx
          (hedged_state w.config a start w.clock) w

    module _ (eff : Effects (World F V (Option V × U))) (limit : ℕ) (ctx : Context) (start : ℕ)
        (kept : (es : List (Option Err))
          → IsKept (λ w. Kept P fb w × Told P fb es w) (Stored P fb) eff)
        (some_attempt : 0 < limit) where
      abbrev Ok : List (Option Err) → Phase (World F V (Option V × U)) → Type 0
      Ok es p = Fine (λ w. Kept P fb w × Told P fb es w) (Stored P fb) eff limit p

      told :
          (b : Bool) (es : List (Option Err)) (e : Option Err) (w : World F V (Option V × U))
          → Told P fb es w
          → (e ≡ none → Stored P fb w)
          → Told P fb (if b then es else es ++ e ∷ []) w
      told true es e w t s = t
      told false es e w t s = Told-snoc P fb es e w t s

      reported-Ok :
          (r : Race F V (Option V × U)) (h : Hedge (World F V (Option V × U))) (dropped : Bool)
          (o : Outcome) (w : World F V (Option V × U))
          → Ok r.sent (waiting h)
          → Grows P 0 h.world w
          → Ends fb Any Set (o, w)
          → let r' =
              reported eff limit ctx start (some (storing_once action)) none r h dropped (o, w) in
            Ok r'.sent r'.phase
      reported-Ok r h dropped (returned none) w (a, (k, t)) g e = (
        a,
        (
          (e.0, g.1 k.1),
          told (dropped && is_some (ctx_err ctx w.clock)) r.sent none w
              (Told-mono P fb r.sent h.world w g.0 t) (λ q. e.1),
        ),
      )
      reported-Ok r h dropped (returned (some x)) w (a, (k, t)) g e = (
        a,
        (
          (e, g.1 k.1),
          told (dropped && is_some (ctx_err ctx w.clock)) r.sent (some x) w
              (Told-mono P fb r.sent h.world w g.0 t) (λ q. absurd (ground (arith, q))),
        ),
      )
      reported-Ok r h dropped (panicked n) w (a, (k, t)) g e =
          (a, ((e, g.1 k.1), Told-mono P fb r.sent h.world w g.0 t))

      abbrev Fits : Race F V (Option V × U) → Type 0
      Fits r = Ok r.sent r.phase

      taken-Ok :
          (r : Race F V (Option V × U)) (h : Hedge (World F V (Option V × U)))
          (es : List (Option Err))
          → Fits r
          → Ok es (waiting h)
          → Fits (taken eff limit ctx start (some (storing_once action)) none r h es)
      taken-Ok r h [] q k = q
      taken-Ok r h (none ∷ es) q (a, (k, t)) =
          receive-Fine (λ w. Kept P fb w × Told P fb es w) (Stored P fb) eff limit (kept es)
            some_attempt (result none) h (λ e. t.0) (a, (k, t.1))
      taken-Ok r h (some x ∷ es) q (a, (k, t)) =
          receive-Fine (λ w. Kept P fb w × Told P fb es w) (Stored P fb) eff limit (kept es)
            some_attempt (result (some x)) h (λ e. absurd (ground (arith, e))) (a, (k, t))

      -- Any other event of the loop's.
      other-Ok :
          (es : List (Option Err)) (e : Event) (h : Hedge (World F V (Option V × U)))
          → (e ≡ result none → ⊥)
          → Ok es (waiting h)
          → Ok es (receive eff limit e h)
      other-Ok es e h other k =
          receive-Fine (λ w. Kept P fb w × Told P fb es w) (Stored P fb) eff limit (kept es)
            some_attempt e h (λ q. absurd (other q)) k

      if_done-Ok :
          (r : Race F V (Option V × U)) (h : Hedge (World F V (Option V × U))) (o : Option Err)
          → Fits r
          → Ok r.sent (waiting h)
          → Fits (if_done eff limit ctx start (some (storing_once action)) none r h o)
      if_done-Ok r h none q k = q
      if_done-Ok r h (some e) q k = other-Ok r.sent (context_done e) h (λ x. ground (arith, x)) k

      either :
          (b : Bool) (x y : Race F V (Option V × U)) → Fits x → Fits y → Fits (if b then x else y)
      either true x y p q = p
      either false x y p q = q

      go_on-Ok :
          (m : Move) (r : Race F V (Option V × U)) (p : Phase (World F V (Option V × U)))
          → Fits r
          → Ok r.sent p
          → Fits (go_on eff limit ctx start (some (storing_once action)) none m r p)
      go_on-Ok m r (ended e w) q k = q
      go_on-Ok (finish a dropped) r (waiting h) q k =
          let (o, w) = run_attempt ctx start a (some (storing_once action)) none h.world in
          either (ltb r.finished h.launched)
            (reported eff limit ctx start (some (storing_once action)) none r h dropped (o, w)) r
            (reported-Ok r h dropped o w k (attempt-Grows ctx start a h.world)
              (attempt-Ends ctx start a h.world k.1.0.0))
            q
      go_on-Ok take r (waiting h) q k = taken-Ok r h r.sent q k
      go_on-Ok done r (waiting h) q k = if_done-Ok r h (ctx_err ctx h.world.clock) q k
      go_on-Ok tick r (waiting h) q k =
          either (ltb h.attempts_started limit) (record r { phase = receive eff limit timer h }) r
            (other-Ok r.sent timer h (λ x. ground (arith, x)) k) q

      unless_crashed-Ok :
          (m : Move) (r : Race F V (Option V × U)) (o : Option ℕ)
          → Fits r
          → Fits (unless_crashed eff limit ctx start (some (storing_once action)) none m r o)
      unless_crashed-Ok m r (some n) q = q
      unless_crashed-Ok m r none q = go_on-Ok m r r.phase q q

      pub race-Ok :
          (ms : List Move) (r : Race F V (Option V × U))
          → Fits r
          → Fits (race eff limit ctx start (some (storing_once action)) none ms r)
      unfolding race
      race-Ok [] r q = q
      race-Ok (m ∷ ms) r q =
          race-Ok ms
            (unless_crashed eff limit ctx start (some (storing_once action)) none m r r.crashed)
            (unless_crashed-Ok m r r.crashed q)
