-- ===== src/Hedging/Stored.antt =====
-- The variable that the hedged entry points of retry.go keep their result in.
use resile.Context.{Context}
use resile.Errors.{Err}
use resile.Hedging.Race.{first_of, HedgedAction, store_once}
use resile.Pipeline.Budget.{IsFair}
use resile.Pipeline.Config.{Fallback}
use resile.Pipeline.Ending.{Any, Good, Ends}
use resile.Pipeline.Entry.{Result, gives, panics}
use resile.Pipeline.Success.{Sound}
use resile.Pipeline.World.{World}
use resile.Retry.Loop.{RetryState}
use resile.Prelude.{ℕ, ◌≡◌, refl, sym, subst, Option, none, some, List, [], ◌∷◌, ◌++◌}

-- A value is stored; a stored value has P.
abbrev pub IsGiven : {V : Type 0} → Option V → Type 0
IsGiven none = ⊥
IsGiven (some v) = Unit {0}

abbrev pub IsSound : {V : Type 0} → (V → Type 0) → Option V → Type 0
IsSound P none = Unit {0}
IsSound P (some v) = P v

-- An action as executeHedged may run it: it leaves the number of attempts and the fallback alone, its
-- values without an error have P, and what is stored while it runs is stored by other attempts.
pub record IsRacer {F V U : Type 0} (P : V → Type 0) (action : HedgedAction F V U) : Type 0 where
  pub attempts :
      (c : Context) (s : RetryState) (v : World F V (Option V × U))
      → ((action c s v).1.config.max_attempts ≡ v.config.max_attempts)
  pub fallback :
      (c : Context) (s : RetryState) (v : World F V (Option V × U))
      → ((action c s v).1.config.fallback ≡ v.config.fallback)
  pub value :
      (c : Context) (s : RetryState) (v : World F V (Option V × U)) → Sound P (action c s v).0
  pub set :
      (c : Context) (s : RetryState) (v : World F V (Option V × U))
      → IsGiven v.user.0
      → IsGiven (action c s v).1.user.0
  pub stored :
      (c : Context) (s : RetryState) (v : World F V (Option V × U))
      → IsSound P v.user.0
      → IsSound P (action c s v).1.user.0

abbrev pub Set : {V U : Type 0} → Option V × U → Type 0
Set x = IsGiven x.0

first_of-Grows :
    {V : Type 0} (P : V → Type 0) (o : Option V) (v : V)
    → P v
    → (IsGiven (first_of o v)) × (IsSound P o → IsSound P (first_of o v))
first_of-Grows P none v p = (tt, λ s. p)
first_of-Grows P (some u) v p = (tt, λ s. s)

module _ {F V U : Type 0} (P : V → Type 0) where
  -- What is stored stays, and stays sound.
  abbrev pub Grows : ℕ → World F V (Option V × U) → World F V (Option V × U) → Type 0
  Grows k v w = (IsGiven v.user.0 → IsGiven w.user.0) × (IsSound P v.user.0 → IsSound P w.user.0)

  pub Grows-IsFair : IsFair Grows
  Grows-IsFair = record {
    budget = record {
      still = λ w. (λ s. s, λ s. s);
      join = λ j k u v w p q. (λ s. q.0 (p.0 s), λ s. q.1 (p.1 s));
      more = λ j k u v h p. p;
    };
    free = λ v w q.
        (λ s. subst (λ x. IsGiven x.0) (sym q.0) s, λ s. subst (λ x. IsSound P x.0) (sym q.0) s);
  }

  pub store_once-Grows :
      (r : Result V) (v w : World F V (Option V × U))
      → Sound P r
      → Grows 0 v w
      → Grows 0 v (store_once (r, w)).1
  store_once-Grows (gives x none) v w p g =
      let (a, b) = first_of-Grows P w.user.0 x p in (λ s. a, λ s. b (g.1 s))
  store_once-Grows (gives x (some e)) v w p g = g
  store_once-Grows (panics n) v w p g = g

module _ {F V U : Type 0} (P : V → Type 0) (fb : Option (Fallback V)) where
  pub store_once-Ends :
      (r : Result V) (w : World F V (Option V × U))
      → Sound P r
      → Good fb Any Set w
      → Ends fb Any Set (store_once (r, w))
  store_once-Ends (gives x none) w p g = (g, (first_of-Grows P w.user.0 x p).0)
  store_once-Ends (gives x (some e)) w p g = g
  store_once-Ends (panics n) w p g = g

  -- What holds of the world while the loop runs, and what a success leaves behind.
  abbrev pub Kept : World F V (Option V × U) → Type 0
  Kept w = Good fb Any Set w × IsSound P w.user.0

  abbrev pub Stored : World F V (Option V × U) → Type 0
  Stored w = IsGiven w.user.0

  -- Of every success in the channel.
  abbrev pub Told : List (Option Err) → World F V (Option V × U) → Type 0
  Told [] w = Unit {0}
  Told (none ∷ es) w = Stored w × Told es w
  Told (some e ∷ es) w = Told es w

  pub Told-mono :
      (es : List (Option Err)) (v w : World F V (Option V × U))
      → (Stored v → Stored w)
      → Told es v
      → Told es w
  Told-mono [] v w s t = tt
  Told-mono (none ∷ es) v w s t = (s t.0, Told-mono es v w s t.1)
  Told-mono (some e ∷ es) v w s t = Told-mono es v w s t

  pub Told-snoc :
      (es : List (Option Err)) (e : Option Err) (w : World F V (Option V × U))
      → Told es w
      → (e ≡ none → Stored w)
      → Told (es ++ e ∷ []) w
  Told-snoc [] none w t s = (s refl, tt)
  Told-snoc [] (some e) w t s = tt
  Told-snoc (none ∷ es) e w t s = (t.0, Told-snoc es e w t.1 s)
  Told-snoc (some x ∷ es) e w t s = Told-snoc es e w t s
