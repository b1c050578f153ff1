-- ===== src/Limits/Crowd.antt =====
-- The calls of many goroutines through the Execute of adaptive_concurrency.go: its atomic addition, its
-- comparison with the limit, the update behind the action and the deferred addition are steps of
-- their own, which others may come between.
use resile.Float.{Float}
use resile.Limits.Adaptive.{AdaptiveLimiter, add_current, leave, update}
use resile.Prelude.{ℕ, suc, ◌+◌, ℤ, pos, ◌≤ℤ◌, ltb_ℤ, ◌≡◌, true, false, List, ◌∷◌, ◌++◌}

-- `arriving` holds what the addition gave to the calls that have not compared it yet; `leaving` are the
-- calls whose deferred addition is due.
pub record Crowd (F : Type 0) : Type 0 where
  pub limiter : AdaptiveLimiter F
  pub arriving : List ℤ
  pub inside : ℕ
  pub leaving : ℕ

module _ {F : Type 0} ⦃f : Float F⦄ where
  pub data Step : Crowd F → Crowd F → Type 0 where
    arrives :
        {s : Crowd F}
        → Step s (record s {
          limiter = add_current (pos 1) s.limiter;
          arriving = (add_current (pos 1) s.limiter).current_concurrency ∷ s.arriving;
        })
    goes_in :
        {s : Crowd F} (before : List ℤ) (current : ℤ) (behind : List ℤ)
        → s.arriving ≡ before ++ current ∷ behind
        → ltb_ℤ s.limiter.max_concurrency current ≡ false
        → Step s (record s { arriving = before ++ behind; inside = s.inside + 1 })
    is_shed :
        {s : Crowd F} (before : List ℤ) (current : ℤ) (behind : List ℤ)
        → s.arriving ≡ before ++ current ∷ behind
        → ltb_ℤ s.limiter.max_concurrency current ≡ true
        → Step s (record s { arriving = before ++ behind; leaving = s.leaving + 1 })
    returns :
        {s : Crowd F} (n : ℕ) (rtt : ℤ) (now : ℕ)
        → s.inside ≡ suc n
        → Step s
            (record s { limiter = update rtt now s.limiter; inside = n; leaving = s.leaving + 1 })
    panics :
        {s : Crowd F} (n : ℕ)
        → s.inside ≡ suc n
        → Step s (record s { inside = n; leaving = s.leaving + 1 })
    leaves :
        {s : Crowd F} (n : ℕ)
        → s.leaving ≡ suc n
        → Step s (record s { limiter = leave s.limiter; leaving = n })

  pub data Steps : Crowd F → Crowd F → Type 0 where
    done : {s : Crowd F} → Steps s s
    more : {s t u : Crowd F} → Steps s t → Step t u → Steps s u

  abbrev pub number : {s t : Crowd F} → Steps s t → ℕ
  number done = 0
  number (more r st) = suc (number r)

  -- The limit is m at most in every state of a run.
  abbrev pub LimitedBy : {s t : Crowd F} → ℕ → Steps s t → Type 0
  LimitedBy {t = t} m done = t.limiter.max_concurrency ≤ℤ pos m
  LimitedBy {t = t} m (more r st) = LimitedBy m r × (t.limiter.max_concurrency ≤ℤ pos m)
