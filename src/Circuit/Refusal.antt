-- ===== src/Circuit/Refusal.antt =====
-- A breaker of circuit/breaker.go that refuses every call goes on refusing, as long as its state
-- has no way out: the calls that are under way then do not matter.
use resile.Circuit.State.{State, closed, Breaker}
use resile.Circuit.Breaker.{refused, state_of, begin, finish}
use resile.Circuit.System.{
  System, Step, enter, turn_away, leave, crash, query, by_reset, Steps, done, more, All, All-remove,
  All-at, length-remove,
}
use resile.Errors.{Err}
use resile.Float.{Float}
use resile.Prelude.{
  ℕ, ◌≤◌, ◌≡◌, sym, ap, subst, ◌∙◌, false, Option, none, List, ◌∷◌, ◌++◌, length, arith,
}

module _ {F : Type 0} ⦃f : Float F⦄ (P : Breaker F → Type 0) (limit : ℕ) where
  -- Up to an instant, a breaker with P refuses, and keeps P whatever happens to it but for probes
  -- that end and for Reset.
  pub record IsShut : Type 0 where
    pub refuses :
        (err : Option Err) (now : ℕ) (b : Breaker F)
        → now ≤ limit
        → P b
        → (e : Err) × (begin err now b ≡ (refused e, b))
    pub queried : (now : ℕ) (b : Breaker F) → now ≤ limit → P b → (state_of now b).1 ≡ b
    pub kept : (err : Option Err) (now : ℕ) (b : Breaker F) → P b → P (finish closed err now b)

  record IsRefusing (n : ℕ) (y : System F) : Type 0 where
    holds : P y.breaker
    no_probes : All (λ s. s ≡ closed) y.running
    few : length y.running ≤ n

  module _ (shut : IsShut) where
    leave-IsRefusing :
        (now n : ℕ) (y : System F) (before after : List State) (s : State) (err : Option Err)
        → y.running ≡ before ++ s ∷ after
        → IsRefusing n y
        → IsRefusing n (record { breaker = finish s err now y.breaker; running = before ++ after })
    leave-IsRefusing now n y before after s err e v =
        let calls : All (λ t. t ≡ closed) (before ++ s ∷ after) =
          subst (All (λ t. t ≡ closed)) e v.no_probes in
        rw (All-at (λ t. t ≡ closed) before after s calls) (record {
          holds = shut.kept err now y.breaker v.holds;
          no_probes = All-remove (λ t. t ≡ closed) before after s calls;
          few = omega (arith, length-remove before after s, ap length e, v.few);
        })

    same-IsRefusing :
        (n : ℕ) (y : System F) (b : Breaker F)
        → y.breaker ≡ b
        → IsRefusing n y
        → IsRefusing n (record y { breaker = b })
    same-IsRefusing n y b e v = record {
      holds = subst P e v.holds;
      no_probes = v.no_probes;
      few = v.few;
    }

    Step-IsRefusing :
        {now : ℕ} {y z : System F} (n : ℕ)
        → Step false now y z
        → now ≤ limit
        → IsRefusing n y
        → IsRefusing n z
    Step-IsRefusing {now = now} {y = y} n (enter e) h v =
        let (x, k) = shut.refuses none now y.breaker h v.holds in cc
    Step-IsRefusing {now = now} {y = y} n (turn_away err {b = b} e) h v =
        let (x, k) = shut.refuses err now y.breaker h v.holds in
        same-IsRefusing n y b (sym (ap (λ p. p.1) k) ∙ ap (λ p. p.1) e) v
    Step-IsRefusing {now = now} {y = y} n (leave before after s err e) h v =
        leave-IsRefusing now n y before after s err e v
    Step-IsRefusing {y = y} n (crash before after s e) h v = record {
      holds = v.holds;
      no_probes =
          All-remove (λ t. t ≡ closed) before after s (subst (All (λ t. t ≡ closed)) e v.no_probes);
      few = omega (arith, length-remove before after s, ap length e, v.few);
    }
    Step-IsRefusing {now = now} {y = y} n query h v =
        same-IsRefusing n y _ (sym (shut.queried now y.breaker h v.holds)) v
    Step-IsRefusing n (by_reset r) h v = cc

    Steps-IsRefusing :
        {y z : System F} (n : ℕ) → Steps false limit y z → IsRefusing n y → IsRefusing n z
    Steps-IsRefusing n done v = v
    Steps-IsRefusing n (more r h st) v = Step-IsRefusing n st h (Steps-IsRefusing n r v)

    -- So no call is admitted, however the others interleave.
    pub refuses-All :
        (y z : System F)
        → P y.breaker
        → All (λ s. s ≡ closed) y.running
        → Steps false limit y z
        → P z.breaker × (length z.running ≤ length y.running)
    refuses-All y z p calls r =
        let v =
          Steps-IsRefusing (length y.running) r
            (record { holds = p; no_probes = calls; few = omega arith }) in
        (v.holds, v.few)
