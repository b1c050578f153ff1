-- ===== src/Limits/Burst.antt =====
-- How many calls the limiter of ratelimit.go admits at one instant.
use resile.Float.{Float, float_ℕ, ◌≼◌, FloatLaws, Milli, milli_float}
use resile.Limits.Rate.{RateLimiter, refill_of, refill, take_token, acquire}
use resile.Limits.Tokens.{IsSteady, refill-IsSteady, sub-IsLevel}
use mathlib.Core.Bool.{true≢false}
use resile.Prelude.{
  ℕ, zero, suc, ◌+◌, ◌*◌, ◌/◌, ◌≤◌, ◌<◌, ◌≡◌, refl, sym, ap, ◌∙◌, subst, ◌⊎◌, inl, inr, ℤ, pos,
  pos_part, sub_ℕ, Bool, true, false, if_of, Bool-cases, arith,
}

abbrev exact : ℕ
exact = 9007199254740992

-- What float64 does with counts up to 2^53: from a number that is 1 at least, 1 is subtracted exactly
-- if that number is at most 2^53, and what is left is no less than 2^53 - 1 if it is more. In no time
-- there is no refill, also if the interval is 0 or the limit no number.
pub record CountLaws (F : Type 0) ⦃f : Float F⦄ : Type 0 where
  pub unit_step :
      (n : ℕ) (x : F)
      → n + 1 ≤ exact
      → float_ℕ 1 ≼ x
      → f.le (float_ℕ n) (f.sub x (float_ℕ 1)) ≡ f.le (float_ℕ (n + 1)) x
  pub mono : (m n : ℕ) → m ≤ n → n ≤ exact → ◌≼◌ {F = F} (float_ℕ m) (float_ℕ n)
  pub no_time :
      (i : ℤ) (l : F) → f.lt (float_ℕ 0) (f.mul (f.div (float_ℕ 0) (f.of_int i)) l) ≡ false

abbrev counted : ℕ → Bool → ℕ
counted k true = k + 1
counted k false = k

no_time_since : (now : ℕ) → sub_ℕ now now ≡ pos 0
no_time_since now = ground arith

module _ {F : Type 0} ⦃f : Float F⦄ where
  -- The number of the calls, all at one instant, that are admitted.
  pub admitted : ℕ → ℕ → RateLimiter F → ℕ
  admitted now zero rl = 0
  admitted now (suc n) rl =
      let (ok, rl') = acquire now rl in let k = admitted now n rl' in counted k ok

  -- As many as there are calls and whole tokens, whichever is less.
  abbrev pub FillsUp : ℕ → ℕ → F → Type 0
  FillsUp k n tokens =
      (k ≤ n) × (float_ℕ k ≼ tokens) × ((k ≡ n) ⊎ (f.le (float_ℕ (k + 1)) tokens ≡ false))

  abbrev IsStill : ℕ → RateLimiter F → Type 0
  IsStill now rl = f.lt (float_ℕ 0) (refill_of now rl) ≡ false

  refill-still : (now : ℕ) (rl : RateLimiter F) → IsStill now rl → refill now rl ≡ rl
  unfolding refill
  refill-still now rl h =
      if_of (λ r. r ≡ rl) (f.lt (float_ℕ 0) (refill_of now rl)) _ _
        (λ e. absurd (true≢false (sym e ∙ h))) (λ e. refl)

  module _ (laws : FloatLaws F) (counts : CountLaws F) where
    refill-IsStill : (now : ℕ) (rl : RateLimiter F) → IsStill now (refill now rl)
    unfolding refill
    refill-IsStill now rl =
        if_of (IsStill now) (f.lt (float_ℕ 0) (refill_of now rl)) _ _
          (λ e.
            subst
              (λ d.
                f.lt (float_ℕ 0) (f.mul (f.div (f.of_int d) (f.of_int rl.interval)) rl.limit)
                ≡ false)
              (sym (no_time_since now)) (counts.no_time rl.interval rl.limit))
          (λ e. e)

    module _ (now n : ℕ) (rl : RateLimiter F) (small : n + 1 < exact)
        (ih : (r : RateLimiter F)
          → IsStill now r
          → IsSteady laws r
          → FillsUp (admitted now n r) n r.tokens)
        (still : IsStill now rl) (v : IsSteady laws rl) where
      taken-FillsUp :
          float_ℕ 1 ≼ rl.tokens
          → FillsUp
              (admitted now n (record rl { tokens = f.sub rl.tokens (float_ℕ 1) }) + 1)
              (suc n)
              rl.tokens
      taken-FillsUp enough =
          let rl' = record rl { tokens = f.sub rl.tokens (float_ℕ 1) } in
          let level =
            sub-IsLevel laws rl.limit rl.tokens (float_ℕ 1) laws.one_finite laws.one_positive enough
              v.level in
          let (few, under, top) =
            ih rl' still (record { limit_finite = v.limit_finite; level = level }) in
          let k = admitted now n rl' in
          (
            omega arith,
            sym (counts.unit_step k rl.tokens (omega arith) enough) ∙ under,
            elim top [
              | inl all ↦ inl (omega (arith, all))
              | inr no_more ↦
                  inr (sym (counts.unit_step (k + 1) rl.tokens (omega arith) enough) ∙ no_more)
            ],
          )

      left-FillsUp :
          f.le (float_ℕ 1) rl.tokens ≡ false → FillsUp (admitted now n rl) (suc n) rl.tokens
      left-FillsUp none_left =
          let (few, under, top) = ih rl still v in
          let k = admitted now n rl in
          (
            omega arith,
            under,
            elim (Bool-cases (f.le (float_ℕ (k + 1)) rl.tokens)) [
              | inr no_more ↦ inr no_more
              | inl more ↦
                  let one : float_ℕ 1 ≼ rl.tokens =
                    laws.le_trans (float_ℕ 1) (float_ℕ (k + 1)) rl.tokens
                      (counts.mono 1 (k + 1) (omega arith) (omega arith)) more in
                  absurd (true≢false (sym one ∙ none_left))
            ],
          )

      take-FillsUp :
          let (ok, rl') = take_token rl in
          FillsUp (counted (admitted now n rl') ok) (suc n) rl.tokens
      unfolding take_token
      take-FillsUp =
          if_of
            (λ (x : Bool × RateLimiter F).
              FillsUp (counted (admitted now n x.1) x.0) (suc n) rl.tokens)
            (f.le (float_ℕ 1) rl.tokens) _ _ taken-FillsUp left-FillsUp

    still-FillsUp :
        (now n : ℕ) (rl : RateLimiter F)
        → n < exact
        → IsStill now rl
        → IsSteady laws rl
        → FillsUp (admitted now n rl) n rl.tokens
    unfolding admitted acquire
    still-FillsUp now zero rl small still v = (omega arith, v.level.not_negative, inl refl)
    still-FillsUp now (suc n) rl small still v =
        subst
          (λ r.
            let (ok, rl') = take_token r in
            FillsUp (counted (admitted now n rl') ok) (suc n) rl.tokens)
          (sym (refill-still now rl still))
          (take-FillsUp now n rl (omega arith) (λ r s w. still-FillsUp now n r (omega arith) s w)
            still v)

    refill-limit : (now : ℕ) (rl : RateLimiter F) → (refill now rl).limit ≡ rl.limit
    unfolding refill
    refill-limit now rl =
        if_of (λ (r : RateLimiter F). r.limit ≡ rl.limit) (f.lt (float_ℕ 0) (refill_of now rl)) _ _
          (λ e. refl) (λ e. refl)

    refilled-admitted :
        (now n : ℕ) (rl : RateLimiter F) → admitted now n rl ≡ admitted now n (refill now rl)
    unfolding admitted acquire
    refilled-admitted now zero rl = refl
    refilled-admitted now (suc n) rl =
        ap (λ r. let (ok, rl') = take_token r in counted (admitted now n rl') ok)
          (sym (refill-still now (refill now rl) (refill-IsStill now rl)))

    -- Of n calls at one instant, n less than 2^53, a rate limiter whose limit is a finite number, with
    -- a level from 0 to it, admits as many as it then has whole tokens, refilled up to the limit, or
    -- all if there are no more; so never more than its limit.
    pub admitted-FillsUp :
        (now n : ℕ) (rl : RateLimiter F)
        → n < exact
        → IsSteady laws rl
        → FillsUp (admitted now n rl) n (refill now rl).tokens
          × (float_ℕ (admitted now n rl) ≼ rl.limit)
    admitted-FillsUp now n rl small v =
        let w = refill-IsSteady laws now rl v in
        let r = refill now rl in
        let (few, under, top) = still-FillsUp now n r small (refill-IsStill now rl) w in
        subst (λ k. FillsUp k n r.tokens × (float_ℕ k ≼ rl.limit))
          (sym (refilled-admitted now n rl))
          (
            (few, under, top),
            subst (λ l. float_ℕ (admitted now n r) ≼ l) (refill-limit now rl)
                (laws.le_trans (float_ℕ (admitted now n r)) r.tokens r.limit under
                  w.level.not_over),
          )

no_part : (n : ℕ) → 0 / n ≡ 0
no_part zero = refl
no_part (suc n) = omega arith

pub Milli-CountLaws : CountLaws Milli
Milli-CountLaws = record {
  unit_step = λ n x h k. ground arith;
  mono = λ m n h k. ground arith;
  no_time = λ i l. rw (no_part (pos_part i * 1000)) (ground arith);
}
