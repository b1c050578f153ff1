-- ===== src/Limits/Floor.antt =====
-- The concurrency limit and the counter of adaptive_concurrency.go.
use resile.Float.{Float, float_ℕ, ◌≼◌, FloatLaws}
use resile.Limits.Adaptive.{
  AdaptiveLimiter, i32, enter, leave, update, adjust, measure, decay, decreased_limit,
  check_and_emit_event, emit_state_event, is_zero,
}
use resile.Prelude.{
  ℕ, suc, ◌<◌, ℤ, pos, negsuc, ◌+ℤ◌, ◌≤ℤ◌, ◌≡◌, sym, ap, ◌∙◌, inl, inr, Bool, true, false, arith,
  Bool-cases,
}

in_and_out : (n : ℕ) → n < 2147483647 → i32 (i32 (pos n +ℤ pos 1) +ℤ negsuc 0) ≡ pos n
unfolding i32
in_and_out n h = ground arith

one_up : (n : ℕ) → suc n < 2147483647 → pos 1 ≤ℤ i32 (pos (suc n) +ℤ pos 1)
unfolding i32
one_up n h = ground arith

module _ {F : Type 0} where
  -- A call that is counted in and out leaves the limiter as it was, whether it was admitted or shed,
  -- while the counter is from 0 to 2^31 - 2.
  leave-enter :
      (al : AdaptiveLimiter F) (n : ℕ)
      → al.current_concurrency ≡ pos n
      → n < 2147483647
      → leave (enter al).1 ≡ al
  unfolding leave enter
  leave-enter al n e h =
      ap (λ k. record al { current_concurrency = i32 (i32 (k +ℤ pos 1) +ℤ negsuc 0) }) e
      ∙ ap (λ k. record al { current_concurrency = k }) (in_and_out n h ∙ sym e)

module _ {F : Type 0} ⦃f : Float F⦄ (laws : FloatLaws F) where
  open laws use {refl_of_le, le_or_lt, le_refl, one_finite, one_positive}
  open laws use {trunc32_mono, trunc32-of_int}

  decreased_limit-floor :
      (al : AdaptiveLimiter F)
      → al.min_concurrency ≡ pos 1
      → f.mul (f.of_int al.max_concurrency) al.limit_scaling ≼ float_ℕ 2147483647
      → pos 1 ≤ℤ decreased_limit al
  unfolding decreased_limit
  decreased_limit-floor al one room =
      let new_max = f.mul (f.of_int al.max_concurrency) al.limit_scaling in
      let as_one = trunc32-of_int 1 (omega arith) in
      let floor : pos 1 ≤ℤ f.trunc32 (f.of_int al.min_concurrency) =
        rw (one, as_one) (omega arith) in
      let number = (refl_of_le new_max (float_ℕ 2147483647) room).0 in
      elim (le_or_lt (float_ℕ 1) new_max (le_refl (float_ℕ 1) one_finite) number) [
        | inr below ↦ rw (one, below, as_one) (omega arith)
        | inl above ↦ elim (Bool-cases (f.lt new_max (f.of_int al.min_concurrency))) [
          | inl low ↦ rw low floor
          | inr high ↦
              rw high (rw as_one at (trunc32_mono (float_ℕ 1) new_max one_positive above room))
        ]
      ]

  kept_limit :
      (rtt : ℤ) (now : ℕ) (al : AdaptiveLimiter F)
      → let b = measure rtt (decay now al) in
        (b.max_concurrency ≡ al.max_concurrency)
        × (b.min_concurrency ≡ al.min_concurrency)
        × (b.limit_scaling ≡ al.limit_scaling)
  unfolding measure decay
  kept_limit rtt now al = ground arith

  event_for-limit :
      (down : Bool) (now : ℕ) (al : AdaptiveLimiter F)
      → (check_and_emit_event down now al).max_concurrency ≡ al.max_concurrency
  unfolding check_and_emit_event emit_state_event
  event_for-limit true now al = ground arith
  event_for-limit false now al = ground arith

  adjust-floor :
      (now n : ℕ) (al : AdaptiveLimiter F)
      → al.min_concurrency ≡ pos 1
      → al.max_concurrency ≡ pos (suc n)
      → suc n < 2147483647
      → f.mul (f.of_int al.max_concurrency) al.limit_scaling ≼ float_ℕ 2147483647
      → pos 1 ≤ℤ (adjust now al).max_concurrency
  unfolding adjust
  adjust-floor now n al one e small room =
      elim (Bool-cases
        (f.lt (f.of_int al.rtt_ewma) (f.mul (f.of_int al.min_baseline_rtt) al.threshold))) [
          | inl quick ↦
              rw
                (
                  quick,
                  event_for-limit false now
                      (record al { max_concurrency = i32 (al.max_concurrency +ℤ pos 1) }),
                  e,
                )
                (one_up n small)
          | inr slow ↦
              rw
                (
                  slow,
                  event_for-limit true now (record al { max_concurrency = decreased_limit al }),
                )
                (decreased_limit-floor al one room)
        ]

  -- The limit of an adaptive limiter whose floor is 1 stays at least 1 when a call ends, whatever
  -- round-trip time it took: if it was from 1 to 2^31 - 2, and its product with the decrease factor
  -- is at most 2^31 - 1, so that int32 has room for it.
  pub update-floor :
      (rtt : ℤ) (now n : ℕ) (al : AdaptiveLimiter F)
      → al.min_concurrency ≡ pos 1
      → al.max_concurrency ≡ pos (suc n)
      → suc n < 2147483647
      → f.mul (f.of_int al.max_concurrency) al.limit_scaling ≼ float_ℕ 2147483647
      → pos 1 ≤ℤ (update rtt now al).max_concurrency
  unfolding update adjust
  update-floor rtt now n al one e small room = elim (Bool-cases (is_zero al.min_baseline_rtt)) [
    | inl first ↦ rw (first, e) (omega arith)
    | inr later ↦
        let (same, floor, scale) = kept_limit rtt now al in
        rw later (
          adjust-floor now n (measure rtt (decay now al)) (floor ∙ one) (same ∙ e) small
            (rw (same, scale) room))
  ]
