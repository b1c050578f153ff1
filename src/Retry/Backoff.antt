-- ===== src/Retry/Backoff.antt =====
-- backoff.go: exponential backoff with full jitter.
use resile.Float.{Float, float_ℕ}
use resile.Prelude.{ℕ, ◌%◌, ◌^◌, ℤ, pos, pos_part, if◌then◌else◌}

-- The interface Backoff: full jitter, or an implementation of the caller's.
pub data Backoff : Type 0 where
  full_jitter : ℤ → ℤ → Backoff
  custom : (ℕ → ℤ) → Backoff

module _ {F : Type 0} ⦃f : Float F⦄ where
  -- float64(base) * math.Pow(2, attempt), cut off at float64(cap).
  unfoldable pub max_delay_of : ℤ → ℤ → ℕ → F
  max_delay_of base cap_ attempt =
      let delay = f.mul (f.of_int base) (f.ratio (2 ^ attempt) 1) in
      if f.lt (f.of_int cap_) delay then f.of_int cap_ else delay

module _ (F : Type 0) ⦃f : Float F⦄ where
  -- `Next`, where `random` is what math/rand draws: Int64N(n) is taken to be `random % n`.
  unfoldable pub full_jitter_next : ℤ → ℤ → ℕ → ℕ → ℤ
  unfolding max_delay_of
  full_jitter_next base cap_ attempt random =
      let delay = max_delay_of {F = F} base cap_ attempt in
      if f.le delay (float_ℕ 0) then pos 0 else pos (random % pos_part (f.trunc delay))

  unfoldable pub backoff_next : Backoff → ℕ → ℕ → ℤ
  unfolding full_jitter_next
  backoff_next (full_jitter base cap_) attempt random = full_jitter_next base cap_ attempt random
  backoff_next (custom next) attempt random = next attempt
