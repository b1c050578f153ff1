-- ===== src/Circuit/Expiry.antt =====
-- What the time-based window of circuit/breaker.go forgets as time passes, and what it does not.
use resile.Circuit.State.{time_based, empty_bucket, Breaker, num_buckets}
use resile.Circuit.Window.{
  bucket_idx, advance_from, advance_time_based_window, record_in, record_time_based, record_outcome,
  record_as, get_stats, stats_as,
}
use resile.Circuit.Buckets.{forgotten, clear_range_lem}
use native.Mathlib.Nat.{add-zero, add_assoc}
use resile.Prelude.{
  ℕ, ◌+◌, ◌-◌, ◌%◌, ◌≤◌, ◌<◌, ◌≡◌, refl, ap, ◌∙◌, Bool, some, pos, ◌≤ℤ◌, ltb_ℤ, leb, List, [], ◌∷◌,
  arith, length, get_or, length-set, if◌then◌else◌,
}
use resile.Circuit.Counts.{
  successes, failures_in, sum_success-eq, sum_failure-eq, one_if, one_unless, successes-bump,
  failures_in-bump, one_of_two, get_or_blank,
}

-- Each call comes less than d after the one before it.
abbrev pub Steady : ℕ → ℕ → List (ℕ × Bool) → Type 0
Steady d last [] = Unit {0}
Steady d last ((t, s) ∷ calls) = (last ≤ t) × (t < last + d) × Steady d t calls

abbrev pub succeeded : List (ℕ × Bool) → ℕ
succeeded [] = 0
succeeded ((t, s) ∷ calls) = one_if s + succeeded calls

abbrev pub failed : List (ℕ × Bool) → ℕ
failed [] = 0
failed ((t, s) ∷ calls) = one_unless s + failed calls

abbrev pub last_time : ℕ → List (ℕ × Bool) → ℕ
last_time last [] = last
last_time last ((t, s) ∷ calls) = last_time t calls

module _ {F : Type 0} where
  abbrev pub record_calls : List (ℕ × Bool) → Breaker F → Breaker F
  record_calls [] b = b
  record_calls ((t, s) ∷ calls) b = record_calls calls (record_outcome s t b)

  -- A time-based window whose last update was at `last`.
  pub record IsTimed (b : Breaker F) (last : ℕ) : Type 0 where
    pub by_time : b.config.window_type ≡ time_based
    pub updated : b.last_update_time ≡ some last
    pub ten : length b.buckets ≡ num_buckets
    pub within : pos b.bucket_duration ≤ℤ b.config.window_duration

  advance-steady :
      (b : Breaker F) (last now : ℕ)
      → IsTimed b last
      → last ≤ now
      → now < last + b.bucket_duration
      → advance_time_based_window now b ≡ b
  unfolding advance_time_based_window
  advance-steady b last now v h k = ground arith

  record-steady :
      (s : Bool) (b : Breaker F) (last now : ℕ)
      → IsTimed b last
      → last ≤ now
      → now < last + b.bucket_duration
      → record_outcome s now b ≡ record_in (bucket_idx b now) s now b
  unfolding record_outcome record_time_based
  record-steady s b last now v h k =
      ap (λ t. record_as t s now b) v.by_time
      ∙ ap (λ c. record_in (bucket_idx c now) s now c) (advance-steady b last now v h k)

  bucket_idx-lt : (b : Breaker F) (t : ℕ) → bucket_idx b t < num_buckets
  unfolding bucket_idx
  bucket_idx-lt b t = omega arith

  record_in-IsTimed :
      (s : Bool) (b : Breaker F) (i last now : ℕ)
      → IsTimed b last
      → IsTimed (record_in i s now b) now
  record_in-IsTimed s b i last now v = record {
    by_time = v.by_time;
    updated = refl;
    ten = length-set b.buckets i _ ∙ v.ten;
    within = v.within;
  }

  -- What the steady calls leave behind.
  pub record Holds (b : Breaker F) (last good bad d : ℕ) : Type 0 where
    pub timed : IsTimed b last
    pub wide : b.bucket_duration ≡ d
    pub good_calls : successes b.buckets ≡ good
    pub bad_calls : failures_in b.buckets ≡ bad

  record-Holds :
      (s : Bool) (b : Breaker F) (last now good bad d : ℕ)
      → last ≤ now
      → now < last + d
      → good + bad + 1 < 18446744073709551616
      → Holds b last good bad d
      → Holds (record_outcome s now b) now (good + one_if s) (bad + one_unless s) d
  record-Holds s b last now good bad d h k small v =
      let i = bucket_idx b now in
      let inside : i < length b.buckets = omega (arith, bucket_idx-lt b now, v.timed.ten) in
      rw (record-steady s b last now v.timed h (omega (arith, v.wide))) (record {
        timed = record_in-IsTimed s b i last now v.timed;
        wide = v.wide;
        good_calls =
            successes-bump s i b.buckets inside (omega (arith, v.good_calls))
            ∙ ap (λ n. n + one_if s) v.good_calls;
        bad_calls =
            failures_in-bump s i b.buckets inside (omega (arith, v.bad_calls))
            ∙ ap (λ n. n + one_unless s) v.bad_calls;
      })

  record_calls-Holds :
      (calls : List (ℕ × Bool)) (b : Breaker F) (last good bad d : ℕ)
      → Steady d last calls
      → good + bad + (succeeded calls + failed calls) < 18446744073709551616
      → Holds b last good bad d
      → Holds
          (record_calls calls b)
          (last_time last calls)
          (good + succeeded calls)
          (bad + failed calls)
          d
  record_calls-Holds [] b last good bad d st small v = rw (add-zero, add-zero) v
  record_calls-Holds ((t, s) ∷ calls) b last good bad d st small v =
      rw
        (
          ← add_assoc good (one_if s) (succeeded calls),
          ← add_assoc bad (one_unless s) (failed calls),
        )
        (record_calls-Holds calls (record_outcome s t b) t (good + one_if s) (bad + one_unless s) d
          st.2 (omega arith)
          (record-Holds s b last t good bad d st.0 st.1 (omega (arith, one_of_two s)) v))

  -- Calls that keep coming less than one bucket's width apart are never forgotten: however much
  -- longer than the window's duration they go on, the counts stay those of all calls ever recorded
  -- (as long as these are fewer than 2^64).
  pub get_stats-Steady :
      (calls : List (ℕ × Bool)) (b : Breaker F) (last later : ℕ)
      → IsTimed b last
      → Steady b.bucket_duration last calls
      → last_time last calls ≤ later
      → later < last_time last calls + b.bucket_duration
      → successes b.buckets + failures_in b.buckets + (succeeded calls + failed calls)
        < 18446744073709551616
      → let stats = get_stats later (record_calls calls b) in
        (stats.0 ≡ successes b.buckets + succeeded calls + (failures_in b.buckets + failed calls))
        × (stats.1 ≡ failures_in b.buckets + failed calls)
  unfolding get_stats
  get_stats-Steady calls b last later v st h k small =
      let held =
        record_calls-Holds calls b last (successes b.buckets) (failures_in b.buckets)
          b.bucket_duration st small
          (record { timed = v; wide = refl; good_calls = refl; bad_calls = refl }) in
      let c = record_calls calls b in
      let still =
        advance-steady c (last_time last calls) later held.timed h (omega (arith, held.wide)) in
      let bad = sum_failure-eq 0 c.buckets (omega (arith, held.good_calls, held.bad_calls)) in
      let good = sum_success-eq 0 c.buckets (omega (arith, held.good_calls, held.bad_calls)) in
      rw (ap (λ t. stats_as t later c) held.timed.by_time, still)
        (
          omega (arith, good, bad, held.good_calls, held.bad_calls),
          omega (arith, bad, held.bad_calls),
        )

  -- A time-based window of ten buckets that moves from one instant to a later one: after more than
  -- the window's duration every bucket is empty; after less, but at least one bucket's width, those
  -- are that lie from the one after the last update's to the current one's, going round the ring,
  -- and the others keep their counts; after less than one bucket's width nothing changes.
  pub advance_from_lem :
      (b : Breaker F) (last now : ℕ)
      → last ≤ now
      → length b.buckets ≡ num_buckets
      → pos b.bucket_duration ≤ℤ b.config.window_duration
      → (j : ℕ) → j < num_buckets
      → get_or (advance_from last now b).buckets j empty_bucket ≡ (
          if ltb_ℤ b.config.window_duration (pos (now - last))
          then empty_bucket
          else if leb b.bucket_duration (now - last)
          then forgotten ((bucket_idx b last + 1) % num_buckets) (bucket_idx b now) b.buckets j
          else get_or b.buckets j empty_bucket)
  unfolding advance_from
  advance_from_lem b last now h ten within j hj =
      let (r, found, same, all) =
        clear_range_lem num_buckets ((bucket_idx b last + 1) % num_buckets) (bucket_idx b now)
          b.buckets (omega arith) (bucket_idx-lt b now) (omega arith) in
      ground (arith, get_or_blank b.buckets j, all j hj)
