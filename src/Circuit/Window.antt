-- ===== src/Circuit/Window.antt =====
-- The two sliding windows of circuit/breaker.go: recording an outcome, clearing, and the counts.
use resile.Circuit.State.{
  WindowType, count_based, time_based, Bucket, empty_bucket, Breaker, num_buckets,
}
use resile.Prelude.{
  ℕ, zero, suc, ◌+◌, ◌/◌, ◌%◌, pos, sub_ℕ, ltb_ℤ, leb_ℤ, Bool, true, false, Option, none, some,
  List, [], ◌∷◌, map, get_or, set, length, ◌==◌, if◌then◌else◌,
}

abbrev pub u32 : ℕ → ℕ
u32 n = n % 4294967296

abbrev pub u64 : ℕ → ℕ
u64 n = n % 18446744073709551616

abbrev pub u64_pred : ℕ → ℕ
u64_pred n = u64 (n + 18446744073709551615)

unfoldable pub clear_buckets : List Bucket → List Bucket
clear_buckets bs = map (λ _. empty_bucket) bs

module _ {F : Type 0} where
  abbrev pub evict : Bool → Breaker F → Breaker F
  evict true b =
      if get_or b.ring b.ring_idx false then b else record b { failures = u64_pred b.failures }
  evict false b = record b { total = u64 (b.total + 1) }

  abbrev pub write_slot : Bool → Breaker F → Breaker F
  write_slot true b = record b { ring = set b.ring b.ring_idx true }
  write_slot false b = record b {
    ring = set b.ring b.ring_idx false;
    failures = u64 (b.failures + 1);
  }

  abbrev pub move_on : Breaker F → Breaker F
  move_on b =
      let next = u32 (b.ring_idx + 1) % length b.ring in
      record b { ring_idx = next; ring_full = if next == 0 then true else b.ring_full }

  unfoldable pub record_count_based : Bool → Breaker F → Breaker F
  record_count_based success b = move_on (write_slot success (evict b.ring_full b))

  unfoldable pub bucket_idx : Breaker F → ℕ → ℕ
  bucket_idx b t = t / b.bucket_duration % num_buckets

-- The loop of `advanceTimeBasedWindow` from bucket `i` to bucket `last`, on fuel.
unfoldable pub clear_range : ℕ → ℕ → ℕ → List Bucket → Option (List Bucket)
clear_range zero i last bs = none
clear_range (suc fuel) i last bs =
    let cleared = set bs i empty_bucket in
    let rest = clear_range fuel ((i + 1) % num_buckets) last cleared in
    if i == last then some cleared else rest

abbrev pub or_else {ℓ} : {A : Type ℓ} → A → Option A → A
or_else d none = d
or_else d (some a) = a

abbrev pub bump : Bool → Bucket → Bucket
bump true u = record u { success = u64 (u.success + 1) }
bump false u = record u { failure = u64 (u.failure + 1) }

unfoldable pub sum_success : ℕ → List Bucket → ℕ
sum_success acc [] = acc
sum_success acc (u ∷ us) = sum_success (u64 (acc + u.success)) us

unfoldable pub sum_failure : ℕ → List Bucket → ℕ
sum_failure acc [] = acc
sum_failure acc (u ∷ us) = sum_failure (u64 (acc + u.failure)) us

module _ {F : Type 0} where
  unfoldable pub advance_from : ℕ → ℕ → Breaker F → Breaker F
  unfolding bucket_idx clear_buckets
  advance_from last now b =
      let diff = sub_ℕ now last in
      if ltb_ℤ b.config.window_duration diff
      then record b { buckets = clear_buckets b.buckets }
      else if leb_ℤ (pos b.bucket_duration) diff
      then record b {
        buckets = or_else b.buckets (
            clear_range num_buckets ((bucket_idx b last + 1) % num_buckets) (bucket_idx b now)
              b.buckets);
      }
      else b

  unfoldable pub advance_time_based_window : ℕ → Breaker F → Breaker F
  unfolding advance_from
  advance_time_based_window now b = elim b.last_update_time [
    | none ↦ record b { last_update_time = some now }
    | some last ↦ advance_from last now b
  ]

  abbrev pub record_in : ℕ → Bool → ℕ → Breaker F → Breaker F
  record_in idx success now b = record b {
    buckets = set b.buckets idx (bump success (get_or b.buckets idx empty_bucket));
    last_update_time = some now;
  }

  unfoldable pub record_time_based : Bool → ℕ → Breaker F → Breaker F
  unfolding advance_time_based_window bucket_idx
  record_time_based success now b =
      let b' = advance_time_based_window now b in record_in (bucket_idx b' now) success now b'

  abbrev pub record_as : WindowType → Bool → ℕ → Breaker F → Breaker F
  record_as count_based success now b = record_count_based success b
  record_as time_based success now b = record_time_based success now b

  unfoldable pub record_outcome : Bool → ℕ → Breaker F → Breaker F
  record_outcome success now b = record_as b.config.window_type success now b

  abbrev pub clear_as : WindowType → Breaker F → Breaker F
  clear_as count_based b = record b {
    ring = map (λ _. false) b.ring;
    ring_idx = 0;
    ring_full = false;
    total = 0;
    failures = 0;
  }
  clear_as time_based b = record b { buckets = clear_buckets b.buckets; last_update_time = none }

  unfoldable pub clear_window : Breaker F → Breaker F
  unfolding clear_buckets
  clear_window b = clear_as b.config.window_type b

  abbrev pub stats_as : WindowType → ℕ → Breaker F → ℕ × ℕ × Breaker F
  stats_as count_based now b = (b.total, b.failures, b)
  stats_as time_based now b =
      let b' = advance_time_based_window now b in
      let failures = sum_failure 0 b'.buckets in
      (u64 (sum_success 0 b'.buckets + failures), failures, b')

  -- The total, the failures, and the breaker, whose time-based window the call moves on.
  unfoldable pub get_stats : ℕ → Breaker F → ℕ × ℕ × Breaker F
  get_stats now b = stats_as b.config.window_type now b
