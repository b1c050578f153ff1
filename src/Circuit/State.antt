-- ===== src/Circuit/State.antt =====
-- The types of circuit/breaker.go and circuit/statevent.go, and `New`. Times are nanoseconds of
-- the monotonic clock, from an origin later than Go's zero time; `time.Time{}` is `none`.
use resile.Float.{Float}
use resile.Prelude.{
  ℕ, ◌/◌, ◌*◌, ℤ, pos, pos_part, Bool, false, ◌||◌, Option, none, List, [], String, leb_ℤ, ◌==◌,
  if◌then◌else◌, replicate,
}

pub data State : Type 0 where
  closed open_ half_open : State

pub data WindowType : Type 0 where
  count_based time_based : WindowType

pub data HealthState : Type 0 where
  healthy degraded unhealthy : HealthState

pub record StateEvent : Type 0 where
  pub component : String
  pub state : HealthState
  pub timestamp : ℕ
  pub message : String

abbrev pub num_buckets : ℕ
num_buckets = 10

abbrev pub second : ℕ
second = 1000000000

-- uint32 and uint64 fields are natural numbers; the operations on them wrap.
pub record Config (F : Type 0) : Type 0 where
  pub window_type : WindowType
  pub window_size : ℕ
  pub window_duration : ℤ
  pub failure_rate_threshold : F
  pub minimum_calls : ℕ
  pub reset_timeout : ℤ
  pub half_open_max_calls : ℕ

pub record Bucket : Type 0 where
  pub success : ℕ
  pub failure : ℕ

abbrev pub empty_bucket : Bucket
empty_bucket = record { success = 0; failure = 0 }

-- `health_ch` is `none` until the channel is created, and then the events that wait in it.
pub record Breaker (F : Type 0) : Type 0 where
  pub config : Config F
  pub state : State
  pub opened_at : ℕ
  pub ring : List Bool
  pub ring_idx : ℕ
  pub ring_full : Bool
  pub total : ℕ
  pub failures : ℕ
  pub buckets : List Bucket
  pub bucket_duration : ℕ
  pub last_update_time : Option ℕ
  pub half_open_calls : ℕ
  pub half_open_failures : ℕ
  pub half_open_completed : ℕ
  pub health_ch : Option (List StateEvent)

abbrev pub default_ℕ : ℕ → ℕ → ℕ
default_ℕ d n = if n == 0 then d else n

abbrev pub default_duration : ℕ → ℤ → ℤ
default_duration d z = if leb_ℤ z (pos 0) then pos d else z

abbrev pub ring_of : WindowType → ℕ → List Bool
ring_of count_based n = replicate n false
ring_of time_based n = []

abbrev pub buckets_of : WindowType → List Bucket
buckets_of count_based = []
buckets_of time_based = replicate num_buckets empty_bucket

abbrev pub bucket_duration_of : WindowType → ℤ → ℕ
bucket_duration_of count_based d = 0
bucket_duration_of time_based d = default_ℕ second (pos_part d / num_buckets)

module _ {F : Type 0} ⦃f : Float F⦄ where
  abbrev pub default_threshold : F → F
  default_threshold t =
      if f.le t (f.of_int (pos 0)) || f.lt (f.of_int (pos 100)) t then f.of_int (pos 50) else t

  -- The defaults that `New` fills in.
  unfoldable pub with_defaults : Config F → Config F
  with_defaults cfg = record {
    window_type = cfg.window_type;
    window_size = default_ℕ 100 cfg.window_size;
    window_duration = default_duration (60 * second) cfg.window_duration;
    failure_rate_threshold = default_threshold cfg.failure_rate_threshold;
    minimum_calls = default_ℕ 10 cfg.minimum_calls;
    reset_timeout = default_duration (60 * second) cfg.reset_timeout;
    half_open_max_calls = default_ℕ 10 cfg.half_open_max_calls;
  }

  unfoldable pub new : Config F → Breaker F
  unfolding with_defaults
  new c =
      let cfg = with_defaults c in
      record {
        config = cfg;
        state = closed;
        opened_at = 0;
        ring = ring_of cfg.window_type cfg.window_size;
        ring_idx = 0;
        ring_full = false;
        total = 0;
        failures = 0;
        buckets = buckets_of cfg.window_type;
        bucket_duration = bucket_duration_of cfg.window_type cfg.window_duration;
        last_update_time = none;
        half_open_calls = 0;
        half_open_failures = 0;
        half_open_completed = 0;
        health_ch = none;
      }
