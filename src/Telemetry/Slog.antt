-- ===== src/Telemetry/Slog.antt =====
-- telemetry/resileslog/slog.go: the instrumenter that logs. log/slog, with the state that it keeps, is a
-- parameter.
use resile.Errors.{Err}
use resile.Retry.Loop.{RetryState}
use resile.Telemetry.Attribute.{number, string, error_text, duration, Attribute}
use resile.Telemetry.Otel.{is_named}
use resile.Prelude.{ltb_ℤ, pos, Option, none, some, List, [], ◌∷◌, ◌++◌, String, if◌then◌else◌}

-- LogAttrs at the level Warn, and WarnContext.
pub record SlogApi (Ctx Logger A : Type 0) : Type 0 where
  pub log_attrs : Logger → Ctx → String → List Attribute → A → A
  pub warn_context : Logger → Ctx → String → List Attribute → A → A

pub record SlogInstrumenter (Logger : Type 0) : Type 0 where
  pub logger : Logger

abbrev pub new_slog : {Logger : Type 0} → Logger → SlogInstrumenter Logger
new_slog logger = record { logger = logger }

abbrev pub failure_attributes : RetryState → Err → List Attribute
failure_attributes st e =
    (("retry.attempt", number st.attempt)
      ∷ ("retry.total_duration", duration (pos st.total_duration))
      ∷ ("error.message", error_text e)
      ∷ [])
    ++ (if is_named st.name then ("retry.name", string st.name) ∷ [] else [])
    ++ (if ltb_ℤ (pos 0) st.next_delay
        then ("retry.next_delay", duration st.next_delay) ∷ []
        else [])

module _ {Ctx Logger A : Type 0} (api : SlogApi Ctx Logger A) (s : SlogInstrumenter Logger) where
  unfoldable pub before_attempt : Ctx → RetryState → A → Ctx × A
  before_attempt ctx st a = (ctx, a)

  abbrev pub log_failure : Ctx → RetryState → Option Err → A → A
  log_failure ctx st none a = a
  log_failure ctx st (some e) a =
      api.log_attrs s.logger ctx "retry attempt failed" (failure_attributes st e) a

  unfoldable pub after_attempt : Ctx → RetryState → A → A
  after_attempt ctx st a = log_failure ctx st st.last_error a

  unfoldable pub on_bulkhead_full : Ctx → RetryState → A → A
  on_bulkhead_full ctx st a =
      api.warn_context s.logger ctx "resile bulkhead capacity reached"
        (("resile.name", string st.name) ∷ []) a

  unfoldable pub on_rate_limit_exceeded : Ctx → RetryState → A → A
  on_rate_limit_exceeded ctx st a =
      api.warn_context s.logger ctx "resile rate limit exceeded"
        (("resile.name", string st.name) ∷ []) a
