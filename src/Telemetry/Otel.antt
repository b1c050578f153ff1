-- ===== src/Telemetry/Otel.antt =====
-- telemetry/resileotel/otel.go: the instrumenter that writes spans and a counter. OpenTelemetry, with
-- the state that it keeps, is a parameter.
use resile.Errors.{Err}
use resile.Retry.Loop.{RetryState}
use resile.Telemetry.Attribute.{Value, number, string, error_type, error_text, duration, Attribute}
use Prim.Native.String
use text.Mathlib.Text
use resile.Prelude.{
  ℕ, ltb, ltb_ℤ, pos, Bool, not, Option, none, some, List, [], ◌∷◌, String, ◌⊎◌, inl, inr,
  if◌then◌else◌,
}

pub data Code : Type 0 where
  error ok : Code

-- The methods of the tracer, the counter and the spans. A context may carry a span.
pub record OtelApi (Ctx Span Tracer Counter A : Type 0) : Type 0 where
  pub start : Tracer → Ctx → String → List Attribute → A → Ctx × Span × A
  pub span_from_context : Ctx → Span
  pub add : Counter → Ctx → ℕ → List Attribute → A → A
  pub record_error : Span → Err → A → A
  pub set_status : Span → Code → Value → A → A
  pub set_attributes : Span → List Attribute → A → A
  pub end_span : Span → A → A

pub record OtelInstrumenter (Tracer Counter : Type 0) : Type 0 where
  pub tracer : Tracer
  pub counter : Counter

abbrev pub instrumentation_name : String
instrumentation_name = "github.com/cinar/resile"

abbrev pub or_global : {P : Type 0} → P → Option P → P
or_global global none = global
or_global global (some p) = p

module _ {Tp Mp Tracer Counter : Type 0} (global_tp : Tp) (global_mp : Mp)
    (tracer_of : Tp → String → Tracer)
    (int64_counter : Mp → String → String → String → Err ⊎ Counter)
    (wrap : String → Err → Err) where
  abbrev pub with_counter : Tracer → Err ⊎ Counter → Err ⊎ OtelInstrumenter Tracer Counter
  with_counter tracer (inl e) = inl (wrap "failed to create counter" e)
  with_counter tracer (inr counter) = inr (record { tracer = tracer; counter = counter })

  unfoldable pub new_otel : Option Tp → Option Mp → Err ⊎ OtelInstrumenter Tracer Counter
  new_otel tp mp = with_counter (tracer_of (or_global global_tp tp) instrumentation_name) (
      int64_counter (or_global global_mp mp) instrumentation_name "resile_retries_total"
        "Total number of retry attempts")

abbrev pub is_named : String → Bool
is_named name = not (Text.◌==◌ name "")

abbrev pub span_name : String → String
span_name name = if is_named name then String.◌++◌ "retry.attempt: " name else "retry.attempt"

module _ {Ctx Span Tracer Counter A : Type 0} (api : OtelApi Ctx Span Tracer Counter A)
    (o : OtelInstrumenter Tracer Counter) where
  abbrev pub retry_attributes : RetryState → List Attribute
  retry_attributes st =
      ("retry_num", number st.attempt)
      ∷ ("error_type", error_type st.last_error)
      ∷ (if is_named st.name then ("retry_name", string st.name) ∷ [] else [])

  abbrev pub count_retry : Ctx → RetryState → A → A
  count_retry ctx st a =
      if ltb 0 st.attempt then api.add o.counter ctx 1 (retry_attributes st) a else a

  unfoldable pub before_attempt : Ctx → RetryState → A → Ctx × A
  before_attempt ctx st a =
      let (c, s, b) =
        api.start o.tracer ctx (span_name st.name)
          (("retry.num", number st.attempt) ∷ ("retry.name", string st.name) ∷ []) a in
      (c, count_retry c st b)

  abbrev pub set_outcome : Span → Option Err → A → A
  set_outcome span none a = api.set_status span ok (string "success") a
  set_outcome span (some e) a =
      api.set_attributes span (("error.type", error_type (some e)) ∷ [])
        (api.set_status span error (error_text e) (api.record_error span e a))

  abbrev pub set_delay : Span → RetryState → A → A
  set_delay span st a =
      if ltb_ℤ (pos 0) st.next_delay
      then api.set_attributes span (("retry.backoff_duration", duration st.next_delay) ∷ []) a
      else a

  unfoldable pub after_attempt : Ctx → RetryState → A → A
  after_attempt ctx st a =
      let span = api.span_from_context ctx in
      api.end_span span (set_delay span st (set_outcome span st.last_error a))

  abbrev pub failed_span : String → String → Ctx → RetryState → A → A
  failed_span name message ctx st a =
      let (c, span, b) = api.start o.tracer ctx name (("resile.name", string st.name) ∷ []) a in
      api.end_span span (api.set_status span error (string message) b)

  unfoldable pub on_bulkhead_full : Ctx → RetryState → A → A
  on_bulkhead_full = failed_span "resile.bulkhead_full" "bulkhead capacity reached"

  unfoldable pub on_rate_limit_exceeded : Ctx → RetryState → A → A
  on_rate_limit_exceeded = failed_span "resile.rate_limit_exceeded" "rate limit exceeded"
