-- ===== src/Telemetry/Counts.antt =====
-- What the instrumenter of telemetry/resileotel/otel.go counts of a run of the retry loop of retry.go.
use resile.Errors.{Err}
use resile.Retry.Loop.{RetryState, Outcome, returned, panicked, Effects, retry}
use resile.Retry.Trace.{Entry, logged, Follows}
use resile.Retry.History.{retry-Follows}
use resile.Telemetry.Attribute.{Attribute, Value, number, string, error_text, error_type, duration}
use resile.Telemetry.Otel
use resile.Telemetry.Otel.{
  OtelApi, OtelInstrumenter, Code, error, ok, span_name, retry_attributes, set_outcome, set_delay,
}
use resile.Prelude.{
  ℕ, suc, ◌+◌, ◌-◌, ◌≡◌, ◌<◌, ◌⊎◌, ◌++◌, Option, none, some, List, [], ◌∷◌, length, String, ap, ltb,
  ltb_ℤ, lt→ltb, pos, Bool, Bool-cases, inl, inr, arith,
}

-- The calls of `next` in a run, as an instrumenter just inside the retry loop is told of them: after a
-- panic it is not called again.
module _ {Ctx A : Type 0} (before : Ctx → RetryState → A → Ctx × A)
    (after : Ctx → RetryState → A → A) where
  abbrev pub observe : Ctx → List Entry → A → A
  observe ctx [] a = a
  observe ctx ((st, returned e) ∷ l) a =
      let (c, b) = before ctx st a in observe ctx l (after c (record st { last_error = e }) b)
  observe ctx ((st, panicked v) ∷ l) a = observe ctx l (before ctx st a).1

-- What the counter adds up to, and how many spans were started, before and after a call.
abbrev pub Changes : {A : Type 0} → (A → ℕ) → (A → ℕ) → ℕ → ℕ → A → A → Type 0
Changes total started m n a b = (total b ≡ total a + m) × (started b ≡ started a + n)

-- Only Add changes the counter, and only Start starts a span.
pub record IsMetered {Ctx Span Tracer Counter A : Type 0} (api : OtelApi Ctx Span Tracer Counter A)
    (total started : A → ℕ) : Type 0 where
  pub start :
      (t : Tracer) (c : Ctx) (n : String) (l : List Attribute) (a : A)
      → Changes total started 0 1 a (api.start t c n l a).2
  pub add :
      (k : Counter) (c : Ctx) (n : ℕ) (l : List Attribute) (a : A)
      → Changes total started n 0 a (api.add k c n l a)
  pub record_error :
      (s : Span) (e : Err) (a : A) → Changes total started 0 0 a (api.record_error s e a)
  pub set_status :
      (s : Span) (c : Code) (v : Value) (a : A)
      → Changes total started 0 0 a (api.set_status s c v a)
  pub set_attributes :
      (s : Span) (l : List Attribute) (a : A)
      → Changes total started 0 0 a (api.set_attributes s l a)
  pub end_span : (s : Span) (a : A) → Changes total started 0 0 a (api.end_span s a)

module _ {Ctx Span Tracer Counter A : Type 0} (api : OtelApi Ctx Span Tracer Counter A)
    (o : OtelInstrumenter Tracer Counter) (total started : A → ℕ)
    (metered : IsMetered api total started) where
  counted_later :
      (ctx : Ctx) (st : RetryState) (a : A)
      → 0 < st.attempt
      → Changes total started 1 1 a (Otel.before_attempt api o ctx st a).1
  unfolding Otel.before_attempt
  counted_later ctx st a later =
      let (c, s, b) =
        api.start o.tracer ctx (span_name st.name)
          (("retry.num", number st.attempt) ∷ ("retry.name", string st.name) ∷ []) a in
      let (m, n) = metered.add o.counter c 1 (retry_attributes api o st) b in
      let (k, l) =
        metered.start o.tracer ctx (span_name st.name)
          (("retry.num", number st.attempt) ∷ ("retry.name", string st.name) ∷ []) a in
      rw (lt→ltb 0 st.attempt later) (omega arith, omega arith)

  counted_first :
      (ctx : Ctx) (st : RetryState) (a : A)
      → st.attempt ≡ 0
      → Changes total started 0 1 a (Otel.before_attempt api o ctx st a).1
  unfolding Otel.before_attempt
  counted_first ctx st a first = rw (ap (λ (n : ℕ). ltb 0 n) first) (
      metered.start o.tracer ctx (span_name st.name)
        (("retry.num", number st.attempt) ∷ ("retry.name", string st.name) ∷ []) a)

  outcome_counted :
      (s : Span) (e : Option Err) (a : A) → Changes total started 0 0 a (set_outcome api o s e a)
  outcome_counted s none a = metered.set_status s ok (string "success") a
  outcome_counted s (some e) a =
      let b = api.record_error s e a in
      let c = api.set_status s error (error_text e) b in
      let (m, n) = metered.record_error s e a in
      let (k, l) = metered.set_status s error (error_text e) b in
      let (p, q) = metered.set_attributes s (("error.type", error_type (some e)) ∷ []) c in
      (omega arith, omega arith)

  delay_counted :
      (s : Span) (st : RetryState) (a : A) → Changes total started 0 0 a (set_delay api o s st a)
  delay_counted s st a = elim (Bool-cases (ltb_ℤ (pos 0) st.next_delay)) [
    | inl known ↦
        rw known
          (metered.set_attributes s (("retry.backoff_duration", duration st.next_delay) ∷ []) a)
    | inr unknown ↦ rw unknown (omega arith, omega arith)
  ]

  after_counted :
      (ctx : Ctx) (st : RetryState) (a : A)
      → Changes total started 0 0 a (Otel.after_attempt api o ctx st a)
  unfolding Otel.after_attempt
  after_counted ctx st a =
      let s = api.span_from_context ctx in
      let b = set_outcome api o s st.last_error a in
      let (m, n) = outcome_counted s st.last_error a in
      let (k, l) = delay_counted s st b in
      let (p, q) = metered.end_span s (set_delay api o s st b) in (omega arith, omega arith)

  abbrev pub observed : Ctx → List Entry → A → A
  observed = observe (Otel.before_attempt api o) (Otel.after_attempt api o)

  -- Every call of a run is counted as a retry.
  abbrev Counted : Ctx → List Entry → Type 0
  Counted ctx l = (a : A) → Changes total started (length l) (length l) a (observed ctx l a)

  none-Counted : (ctx : Ctx) (l : List Entry) → l ≡ [] → Counted ctx l
  none-Counted ctx l e a = rw e (omega arith, omega arith)

  entry-counted :
      (m : ℕ) (ctx : Ctx) (st : RetryState) (r : Outcome) (rest : List Entry) (a : A)
      → Changes total started m 1 a (Otel.before_attempt api o ctx st a).1
      → Counted ctx rest
      → Changes total started
          (m + length rest)
          (suc (length rest))
          a
          (observed ctx ((st, r) ∷ rest) a)
  entry-counted m ctx st (returned e) rest a (i, j) counted =
      let (c, b) = Otel.before_attempt api o ctx st a in
      let (k, l) = after_counted c (record st { last_error = e }) b in
      let (x, y) = counted (Otel.after_attempt api o c (record st { last_error = e }) b) in
      (omega arith, omega arith)
  entry-counted m ctx st (panicked p) rest a (i, j) counted =
      let (x, y) = counted (Otel.before_attempt api o ctx st a).1 in (omega arith, omega arith)

  module _ (retried : Err → Bool) (limit : ℕ) where
    next_calls :
        (n : ℕ) (ctx : Ctx) (errs : List Err) (st : RetryState) (r : Outcome) (rest : List Entry)
        (broken : List Err) (out : Outcome)
        → Follows retried limit n errs ((st, r) ∷ rest) broken out
        → (st.attempt ≡ n)
          × ((rest ≡ []) ⊎ ((more : List Err) × Follows retried limit (n + 1) more rest broken out))
    next_calls n ctx errs st (returned none) rest broken out (h, at, q, end, calm, known) =
        (at, inl end)
    next_calls n ctx errs st (panicked p) rest broken out (h, at, q, end, calm, known) =
        (at, inl end)
    next_calls n ctx errs st (returned (some e)) rest broken out (h, at, known, inl ends) =
        (at, inl ends.0)
    next_calls n ctx errs st (returned (some e)) rest broken out
          (h, at, known, inr (shut, again, goes)) =
        (at, inr (errs ++ e ∷ [], goes))

    follow-Counted :
        (n : ℕ) (ctx : Ctx) (errs : List Err) (l : List Entry) (broken : List Err) (out : Outcome)
        → 0 < n
        → Follows retried limit n errs l broken out
        → Counted ctx l
    follow-Counted n ctx errs [] broken out later v a = (omega arith, omega arith)
    follow-Counted n ctx errs ((st, r) ∷ rest) broken out later v a =
        let (at, next) = next_calls n ctx errs st r rest broken out v in
        let (x, y) =
          entry-counted 1 ctx st r rest a (counted_later ctx st a (omega (arith, at, later)))
            (elim next [
              | inl end ↦ none-Counted ctx rest end
              | inr (more, goes) ↦
                  follow-Counted (n + 1) ctx more rest broken out (omega arith) goes
            ]) in
        (omega arith, omega arith)

    run-counted :
        (ctx : Ctx) (l : List Entry) (broken : List Err) (out : Outcome) (a : A)
        → Follows retried limit 0 [] l broken out
        → Changes total started (length l - 1) (length l) a (observed ctx l a)
    run-counted ctx [] broken out a v = (omega arith, omega arith)
    run-counted ctx ((st, r) ∷ rest) broken out a v =
        let (at, next) = next_calls 0 ctx [] st r rest broken out v in
        let (x, y) = entry-counted 0 ctx st r rest a (counted_first ctx st a at) (elim next [
          | inl end ↦ none-Counted ctx rest end
          | inr (more, goes) ↦ follow-Counted 1 ctx more rest broken out (omega arith) goes
        ]) in
        (omega arith, omega arith)

  -- A run of the retry loop whose calls the OpenTelemetry instrumenter is told of starts a span for
  -- each call, and adds to resile_retries_total the number of calls but the first.
  pub retry-counted :
      {W : Type 0} (eff : Effects W) (limit : ℕ) (st : RetryState) (w : W) (ctx : Ctx) (a : A)
      → let calls = (retry (logged eff) limit st (w, ([], []))).1.1.0 in
        Changes total started (length calls - 1) (length calls) a (observed ctx calls a)
  retry-counted eff limit st w ctx a =
      let r = retry (logged eff) limit st (w, ([], [])) in
      run-counted eff.should_retry limit ctx r.1.1.0 r.1.1.1 r.0 a (retry-Follows eff limit st w)
