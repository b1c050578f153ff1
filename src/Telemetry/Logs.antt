-- ===== src/Telemetry/Logs.antt =====
-- What the instrumenter of telemetry/resileslog/slog.go logs of a run of the retry loop of retry.go.
use resile.Retry.Loop.{returned, panicked}
use resile.Retry.Trace.{Entry}
use resile.Telemetry.Attribute.{Attribute}
use resile.Telemetry.Counts.{observe}
use resile.Telemetry.Slog
use resile.Telemetry.Slog.{SlogApi, SlogInstrumenter, failure_attributes}
use resile.Prelude.{ℕ, suc, ◌+◌, ◌≡◌, none, some, List, [], ◌∷◌, String, arith}

-- How many calls of a run failed.
abbrev pub failures : List Entry → ℕ
failures [] = 0
failures ((st, returned (some e)) ∷ l) = suc (failures l)
failures ((st, returned none) ∷ l) = failures l
failures ((st, panicked v) ∷ l) = failures l

module _ {Ctx Logger A : Type 0} (api : SlogApi Ctx Logger A) (s : SlogInstrumenter Logger)
    (logged : A → ℕ) where
  -- Every call of LogAttrs writes one record.
  abbrev pub WritesOne : Type 0
  WritesOne =
      (c : Ctx) (m : String) (l : List Attribute) (a : A)
      → logged (api.log_attrs s.logger c m l a) ≡ logged a + 1

  abbrev pub observed : Ctx → List Entry → A → A
  observed = observe (Slog.before_attempt api s) (Slog.after_attempt api s)

  -- Every failed call of a run is logged with one record, also the first and the last, and nothing
  -- else is.
  failures-logged :
      (ctx : Ctx) (l : List Entry) (a : A)
      → WritesOne
      → logged (observed ctx l a) ≡ logged a + failures l
  unfolding Slog.before_attempt Slog.after_attempt
  failures-logged ctx [] a one = omega arith
  failures-logged ctx ((st, returned none) ∷ l) a one = failures-logged ctx l a one
  failures-logged ctx ((st, returned (some e)) ∷ l) a one =
      let b =
        api.log_attrs s.logger ctx "retry attempt failed"
          (failure_attributes (record st { last_error = some e }) e) a in
      omega (
        arith,
        failures-logged ctx l b one,
        one ctx "retry attempt failed" (failure_attributes (record st { last_error = some e }) e) a,
      )
  failures-logged ctx ((st, panicked v) ∷ l) a one = failures-logged ctx l a one
