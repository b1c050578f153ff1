-- ===== src/Telemetry/Attribute.antt =====
-- What the instrumenters of telemetry/ report.
use resile.Errors.{Err}
use resile.Prelude.{ℕ, ℤ, Option, String}

-- `error_type` is what %T prints, `error_text` the error's message, and `duration` a time.Duration.
pub data Value : Type 0 where
  number : ℕ → Value
  string : String → Value
  error_type : Option Err → Value
  error_text : Err → Value
  duration : ℤ → Value

abbrev pub Attribute : Type 0
Attribute = String × Value
