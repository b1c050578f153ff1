-- ===== src/Tests/PropagationRuns.antt =====
-- Runs of propagation.go.
use resile.Context.{background}
use resile.Float.{Milli, milli_float}
use resile.Propagation.Format.{format_grpc_timeout, inject_deadline_header}
use resile.Propagation.Reading.{parse_grpc_timeout}
use resile.Propagation.RoundTrip.{
  IsClose, parse-format_grpc_timeout, second-Truncates, minute-Truncates, hour-Truncates,
}
use resile.Propagation.Inject.{Within, read_header, inject_deadline_header-Within}
use resile.Prelude.{ℕ, ◌-◌, ◌≤◌, ◌<◌, ◌≡◌, ◌⊎◌, refl, pos, some, List, [], ◌∷◌, String, arith}

-- A minute and a half.
format_grpc_timeout_example :
    IsClose 90000000000 (parse_grpc_timeout (format_grpc_timeout Milli (pos 90000000000)))
format_grpc_timeout_example =
    parse-format_grpc_timeout 90000000000 (omega arith) (omega arith) second-Truncates
      minute-Truncates hour-Truncates

abbrev Headers : Type 0
Headers = List (String × List ℕ)

abbrev set : String → List ℕ → Headers → Headers
set key value h = (key, value) ∷ h

inject_deadline_header_example :
    let h =
      inject_deadline_header Milli set
        (record background { deadline = some 2000000000 })
        500000000
        "X-Deadline"
        [] in
    ((2000000000 ≤ 500000000) × (h ≡ []))
    ⊎ ((value : List ℕ) × (h ≡ (("X-Deadline", value) ∷ []))
        × (500000000 < 2000000000)
        × Within (2000000000 - 500000000) (read_header "X-Deadline" value))
inject_deadline_header_example =
    inject_deadline_header-Within set (record background { deadline = some 2000000000 }) 500000000
      2000000000 "X-Deadline" [] refl (omega arith) second-Truncates minute-Truncates hour-Truncates
