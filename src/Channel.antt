-- ===== src/Channel.antt =====
-- The health channels of circuit/breaker.go and adaptive_concurrency.go: a buffered channel of Go as
-- the list of what waits in it, oldest first, or `none` until it is made.
use resile.Prelude.{ℕ, Option, none, some, List, [], ◌∷◌, ◌++◌, length, ltb, if◌then◌else◌}

abbrev pub health_capacity : ℕ
health_capacity = 10

module _ {E : Type 0} where
  -- A send that never blocks: a full channel drops the event.
  abbrev pub try_send : E → List E → List E
  try_send e q = if ltb (length q) health_capacity then q ++ e ∷ [] else q

  abbrev pub send_event : E → Option (List E) → Option (List E)
  send_event e none = none
  send_event e (some q) = some (try_send e q)
