-- ===== src/Propagation/Reading.antt =====
-- What a server reads from the headers that propagation.go writes.
use resile.Propagation.Format.{
  microsecond, millisecond, second, minute, hour, digits_onto, decimal_onto,
}
use resile.Prelude.{
  ℕ, zero, suc, ◌+◌, ◌-◌, ◌*◌, ◌/◌, ◌%◌, ◌≤◌, ◌<◌, ◌≡◌, ◌∙◌, ap, false, ◌&&◌, Option, none, some,
  List, [], ◌∷◌, ltb, leb, ◌==◌, if◌then◌else◌, arith,
}

-- The units of the gRPC protocol, in nanoseconds, and the number of values that have at most eight
-- digits, which it allows.
abbrev pub unit_of : ℕ → Option ℕ
unit_of c =
    if c == b'n'
    then some 1
    else if c == b'u'
    then some microsecond
    else if c == b'm'
    then some millisecond
    else if c == b'S'
    then some second
    else if c == b'M'
    then some minute
    else if c == b'H'
    then some hour
    else none

abbrev pub values : ℕ
values = 100000000

-- A number in decimal, and what follows it.
unfoldable pub read_number : ℕ → List ℕ → ℕ × List ℕ
read_number n [] = (n, [])
read_number n (c ∷ cs) =
    let rest = read_number (n * 10 + (c - b'0')) cs in
    if leb b'0' c && leb c b'9' then rest else (n, c ∷ cs)

abbrev pub scaled : ℕ × List ℕ → Option ℕ
scaled (n, []) = none
scaled (n, c ∷ []) = elim (unit_of c) [
  | none ↦ none
  | some u ↦ if ltb n values then some (n * u) else none
]
scaled (n, c ∷ d ∷ cs) = none

-- A timeout of the gRPC protocol, in nanoseconds.
pub parse_grpc_timeout : List ℕ → Option ℕ
parse_grpc_timeout cs = scaled (read_number 0 cs)

-- A number and nothing behind it, in milliseconds.
abbrev pub scaled_ms : ℕ × List ℕ → Option ℕ
scaled_ms (n, []) = some (n * millisecond)
scaled_ms (n, c ∷ cs) = none

pub parse_ms : List ℕ → Option ℕ
parse_ms cs = scaled_ms (read_number 0 cs)

read_number-digits :
    (k n : ℕ) (rest : List ℕ) → n ≤ k → read_number 0 (digits_onto k n rest) ≡ read_number n rest
unfolding read_number digits_onto
read_number-digits zero n rest h = ap (λ m. read_number m rest) (omega arith)
read_number-digits (suc k) n rest h =
    ground (arith, read_number-digits k (n / 10) ((b'0' + n % 10) ∷ rest))

pub read_number-decimal :
    (n : ℕ) (rest : List ℕ) → read_number 0 (decimal_onto n rest) ≡ read_number n rest
unfolding decimal_onto read_number
read_number-decimal n rest = ground (arith, read_number-digits n n rest)

-- A number in decimal and a unit are read as what they say.
pub unit_read :
    (n c u : ℕ)
    → unit_of c ≡ some u
    → (leb b'0' c && leb c b'9') ≡ false
    → n < values
    → parse_grpc_timeout (decimal_onto n (c ∷ [])) ≡ some (n * u)
unfolding parse_grpc_timeout read_number
unit_read n c u h k fits = ap scaled (read_number-decimal n (c ∷ [])) ∙ ground (arith, h, k, fits)

-- A number in decimal, with nothing behind it, is read as that many milliseconds.
pub ms_read : (n : ℕ) → parse_ms (decimal_onto n []) ≡ some (n * millisecond)
unfolding parse_ms read_number
ms_read n = ap scaled_ms (read_number-decimal n [])
