-- ===== src/Examples/Resume/Parsed.antt =====
-- The Range header that the client of examples/http_resume_stream/main.go writes, read by the handler.
use resile.Propagation.Format.{digits_onto, decimal_onto}
use resile.Propagation.Reading.{read_number, read_number-decimal}
use resile.Examples.Resume.Range.{
  dash, range_header, first_part, strip_plus, in_int64, number_in, parse_int, parse_range,
}
use resile.Prelude.{
  ℕ, zero, suc, ◌+◌, ◌/◌, ◌%◌, ◌^◌, ◌<◌, ◌≤◌, ◌≡◌, refl, true, false, some, List, [], ◌∷◌, lt→ltb,
  ◌==◌, arith, if◌then◌else◌,
}

-- The text starts with a digit.
abbrev Starts : List ℕ → Type 0
Starts [] = ⊥
Starts (c ∷ cs) = (b'0' ≤ c) × (c ≤ b'9')

digits_onto-Starts : (k n : ℕ) (rest : List ℕ) → Starts rest → Starts (digits_onto k n rest)
unfolding digits_onto
digits_onto-Starts zero n rest h = h
digits_onto-Starts (suc k) n rest h =
    elim (n == 0)
      as (λ b. Starts (if b then rest else digits_onto k (n / 10) ((b'0' + n % 10) ∷ rest))) [
        | true ↦ h
        | false ↦ digits_onto-Starts k (n / 10) ((b'0' + n % 10) ∷ rest) (omega arith, omega arith)
      ]

decimal-Starts : (n : ℕ) → Starts (decimal_onto n [])
unfolding decimal_onto digits_onto
decimal-Starts zero = (omega arith, omega arith)
decimal-Starts (suc n) =
    rw not_zero
      (digits_onto-Starts n (suc n / 10) ((b'0' + suc n % 10) ∷ []) (omega arith, omega arith))
  where
    not_zero : (suc n == 0) ≡ false
    not_zero = ground arith

first_part-digits :
    (k n : ℕ) (rest : List ℕ)
    → first_part (digits_onto k n rest) ≡ digits_onto k n (first_part rest)
unfolding digits_onto first_part
first_part-digits zero n rest = refl
first_part-digits (suc k) n rest =
    let more = first_part-digits k (n / 10) ((b'0' + n % 10) ∷ rest) in ground (arith, more)

first_part-decimal : (n : ℕ) → first_part (decimal_onto n (dash ∷ [])) ≡ decimal_onto n []
unfolding decimal_onto first_part
first_part-decimal n = ground (arith, first_part-digits n n (dash ∷ []))

number_in-Starts :
    (cs : List ℕ) → Starts cs → number_in (strip_plus cs) ≡ in_int64 (read_number 0 cs)
number_in-Starts [] h = elim h [ ]
number_in-Starts (c ∷ cs) h = ground (arith, h)

-- A number that int64 can hold, written by the client, is the start that the handler reads.
pub parse-range_header : (n : ℕ) → 0 < n → n < 2 ^ 63 → parse_range (range_header n) ≡ some n
unfolding parse_range range_header parse_int read_number
parse-range_header n p h =
    rw
      (
        lt→ltb 0 n p,
        first_part-decimal n,
        number_in-Starts (decimal_onto n []) (decimal-Starts n),
        read_number-decimal n [],
        lt→ltb n (2 ^ 63) h,
      )
      refl
