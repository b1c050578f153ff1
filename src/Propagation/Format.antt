-- ===== src/Propagation/Format.antt =====
-- formatGRPCTimeout and InjectDeadlineHeader of propagation.go. A header's value is the list of its
-- ASCII codes; fmt.Sprintf with %d prints in decimal.
use resile.Context.{Context, remaining}
use resile.Float.{Float, float_ℕ}
use text.Mathlib.Text
use resile.Prelude.{
  ℕ, zero, suc, ◌+◌, ◌*◌, ◌/◌, ◌%◌, ℤ, pos, pos_part, leb_ℤ, Option, none, some, List, [], ◌∷◌,
  String, ltb, ◌==◌, if◌then◌else◌,
}

abbrev pub microsecond : ℕ
microsecond = 1000

abbrev pub millisecond : ℕ
millisecond = 1000000

abbrev pub second : ℕ
second = 1000000000

abbrev pub minute : ℕ
minute = 60 * second

abbrev pub hour : ℕ
hour = 60 * minute

-- The digits of n in front of a text, on fuel.
unfoldable pub digits_onto : ℕ → ℕ → List ℕ → List ℕ
digits_onto zero n rest = rest
digits_onto (suc k) n rest =
    let longer = digits_onto k (n / 10) ((b'0' + n % 10) ∷ rest) in if n == 0 then rest else longer

-- What %d prints, in front of the rest of the format.
unfoldable pub decimal_onto : ℕ → List ℕ → List ℕ
unfolding digits_onto
decimal_onto n rest = if n == 0 then b'0' ∷ rest else digits_onto n n rest

module _ (F : Type 0) ⦃f : Float F⦄ where
  -- int64 of d.Seconds(), d.Minutes() or d.Hours(), which package time computes in float64: the whole
  -- units and, divided, what is left.
  unfoldable pub whole_units : ℕ → ℕ → ℕ
  whole_units d size =
      pos_part (f.trunc (f.add (float_ℕ (d / size)) (f.div (float_ℕ (d % size)) (float_ℕ size))))

  -- For a duration that is positive.
  unfoldable pub format_positive : ℕ → List ℕ
  unfolding decimal_onto whole_units
  format_positive d =
      if ltb d microsecond
      then decimal_onto d (b'n' ∷ [])
      else if ltb d millisecond
      then decimal_onto (d / microsecond) (b'u' ∷ [])
      else if ltb d second
      then decimal_onto (d / millisecond) (b'm' ∷ [])
      else if ltb d minute
      then decimal_onto (whole_units d second) (b'S' ∷ [])
      else if ltb d hour
      then decimal_onto (whole_units d minute) (b'M' ∷ [])
      else decimal_onto (whole_units d hour) (b'H' ∷ [])

  unfoldable pub format_grpc_timeout : ℤ → List ℕ
  unfolding format_positive
  format_grpc_timeout d = if leb_ℤ d (pos 0) then b'0' ∷ b'n' ∷ [] else format_positive (pos_part d)

  abbrev pub header_value : String → ℤ → List ℕ
  header_value key left =
      if Text.◌==◌ key "Grpc-Timeout"
      then format_grpc_timeout left
      else decimal_onto (pos_part left / millisecond) []

  -- `set` is the method of the caller's header.
  module _ {H : Type 0} (set : String → List ℕ → H → H) where
    abbrev pub inject_remaining : String → Option ℤ → H → H
    inject_remaining key none h = h
    inject_remaining key (some left) h =
        if leb_ℤ left (pos 0) then h else set key (header_value key left) h

    unfoldable pub inject_deadline_header : Context → ℕ → String → H → H
    unfolding format_grpc_timeout decimal_onto
    inject_deadline_header ctx now key h = inject_remaining key (remaining ctx now) h
