-- ===== src/Propagation/RoundTrip.antt =====
-- A duration that formatGRPCTimeout of propagation.go wrote, read back.
use resile.Float.{Float, float_ℕ, Milli, milli_float}
use resile.Propagation.Format.{
  microsecond, millisecond, second, minute, hour, decimal_onto, whole_units, format_positive,
  format_grpc_timeout,
}
use resile.Propagation.Reading.{values, unit_of, parse_grpc_timeout, unit_read}
use resile.Prelude.{
  ℕ, zero, suc, ◌+◌, ◌*◌, ◌/◌, ◌%◌, ◌≤◌, ◌<◌, ◌≡◌, refl, ap, sym, subst, pos, pos_part, leb_ℤ,
  false, ◌&&◌, Option, some, List, [], ◌∷◌, ltb, leb, if_of, arith,
}

-- What float64 keeps of a number of whole units below 2^12 and a part of a unit: the quotient of two
-- integers below 2^53 is less than 1 by 2^-42 at least, and to the sum there is room for the part.
pub record Truncates (F : Type 0) ⦃f : Float F⦄ (size : ℕ) : Type 0 where
  pub whole :
      (q r : ℕ)
      → q < 4096
      → r < size
      → f.trunc (f.add (float_ℕ q) (f.div (float_ℕ r) (float_ℕ size))) ≡ pos q

module _ {F : Type 0} ⦃f : Float F⦄ where
  whole_units_lem :
      (d size : ℕ)
      → Truncates F size
      → d / size < 4096
      → d % size < size
      → whole_units F d size ≡ d / size
  unfolding whole_units
  whole_units_lem d size t h k = ap pos_part (t.whole (d / size) (d % size) h k)

-- What is read is no longer than d, and more than half of it.
abbrev pub IsClose : ℕ → Option ℕ → Type 0
IsClose d o = (t : ℕ) × (o ≡ some t) × (t ≤ d) × (d < 2 * t)

abbrev ReadsClose : ℕ → List ℕ → Type 0
ReadsClose d cs = IsClose d (parse_grpc_timeout cs)

close :
    (d n c u : ℕ)
    → unit_of c ≡ some u
    → (leb b'0' c && leb c b'9') ≡ false
    → n < values
    → 0 < n
    → n * u ≤ d
    → d < n * u + u
    → ReadsClose d (decimal_onto n (c ∷ []))
close d zero c u h k fits p low high = absurd (omega arith)
close d (suc n) c u h k fits p low high =
    (suc n * u, unit_read (suc n) c u h k fits, low, omega arith)

module _ {F : Type 0} ⦃f : Float F⦄ where
  close_whole :
      (d c size : ℕ)
      → Truncates F size
      → unit_of c ≡ some size
      → (leb b'0' c && leb c b'9') ≡ false
      → d % size < size
      → 0 < d / size
      → d / size < 4096
      → (d / size) * size ≤ d
      → d < (d / size) * size + size
      → ReadsClose d (decimal_onto (whole_units F d size) (c ∷ []))
  close_whole d c size t h k part p few low high =
      subst (λ n. ReadsClose d (decimal_onto n (c ∷ []))) (sym (whole_units_lem d size t few part))
        (close d (d / size) c size h k (omega arith) p low high)

  pub format_positive-read :
      (d : ℕ)
      → 0 < d
      → d < 4096 * hour
      → Truncates F second
      → Truncates F minute
      → Truncates F hour
      → IsClose d (parse_grpc_timeout (format_positive F d))
  unfolding format_positive
  format_positive-read d p h s m o =
      if_of (ReadsClose d) (ltb d microsecond) _ _
        (λ a. close d d b'n' 1 refl refl (ground arith) p (ground arith) (ground arith))
        λ a.
          if_of (ReadsClose d) (ltb d millisecond) _ _
            (λ b.
              close d (d / microsecond) b'u' microsecond refl refl (ground arith) (ground arith)
                (ground arith) (ground arith))
            λ b.
              if_of (ReadsClose d) (ltb d second) _ _
                (λ c.
                  close d (d / millisecond) b'm' millisecond refl refl (ground arith) (ground arith)
                    (ground arith) (ground arith))
                λ c.
                  if_of (ReadsClose d) (ltb d minute) _ _
                    (λ e.
                      close_whole d b'S' second s refl refl (ground arith) (ground arith)
                        (ground arith) (ground arith) (ground arith))
                    λ e.
                      if_of (ReadsClose d) (ltb d hour) _ _
                        (λ g.
                          close_whole d b'M' minute m refl refl (ground arith) (ground arith)
                            (ground arith) (ground arith) (ground arith))
                        λ g.
                          close_whole d b'H' hour o refl refl (ground arith) (ground arith)
                            (ground arith) (ground arith) (ground arith)

  -- A positive duration of less than 4096 hours, written for gRPC and read back by a server that
  -- allows eight digits, is read as a timeout that is no longer than the duration and more than half
  -- of it.
  pub parse-format_grpc_timeout :
      (d : ℕ)
      → 0 < d
      → d < 4096 * hour
      → Truncates F second
      → Truncates F minute
      → Truncates F hour
      → IsClose d (parse_grpc_timeout (format_grpc_timeout F (pos d)))
  unfolding format_grpc_timeout
  parse-format_grpc_timeout d p h s m o =
      if_of (ReadsClose d) (leb_ℤ (pos d) (pos 0)) _ _ (λ a. absurd (ground arith))
        λ a. format_positive-read d p h s m o

second_whole : (q r : ℕ) → r < second → (q * 1000 + r * 1000 * 1000 / (second * 1000)) / 1000 ≡ q
second_whole q r h = omega arith

minute_whole : (q r : ℕ) → r < minute → (q * 1000 + r * 1000 * 1000 / (minute * 1000)) / 1000 ≡ q
minute_whole q r h = omega arith

hour_whole : (q r : ℕ) → r < hour → (q * 1000 + r * 1000 * 1000 / (hour * 1000)) / 1000 ≡ q
hour_whole q r h = omega arith

pub second-Truncates : Truncates Milli second
second-Truncates = record { whole = λ q r h k. ap pos (second_whole q r k) }

pub minute-Truncates : Truncates Milli minute
minute-Truncates = record { whole = λ q r h k. ap pos (minute_whole q r k) }

pub hour-Truncates : Truncates Milli hour
hour-Truncates = record { whole = λ q r h k. ap pos (hour_whole q r k) }
