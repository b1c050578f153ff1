-- ===== src/Retry/Jitter.antt =====
-- The delay of backoff.go beside its formula.
use Prim.Native.Nat.{min}
use resile.Float.{Float, float_ℕ, Milli, milli_float}
use resile.Retry.Backoff.{max_delay_of, full_jitter_next}
use resile.Prelude.{
  ℕ, zero, suc, ◌*◌, ◌/◌, ◌%◌, ◌^◌, ◌<◌, ◌≡◌, ap, inl, inr, pos, true, false, ltb, leb, ◌==◌,
  if◌then◌else◌, Bool-cases, arith,
}

abbrev pub exact : ℕ
exact = 9007199254740992

-- What float64 does with integers below 2^53, of either sign where it is a delay's, and a power of
-- two: the product has the same significant bits, and is infinite at most, so that it compares as
-- the exact one does and is the exact one where that is below 2^53.
pub record Scales (F : Type 0) ⦃f : Float F⦄ : Type 0 where
  pub over :
      (base cap_ n : ℕ)
      → 0 < base
      → base < exact
      → cap_ < exact
      → f.lt (float_ℕ cap_) (f.mul (float_ℕ base) (f.ratio (2 ^ n) 1)) ≡ ltb cap_ (base * 2 ^ n)
  pub zero_delay :
      (base n : ℕ)
      → 0 < base
      → base < exact
      → base * 2 ^ n < exact
      → f.le (f.mul (float_ℕ base) (f.ratio (2 ^ n) 1)) (float_ℕ 0) ≡ leb (base * 2 ^ n) 0
  pub product :
      (base n : ℕ)
      → 0 < base
      → base < exact
      → base * 2 ^ n < exact
      → f.trunc (f.mul (float_ℕ base) (f.ratio (2 ^ n) 1)) ≡ pos (base * 2 ^ n)
  pub le_zero : (n : ℕ) → n < exact → f.le (float_ℕ n) (float_ℕ 0) ≡ leb n 0
  pub whole : (n : ℕ) → n < exact → f.trunc (float_ℕ n) ≡ pos n

capped :
    (c p r : ℕ)
    → ltb c p ≡ true
    → (if leb c 0 then pos 0 else pos (r % c)) ≡ pos (if c == 0 then 0 else r % min c p)
capped c p r h = ground arith

uncapped :
    (c p r : ℕ) → ltb c p ≡ false → 0 < p → pos (r % p) ≡ pos (if c == 0 then 0 else r % min c p)
uncapped c p r h k = ground arith

positive : (n : ℕ) → 0 < n → leb n 0 ≡ false
positive n h = ground arith

scaled_pos : (base n : ℕ) → 0 < base → 0 < base * 2 ^ n
scaled_pos base zero h = omega arith
scaled_pos base (suc n) h = grind (arith, scaled_pos base n h)

below : {c p : ℕ} → ltb c p ≡ false → c < exact → p < exact
below h k = ground arith

module _ {F : Type 0} ⦃f : Float F⦄ (laws : Scales F) where
  -- With a positive base and both below 2^53 nanoseconds (104 days), the delay before retry n is the
  -- draw modulo the cap or base * 2^n, whichever is less; with a cap of 0 there is none.
  pub full_jitter_next_lem :
      (base cap_ n random : ℕ)
      → 0 < base
      → base < exact
      → cap_ < exact
      → full_jitter_next F (pos base) (pos cap_) n random
        ≡ pos (if cap_ == 0 then 0 else random % min cap_ (base * 2 ^ n))
  unfolding full_jitter_next max_delay_of
  full_jitter_next_lem base cap_ n random b b' c' = elim (Bool-cases (ltb cap_ (base * 2 ^ n))) [
    | inl over ↦
        rw (laws.over base cap_ n b b' c', over, laws.le_zero cap_ c', laws.whole cap_ c')
          (capped cap_ (base * 2 ^ n) random over)
    | inr under ↦
        let small : base * 2 ^ n < exact = below under c' in
        let some_delay = scaled_pos base n b in
        rw
          (
            laws.over base cap_ n b b' c',
            under,
            laws.zero_delay base n b b' small,
            positive (base * 2 ^ n) some_delay,
            laws.product base n b b' small,
          )
          (uncapped cap_ (base * 2 ^ n) random under some_delay)
  ]

scaled_milli : (b q : ℕ) → b * 1000 * (q * 1000 / 1) / 1000 ≡ b * q * 1000
scaled_milli b q = let whole : q * 1000 / 1 ≡ q * 1000 = omega arith in rw whole (omega arith)

pub Milli-Scales : Scales Milli
Milli-Scales = record {
  over = λ b c n h k l. ground (arith, scaled_milli b (2 ^ n));
  zero_delay = λ b n h k l. ground (arith, scaled_milli b (2 ^ n));
  product = λ b n h k l. ap pos (omega (arith, scaled_milli b (2 ^ n)));
  le_zero = λ n h. ground arith;
  whole = λ n h. ap pos (omega arith);
}
