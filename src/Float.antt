-- ===== src/Float.antt =====
-- Go's float64, as an interface: the model has no floating point, so the code that computes with
-- float64 takes the type and the operations which it uses as a parameter.
use resile.Prelude.{
  ℕ, ◌+◌, ◌-◌, ◌*◌, ◌/◌, ◌≡◌, ◌⊎◌, Bool, true, arith, ltb, leb, ℤ, pos, pos_part, ◌≤ℤ◌, ◌≤◌, ◌<◌,
  ap, ◌∙◌, ◌%◌, negsuc, if◌then◌else◌,
}

-- `ratio n d` is the constant n / d, `of_int` is the conversion float64(int64), and `trunc` and
-- `trunc32` are the conversions int64(float64) and int32(float64), of which Go says what they give
-- only where the result has room. `lt` and `le` are Go's comparisons: false on a NaN.
pub record Float (F : Type 0) : Type 0 where
  pub ratio : ℕ → ℕ → F
  pub add : F → F → F
  pub sub : F → F → F
  pub mul : F → F → F
  pub div : F → F → F
  pub lt : F → F → Bool
  pub le : F → F → Bool
  pub of_int : ℤ → F
  pub trunc : F → ℤ
  pub trunc32 : F → ℤ

infix 4 ◌≼◌
abbrev pub ◌≼◌ : {F : Type 0} ⦃f : Float F⦄ → F → F → Type 0
◌≼◌ ⦃f⦄ x y = f.le x y ≡ true

abbrev pub float_ℕ : {F : Type 0} ⦃f : Float F⦄ → ℕ → F
float_ℕ ⦃f⦄ n = f.of_int (pos n)

-- What IEEE 754 says of the finite values, as far as a proof needs it. NaN is not `<=` itself.
pub record FloatLaws (F : Type 0) ⦃f : Float F⦄ : Type 1 where
  pub IsFinite : F → Type 0
  pub refl_of_le : (x y : F) → x ≼ y → (x ≼ x) × (y ≼ y)
  pub le_refl : (x : F) → IsFinite x → x ≼ x
  pub le_trans : (x y z : F) → x ≼ y → y ≼ z → x ≼ z
  pub le_or_lt : (x y : F) → x ≼ x → y ≼ y → (x ≼ y) ⊎ (f.lt y x ≡ true)
  pub zero_finite : IsFinite (float_ℕ 0)
  pub one_finite : IsFinite (float_ℕ 1)
  pub one_positive : ◌≼◌ {F = F} (float_ℕ 0) (float_ℕ 1)
  -- Rounding is monotone: the difference of finite numbers 0 <= c <= x lies between 0 and x.
  pub sub_finite : (x c : F) → IsFinite x → IsFinite c → IsFinite (f.sub x c)
  pub sub_bounds :
      (x c : F) → IsFinite x → float_ℕ 0 ≼ c → c ≼ x → (float_ℕ 0 ≼ f.sub x c) × (f.sub x c ≼ x)
  -- A sum with a number that is not negative may overflow to infinity, but is no NaN.
  pub add_le : (x y : F) → IsFinite x → float_ℕ 0 ≼ y → x ≼ f.add x y
  pub finite_between : (x y : F) → IsFinite y → float_ℕ 0 ≼ x → x ≼ y → IsFinite x
  pub le_of_lt : (x y : F) → f.lt x y ≡ true → x ≼ y
  -- What int32(float64) gives of the numbers from 0 to 2^31 - 1.
  pub trunc32_mono :
      (x y : F) → float_ℕ 0 ≼ x → x ≼ y → y ≼ float_ℕ 2147483647 → f.trunc32 x ≤ℤ f.trunc32 y
  pub trunc32-of_int : (n : ℕ) → n < 2147483648 → f.trunc32 (float_ℕ n) ≡ pos n

-- Non-negative fixed-point numbers with three decimals, on which the model runs in tests.
pub record Milli : Type 0 where
  pub milli : ℕ

abbrev pub to_milli : ℕ → Milli
to_milli n = record { milli = n }

-- The number that 32 bits stand for in two's complement.
abbrev pub sign32 : ℕ → ℤ
sign32 n = if ltb n 2147483648 then pos n else negsuc (4294967295 - n)

instance abbrev pub milli_float : Float Milli
milli_float = record {
  ratio = λ n d. to_milli (n * 1000 / d);
  add = λ x y. to_milli (x.milli + y.milli);
  sub = λ x y. to_milli (x.milli - y.milli);
  mul = λ x y. to_milli (x.milli * y.milli / 1000);
  div = λ x y. to_milli (x.milli * 1000 / y.milli);
  lt = λ x y. ltb x.milli y.milli;
  le = λ x y. leb x.milli y.milli;
  of_int = λ z. to_milli (pos_part z * 1000);
  trunc = λ x. pos (x.milli / 1000);
  trunc32 = λ x. sign32 (x.milli / 1000 % 4294967296);
}

sign32-small : (n : ℕ) → n < 2147483648 → sign32 (n % 4294967296) ≡ pos n
sign32-small n h = ground arith

trunc32_mono_lem :
    (a b : ℕ)
    → a ≤ b
    → b ≤ 2147483647000
    → sign32 (a / 1000 % 4294967296) ≤ℤ sign32 (b / 1000 % 4294967296)
trunc32_mono_lem a b h small =
    rw (sign32-small (a / 1000) (omega arith), sign32-small (b / 1000) (omega arith)) (omega arith)

whole : (n : ℕ) → n * 1000 / 1000 ≡ n
whole n = omega arith

pub Milli-FloatLaws : FloatLaws Milli
Milli-FloatLaws = record {
  IsFinite = λ _. Unit {0};
  refl_of_le = λ x y h. ground arith;
  le_refl = λ x h. ground arith;
  le_trans = λ x y z h k. ground arith;
  le_or_lt = λ x y h k. ground arith;
  zero_finite = tt;
  one_finite = tt;
  one_positive = ground arith;
  sub_finite = λ x c h k. tt;
  sub_bounds = λ x c h k l. ground arith;
  add_le = λ x y h k. ground arith;
  finite_between = λ x y h k l. tt;
  le_of_lt = λ x y h. ground arith;
  trunc32_mono = λ x y low h k. trunc32_mono_lem x.milli y.milli (ground arith) (ground arith);
  trunc32-of_int = λ n h. ap (λ k. sign32 (k % 4294967296)) (whole n) ∙ sign32-small n h;
}

pub Milli-IsFinite : (x : Milli) → Milli-FloatLaws.IsFinite x
unfolding Milli-FloatLaws
Milli-IsFinite x = tt
