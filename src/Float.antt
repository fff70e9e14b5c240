-- ===== src/Float.antt =====
-- IEEE 754 numbers as bit patterns: a `float` is a number below 2 ^ 32, a `double` one below
-- 2 ^ 64. Classification and comparison are computed; rounding arithmetic is a parameter.
use fast_vector.Prelude.{
  ℕ, ◌+◌, ◌-◌, ◌/◌, ◌%◌, ◌^◌, ◌≡◌, Bool, false, not, ◌&&◌, ltb, ◌==◌, if◌then◌else◌, arith,
}

-- The conversions and the rounding operations of `float` (`fadd`, `fmul`) and of `double`.
pub record FloatArith : Type 0 where
  pub widen : ℕ → ℕ
  pub narrow : ℕ → ℕ
  pub fadd : ℕ → ℕ → ℕ
  pub fmul : ℕ → ℕ → ℕ
  pub dadd : ℕ → ℕ → ℕ
  pub dsub : ℕ → ℕ → ℕ
  pub dmul : ℕ → ℕ → ℕ
  pub ddiv : ℕ → ℕ → ℕ
  pub dsqrt : ℕ → ℕ

-- std::isfinite: the exponent is not all ones.
unfoldable pub is_finite : ℕ → Bool
is_finite x = not (x / 2 ^ 23 % 256 == 255)

unfoldable pub is_nan : ℕ → Bool
is_nan x = ltb 0x7f80_0000 (x % 2 ^ 31)

-- Sign and magnitude as one number that grows with the value; both zeros have the same.
unfoldable pub order_key : ℕ → ℕ
order_key x = if ltb x (2 ^ 31) then 2 ^ 31 + x else 2 ^ 32 - x

-- `x > y` and `x == y`: false where a side is not a number.
unfoldable pub float_gt : ℕ → ℕ → Bool
float_gt x y = not (is_nan x) && not (is_nan y) && ltb (order_key y) (order_key x)

unfoldable pub float_eq : ℕ → ℕ → Bool
float_eq x y = not (is_nan x) && not (is_nan y) && order_key x == order_key y

abbrev pub IsNumber : ℕ → Type 0
IsNumber x = is_nan x ≡ false

pub float_gt_key :
    (x y : ℕ) → IsNumber x → IsNumber y → float_gt x y ≡ ltb (order_key y) (order_key x)
unfolding float_gt
float_gt_key x y p q = ground arith

pub float_eq_key : (x y : ℕ) → IsNumber x → IsNumber y → float_eq x y ≡ (order_key x == order_key y)
unfolding float_eq
float_eq_key x y p q = ground arith

-- `x == 0.0` for a double.
unfoldable pub double_is_zero : ℕ → Bool
double_is_zero x = x % 2 ^ 63 == 0

abbrev pub double_one : ℕ
double_one = 0x3ff0_0000_0000_0000

-- std::abs
unfoldable pub double_abs : ℕ → ℕ
double_abs x = x % 2 ^ 63

unfoldable pub double_is_nan : ℕ → Bool
double_is_nan x = ltb 0x7ff0_0000_0000_0000 (x % 2 ^ 63)

unfoldable pub double_key : ℕ → ℕ
double_key x = if ltb x (2 ^ 63) then 2 ^ 63 + x else 2 ^ 64 - x

unfoldable pub double_gt : ℕ → ℕ → Bool
double_gt x y = not (double_is_nan x) && not (double_is_nan y) && ltb (double_key y) (double_key x)
