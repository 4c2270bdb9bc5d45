-- ===== src/Base/Digits.antt =====
-- Numbers as pairs of digits, `p * g + x` with `x < g`.
use Prim.Native.Nat.{ℕ, ◌+◌, ◌*◌, ◌/◌, ◌%◌, ◌<◌}
use mathlib.Core.Path.{◌≡◌}
use native.Mathlib.Omega.{arith}

pub digit_quot : (g p x : ℕ) → x < g → (p * g + x) / g ≡ p
digit_quot g p x h = grind arith

pub digit_rem : (g p x : ℕ) → x < g → (p * g + x) % g ≡ x
digit_rem g p x h = grind arith

-- Equal pairs have equal digits.
pub digits_eq : (g p q x y : ℕ) → x < g → y < g → p * g + x ≡ q * g + y → (p ≡ q) × (x ≡ y)
digits_eq g p q x y hx hy e = (
  omega (arith, digit_quot g p x hx, digit_quot g q y hy, quot),
  omega (arith, digit_rem g p x hx, digit_rem g q y hy, rem),
)
  where
    quot : (p * g + x) / g ≡ (q * g + y) / g
    quot = rw e

    rem : (p * g + x) % g ≡ (q * g + y) % g
    rem = rw e

pub digits_in_range : (g h p x : ℕ) → x < g → p < h → p * g + x < g * h
digits_in_range g h p x hx hp = grind arith
