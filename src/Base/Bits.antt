-- ===== src/Base/Bits.antt =====
-- `|` and `&` on words as arithmetic: the law of the lowest digit, disjoint fields, low masks.
use Prim.Native.Nat.{
  ℕ, zero, suc, ◌+◌, ◌-◌, ◌*◌, ◌/◌, ◌%◌, ◌^◌, ◌≤◌, ◌<◌, min, max, digits, bitwise, bit_and, bit_or,
  bit_and-bitwise, bit_or-bitwise,
}
use mathlib.Core.Path.{◌≡◌, refl, ap}
use native.Mathlib.Omega.{arith}
use native.Mathlib.Nat.{pow-suc, one-le-pow, le_refl}

-- The native operations are `bitwise`, a recursion on binary digits with fuel; here the fuel goes.
module _ (z : ℕ → ℕ) (f : ℕ → ℕ → ℕ) where
  nothing_left : (fuel right : ℕ) → digits z f fuel 0 right ≡ z right
  nothing_left zero right = refl
  nothing_left (suc fuel) right = refl

  digits_enough :
      (fuel more left right : ℕ)
      → left ≤ fuel
      → left ≤ more
      → digits z f fuel left right ≡ digits z f more left right
  digits_enough fuel more zero right enough also = rw (nothing_left fuel, nothing_left more)
  digits_enough zero more (suc left) right enough also = absurd (omega arith)
  digits_enough (suc fuel) zero (suc left) right enough also = absurd (omega arith)
  digits_enough (suc fuel) (suc more) (suc left) right enough also =
      rw (digits_enough fuel more (suc left / 2) (right / 2) (omega arith) (omega arith))

  pub bitwise_low :
      (left right : ℕ)
      → bitwise z f (suc left) right
        ≡ f (suc left % 2) (right % 2) + bitwise z f (suc left / 2) (right / 2) * 2
  bitwise_low left right = omega (
    arith,
    digits_enough left (suc left / 2) (suc left / 2) (right / 2) (omega arith) (le_refl _),
  )

pub bit_and_low : (x y : ℕ) → bit_and x y ≡ bit_and (x / 2) (y / 2) * 2 + min (x % 2) (y % 2)
bit_and_low zero y = simp bit_and-bitwise (omega arith)
bit_and_low (suc x) y = omega (arith, bit_and-bitwise, bitwise_low (λ right. 0) min x y)

pub bit_or_low : (x y : ℕ) → bit_or x y ≡ bit_or (x / 2) (y / 2) * 2 + max (x % 2) (y % 2)
bit_or_low zero y = simp bit_or-bitwise (omega arith)
bit_or_low (suc x) y = omega (arith, bit_or-bitwise, bitwise_low (λ right. right) max x y)

-- On fuel, since a step goes from `a / 2` to `a`.
or_zero : (n a : ℕ) → a ≤ n → bit_or a 0 ≡ a
or_zero n zero h = refl
or_zero zero (suc a) h = absurd (omega arith)
or_zero (suc n) (suc a) h = omega (arith, bit_or_low (suc a) 0, or_zero n (suc a / 2) (omega arith))

pub bit_or_zero : (a : ℕ) → bit_or a 0 ≡ a
bit_or_zero a = or_zero a a (le_refl a)

and_zero : (n a : ℕ) → a ≤ n → bit_and a 0 ≡ 0
and_zero n zero h = refl
and_zero zero (suc a) h = absurd (omega arith)
and_zero (suc n) (suc a) h =
    omega (arith, bit_and_low (suc a) 0, and_zero n (suc a / 2) (omega arith))

double : (q k : ℕ) → q * 2 ^ suc k ≡ 2 * (q * 2 ^ k)
double q k = omega (arith, ap (λ (t : ℕ). q * t) (pow-suc 2 k))

-- `(q << k) | r` is a sum where `r` fits `k` bits.
pub bit_or-shift : (k q r : ℕ) → r < 2 ^ k → bit_or (q * 2 ^ k) r ≡ q * 2 ^ k + r
bit_or-shift zero q r fits = ground (arith, bit_or_zero q)
bit_or-shift (suc k) q r fits =
    ground (arith, bit_or_low (q * 2 ^ suc k) r, double q k, bit_or-shift k q (r / 2) (omega arith))

and_fields : (k q r : ℕ) → r < 2 ^ k → bit_and (q * 2 ^ k + r) (2 ^ k - 1) ≡ r
and_fields zero q r fits = ground (arith, and_zero (q * 1 + r) (q * 1 + r) (le_refl _))
and_fields (suc k) q r fits = ground (
  arith,
  bit_and_low (q * 2 ^ suc k + r) (2 ^ suc k - 1),
  double q k,
  pow-suc 2 k,
  one-le-pow k 2,
  and_fields k q (r / 2) (omega arith),
)

-- `a & ((1 << k) - 1)` is the remainder by `2 ^ k`.
pub bit_and-mask : (k a : ℕ) → bit_and a (2 ^ k - 1) ≡ a % 2 ^ k
bit_and-mask k a = ground (arith, one-le-pow k 2, and_fields k (a / 2 ^ k) (a % 2 ^ k))

-- `|` above a common low field
pub bit_or-high :
    (k q r c : ℕ) → c < 2 ^ k → bit_or (q * 2 ^ k) (r * 2 ^ k + c) ≡ bit_or q r * 2 ^ k + c
bit_or-high zero q r c fits = rw (lowest q, below) (omega arith)
  where
    lowest : (n : ℕ) → n * 2 ^ 0 ≡ n
    lowest n = omega arith

    below : r * 2 ^ 0 + c ≡ r
    below = omega arith
bit_or-high (suc k) q r c fits = ground (
  arith,
  bit_or_low (q * 2 ^ suc k) (r * 2 ^ suc k + c),
  double q k,
  double r k,
  double (bit_or q r) k,
  halves,
  bit_or-high k q r (c / 2) (omega arith),
)
  where
    halves : (r * 2 ^ suc k + c) / 2 ≡ r * 2 ^ k + c / 2
    halves = omega (arith, double r k)

-- Setting bit 1
pub bit_or_two : (q : ℕ) → bit_or q 2 ≡ q + 2 * (1 - q / 2 % 2)
bit_or_two q =
    omega (arith, bit_or_low q 2, bit_or_low (q / 2) 1, or_zero (q / 2 / 2) (q / 2 / 2) (le_refl _))
