-- ===== src/Base/Xor.antt =====
-- `^` on words: the law of the lowest digit, associativity, shifts.
use Prim.Native.Nat.{
  ℕ, zero, suc, ◌+◌, ◌*◌, ◌/◌, ◌%◌, ◌^◌, ◌≤◌, ◌<◌, bit_xor, bit_xor-bitwise, differ,
}
use mathlib.Core.Path.{◌≡◌, refl, sym, ◌∙◌, ap, ap₂}
use native.Mathlib.Omega.{arith}
use native.Mathlib.Nat.{div-div-eq-div-mul, pow-suc, le_refl}
use no_cgbp_rtl.Base.Bits.{bitwise_low}

bit_xor_digit : (a b : ℕ) → bit_xor a b ≡ bit_xor (a / 2) (b / 2) * 2 + differ (a % 2) (b % 2)
bit_xor_digit zero b = simp bit_xor-bitwise (omega arith)
bit_xor_digit (suc a) b = omega (arith, bit_xor-bitwise, bitwise_low (λ right. right) differ a b)

differ_small : (x y : ℕ) → x < 2 → y < 2 → differ x y ≡ (x + y) % 2
differ_small zero y hx hy = omega arith
differ_small (suc zero) zero hx hy = refl
differ_small (suc zero) (suc zero) hx hy = refl
differ_small (suc zero) (suc (suc y)) hx hy = absurd (omega arith)
differ_small (suc (suc x)) y hx hy = absurd (omega arith)

differ_bits : (a b : ℕ) → differ (a % 2) (b % 2) ≡ (a + b) % 2
differ_bits a b = differ_small (a % 2) (b % 2) (omega arith) (omega arith) ∙ omega arith

pub bit_xor_low : (a b : ℕ) → bit_xor a b ≡ bit_xor (a / 2) (b / 2) * 2 + (a + b) % 2
bit_xor_low a b = omega (arith, bit_xor_digit a b, differ_bits a b)

-- On fuel, since a step goes from the halves.
xor_zero : (n a : ℕ) → a ≤ n → bit_xor a 0 ≡ a
xor_zero n zero h = refl
xor_zero zero (suc a) h = absurd (omega arith)
xor_zero (suc n) (suc a) h =
    omega (arith, bit_xor_low (suc a) 0, xor_zero n (suc a / 2) (omega arith))

pub bit_xor-zero : (a : ℕ) → bit_xor a 0 ≡ a
bit_xor-zero a = xor_zero a a (le_refl a)

pub zero-bit_xor : (a : ℕ) → bit_xor 0 a ≡ a
zero-bit_xor a = bit_xor-bitwise 0 a

pub bit_xor-half : (a b : ℕ) → bit_xor a b / 2 ≡ bit_xor (a / 2) (b / 2)
bit_xor-half a b = omega (arith, bit_xor_low a b)

xor_assoc :
    (n a b c : ℕ) → a ≤ n → b ≤ n → c ≤ n → bit_xor (bit_xor a b) c ≡ bit_xor a (bit_xor b c)
xor_assoc zero zero zero zero ha hb hc = refl
xor_assoc zero (suc a) b c ha hb hc = absurd (omega arith)
xor_assoc zero a (suc b) c ha hb hc = absurd (omega arith)
xor_assoc zero a b (suc c) ha hb hc = absurd (omega arith)
xor_assoc (suc n) a b c ha hb hc = omega (
  arith,
  bit_xor_low (bit_xor a b) c,
  bit_xor_low a (bit_xor b c),
  bit_xor_low a b,
  bit_xor_low b c,
  ap (λ (t : ℕ). bit_xor t (c / 2)) (bit_xor-half a b),
  ap (λ (t : ℕ). bit_xor (a / 2) t) (bit_xor-half b c),
  xor_assoc n (a / 2) (b / 2) (c / 2) (omega arith) (omega arith) (omega arith),
)

pub bit_xor_assoc : (a b c : ℕ) → bit_xor (bit_xor a b) c ≡ bit_xor a (bit_xor b c)
bit_xor_assoc a b c = xor_assoc (a + b + c) a b c (omega arith) (omega arith) (omega arith)

half_pow : (a k : ℕ) → a / 2 ^ suc k ≡ a / 2 / 2 ^ k
half_pow a k = rw (pow_two k) (sym (div-div-eq-div-mul a 2 (2 ^ k)))
  where
    pow_two : (k : ℕ) → 2 ^ suc k ≡ 2 * 2 ^ k
    pow_two k = omega (arith, pow-suc 2 k)

-- `(a ^ b) >> k`
pub bit_xor-shift : (k a b : ℕ) → bit_xor a b / 2 ^ k ≡ bit_xor (a / 2 ^ k) (b / 2 ^ k)
bit_xor-shift zero a b = omega (arith, ap₂ bit_xor (one_div a) (one_div b), one_div (bit_xor a b))
  where
    one_div : (n : ℕ) → n / 2 ^ 0 ≡ n
    one_div n = omega arith
bit_xor-shift (suc k) a b =
    rw (half_pow, bit_xor-half, bit_xor-shift k (a / 2) (b / 2), half_pow a k, half_pow b k)

-- Halves of a shifted word above another
double : (q k : ℕ) → q * 2 ^ suc k ≡ 2 * (q * 2 ^ k)
double q k = omega (arith, ap (λ (t : ℕ). q * t) (pow-suc 2 k))

pub bit_xor-half_shifted : (k q a : ℕ) → bit_xor (q * 2 ^ suc k) a / 2 ≡ bit_xor (q * 2 ^ k) (a / 2)
bit_xor-half_shifted k q a = bit_xor-half (q * 2 ^ suc k) a ∙ ap (λ t. bit_xor t (a / 2)) even
  where
    even : q * 2 ^ suc k / 2 ≡ q * 2 ^ k
    even = omega (arith, double q k)

pub bit_xor-parity_shifted : (k q a : ℕ) → bit_xor (q * 2 ^ suc k) a % 2 ≡ a % 2
bit_xor-parity_shifted k q a = omega (arith, bit_xor_low (q * 2 ^ suc k) a, double q k)

-- A word is its high part xor its low part.
pub bit_xor_fields : (k q r : ℕ) → r < 2 ^ k → bit_xor (q * 2 ^ k) r ≡ q * 2 ^ k + r
bit_xor_fields zero q r h =
    ap (λ (t : ℕ). bit_xor (q * 2 ^ 0) t) none_left
    ∙ bit_xor-zero (q * 2 ^ 0)
    ∙ omega (arith, none_left)
  where
    none_left : r ≡ 0
    none_left = omega arith
bit_xor_fields (suc k) q r h = omega (
  arith,
  bit_xor_low (q * 2 ^ suc k) r,
  bit_xor-half (q * 2 ^ suc k) r,
  bit_xor-half_shifted k q r,
  double q k,
  bit_xor_fields k q (r / 2) (omega (arith, pow-suc 2 k)),
)
