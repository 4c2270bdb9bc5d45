-- ===== src/Base/Sums.antt =====
-- Sums over an initial segment of the numbers.
use Prim.Native.Nat.{ℕ, zero, suc, ◌+◌, ◌*◌, ◌<◌, ◌≤◌}
use mathlib.Core.Path.{◌≡◌, refl}
use mathlib.Core.Logic.{◌≢◌}
use native.Mathlib.Omega.{arith}
use no_cgbp_rtl.Base.Tests.{◌==◌, ltb, if◌then◌else◌}
use native.Mathlib.Decide.{ℕ_discrete, dec_lt}
use no_cgbp_rtl.Base.Loops.{put}

abbrev pub sum : (n : ℕ) → (ℕ → ℕ) → ℕ
sum zero f = 0
sum (suc n) f = sum n f + f n

-- One term changed
pub sum-one :
    (n k d : ℕ) (f g : ℕ → ℕ)
    → ((i : ℕ) → g i ≡ f i + (if k == i then d else 0))
    → sum n g ≡ sum n f + (if ltb k n then d else 0)
sum-one zero k d f g h = ground arith
sum-one (suc n) k d f g h = ground (arith, h n, sum-one n k d f g h)

pub sum-const : (n b : ℕ) (f : ℕ → ℕ) → ((i : ℕ) → i < n → f i ≡ b) → sum n f ≡ n * b
sum-const zero b f h = omega arith
sum-const (suc n) b f h =
    omega (arith, h n (omega arith), sum-const n b f (λ i lt. h i (omega arith)))

pub sum_le : (n b : ℕ) (f : ℕ → ℕ) → ((i : ℕ) → i < n → f i ≤ b) → sum n f ≤ n * b
sum_le zero b f h = omega arith
sum_le (suc n) b f h = omega (arith, h n (omega arith), sum_le n b f (λ i lt. h i (omega arith)))

-- A sum that is as large as its bound has every term at the bound.
pub sum-full :
    (n b : ℕ) (f : ℕ → ℕ)
    → ((i : ℕ) → i < n → f i ≤ b)
    → sum n f ≡ n * b
    → (i : ℕ) → i < n
    → f i ≡ b
sum-full zero b f h e i lt = absurd (omega arith)
sum-full (suc n) b f h e i lt = elim (ℕ_discrete i n) [
  | yes same ↦ rw same (omega (arith, h n (omega arith), sum_le n b f (λ i lt. h i (omega arith))))
  | no ne ↦
      sum-full n b f (λ i lt. h i (omega arith))
        (omega (arith, h n (omega arith), sum_le n b f (λ i lt. h i (omega arith)))) i (omega arith)
]

pub sum_term : (n : ℕ) (f : ℕ → ℕ) (i : ℕ) → i < n → f i ≤ sum n f
sum_term zero f i lt = absurd (omega arith)
sum_term (suc n) f i lt = elim (ℕ_discrete i n) [
  | yes e ↦ rw e (omega arith)
  | no ne ↦ omega (arith, sum_term n f i (omega arith))
]

pub sum-two : (n : ℕ) (f : ℕ → ℕ) (i j : ℕ) → i < n → j < n → i ≢ j → f i + f j ≤ sum n f
sum-two zero f i j hi hj ne = absurd (omega arith)
sum-two (suc n) f i j hi hj ne = elim (ℕ_discrete i n) [
  | yes e ↦ rw e (omega (arith, sum_term n f j (omega arith)))
  | no other ↦ elim (ℕ_discrete j n) [
    | yes e ↦ rw e (omega (arith, sum_term n f i (omega arith)))
    | no last ↦ omega (arith, sum-two n f i j (omega arith) (omega arith) ne)
  ]
]

-- A sum that is not zero has a term that is not.
pub sum-some : (n : ℕ) (f : ℕ → ℕ) → 0 < sum n f → (i : ℕ) × (i < n) × (0 < f i)
sum-some zero f h = absurd (omega arith)
sum-some (suc n) f h = elim (dec_lt 0 (f n)) [
  | yes lt ↦ (n, omega arith, lt)
  | no ge ↦ let (i, lt, some) = sum-some n f (omega arith) in (i, omega arith, some)
]

-- A sum over a table of which one entry changes
pub sum-put {ℓ} :
    {A : Type ℓ} (f : ℕ → A → ℕ) (g : ℕ → A) (t : ℕ) (a : A) (n : ℕ)
    → sum n (λ u. f u (put g t a u)) + (if ltb t n then f t (g t) else 0)
      ≡ sum n (λ u. f u (g u)) + (if ltb t n then f t a else 0)
sum-put f g t a zero = ground arith
sum-put f g t a (suc n) = elim (ℕ_discrete t n) [
  | yes e ↦ ground (arith, sum-put f g t a n)
  | no ne ↦ ground (arith, sum-put f g t a n)
]

pub sum-cong : (n : ℕ) (f g : ℕ → ℕ) → ((i : ℕ) → i < n → f i ≡ g i) → sum n f ≡ sum n g
sum-cong zero f g h = refl
sum-cong (suc n) f g h =
    omega (arith, h n (omega arith), sum-cong n f g (λ i lt. h i (omega arith)))
