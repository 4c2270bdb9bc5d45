-- ===== src/Histogram/Program.antt =====
-- What validate says of the program's data.
use no_cgbp_rtl.Base.{
  ℕ, zero, suc, ◌+◌, ◌*◌, ◌/◌, ◌%◌, ◌<◌, ◌≤◌, ◌≡◌, ◌≢◌, inl, inr, refl, sym, ap, ◌∙◌, List, [], ◌∷◌,
  Bool, true, false, ◌&&◌, ltb, ◌==◌, if◌then◌else◌, Bool-cases, ==_iff, ◌-◌, length, get_or, arith,
}
use mathlib.Core.Bool.{true≢false}
use native.Mathlib.Nat.{div-add-mod}
use no_cgbp_rtl.Manycore.{finish, fail}
use no_cgbp_rtl.Histogram.{waiting, begin, run, size, validate}
use no_cgbp_rtl.Histogram.Data.{data_1024, expected}
use no_cgbp_rtl.Histogram.Shares.{count, count-add}
use no_cgbp_rtl.Histogram.Results.{histogram_lem}

-- The program's data as an array
abbrev pub value_at : ℕ → ℕ
value_at i = get_or data_1024 i 0

both : (a b : Bool) → (a && b) ≡ true → (a ≡ true) × (b ≡ true)
both true b h = (refl, h)
both false b h = absurd (true≢false (sym h))

-- Every element of a list is below a bound.
abbrev all_below : ℕ → List ℕ → Bool
all_below b [] = true
all_below b (v ∷ values) = ltb v b && all_below b values

all_below→ :
    (b : ℕ) (values : List ℕ) → all_below b values ≡ true → 0 < b → (i : ℕ) → get_or values i 0 < b
all_below→ b [] h some i = some
all_below→ b (v ∷ values) h some zero = ground arith
all_below→ b (v ∷ values) h some (suc i) =
    all_below→ b values (both (ltb v b) (all_below b values) h).1 some i

all_small : all_below 32 data_1024 ≡ true
unfolding data_1024
all_small = refl

pub value_at_lt : (i : ℕ) → value_at i < 32
value_at_lt = all_below→ 32 data_1024 all_small (omega arith)

-- The counts of a list, from its start on
abbrev count_in : (j : ℕ) → List ℕ → ℕ
count_in j [] = 0
count_in j (v ∷ values) = let rest = count_in j values in if v == j then rest + 1 else rest

count_shift :
    (f : ℕ → ℕ) (start k j : ℕ) → count f (suc start) k j ≡ count (λ i. f (suc i)) start k j
unfolding count
count_shift f start zero j = refl
count_shift f start (suc k) j = rw (moved start k) (ground (arith, count_shift f start k j))
  where
    moved : (a b : ℕ) → suc a + b ≡ suc (a + b)
    moved a b = omega arith

count-first :
    (f : ℕ → ℕ) (k j : ℕ) → count f 0 (suc k) j ≡ (if f 0 == j then 1 else 0) + count f 1 k j
unfolding count
count-first f zero j = ground arith
count-first f (suc k) j = ground (arith, count-first f k j)

count-count_in :
    (values : List ℕ) (j : ℕ)
    → count (λ i. get_or values i 0) 0 (length values) j ≡ count_in j values
unfolding count
count-count_in [] j = refl
count-count_in (v ∷ values) j =
    let f : ℕ → ℕ = λ i. get_or (v ∷ values) i 0 in
    rw (count-first f (length values) j, count_shift f 0 (length values) j, count-count_in values j)
      (ground arith)

abbrev agrees : (i : ℕ) → List ℕ → Bool
agrees i [] = true
agrees i (e ∷ es) = (count_in i data_1024 == e) && agrees (i + 1) es

nothing : (i : ℕ) → i ≡ i + 0
nothing i = omega arith

from_zero : (k : ℕ) → k ≡ 0 + k
from_zero k = omega arith

next : (i k : ℕ) → (i + 1) + k ≡ i + suc k
next i k = omega arith

agrees→ :
    (i : ℕ) (es : List ℕ)
    → agrees i es ≡ true
    → (k : ℕ) → k < length es
    → count_in (i + k) data_1024 ≡ get_or es k 0
agrees→ i [] h k lt = absurd (omega arith)
agrees→ i (e ∷ es) h zero lt = ground arith
agrees→ i (e ∷ es) h (suc k) lt =
    rw (sym (next i k)) (
      agrees→ (i + 1) es (both (count_in i data_1024 == e) (agrees (i + 1) es) h).1 k (omega arith))

all_agree : agrees 0 expected ≡ true
unfolding data_1024
all_agree = refl

size_data : length data_1024 ≡ 1024
unfolding data_1024
size_data = refl

pub expected_lem : (j : ℕ) → j < 32 → count value_at 0 1024 j ≡ get_or expected j 0
expected_lem j lt = rw (sym size_data) (
    count-count_in data_1024 j
    ∙ ap (λ (i : ℕ). count_in i data_1024) (from_zero j)
    ∙ agrees→ 0 expected all_agree j lt)

module _ (io_x io_y x y : ℕ) where
  validate-finish :
      (i : ℕ) (es : List ℕ) (histogram : ℕ → ℕ)
      → ((k : ℕ) → k < length es → histogram (i + k) ≡ get_or es k 0)
      → validate io_x io_y x y i es histogram ≡ finish io_x io_y x y
  unfolding validate
  validate-finish i [] histogram h = refl
  validate-finish i (e ∷ es) histogram h =
      rw ((==_iff (histogram i) e).1 (ap histogram (nothing i) ∙ h 0 (omega arith))) (
        validate-finish (i + 1) es histogram
          (λ k lt. ap histogram (next i k) ∙ h (suc k) (omega arith)))

  validate-fail :
      (i : ℕ) (es : List ℕ) (histogram : ℕ → ℕ) (k : ℕ)
      → k < length es
      → histogram (i + k) ≢ get_or es k 0
      → validate io_x io_y x y i es histogram ≡ fail io_x io_y x y
  unfolding validate
  validate-fail i [] histogram k lt ne = absurd (omega arith)
  validate-fail i (e ∷ es) histogram zero lt ne = elim (Bool-cases (histogram i == e)) [
    | inr differs ↦ rw differs refl
    | inl same ↦ absurd (ne (ap histogram (sym (nothing i)) ∙ (==_iff (histogram i) e).0 same))
  ]
  validate-fail i (e ∷ es) histogram (suc k) lt ne = elim (Bool-cases (histogram i == e)) [
    | inr differs ↦ rw differs refl
    | inl same ↦ rw same (
        validate-fail (i + 1) es histogram k (omega arith)
          (λ h. ne (ap histogram (sym (next i k)) ∙ h)))
  ]

count_lt : (f : ℕ → ℕ) (n k j : ℕ) → k < suc n → f n ≡ j → count f 0 k j < count f 0 (suc n) j
unfolding count
count_lt f n k j lt e =
    let more = count-add f 0 k (n - k) j in
    let all : k + (n - k) ≡ n = omega arith in ground (arith, ap (λ (m : ℕ). count f 0 m j) all)

last_value : value_at 1023 ≡ 17
unfolding data_1024
last_value = refl

-- With fewer than 1024 values counted, bin 17 is short of one at least.
short : (k : ℕ) → k < 1024 → count value_at 0 k 17 < 27
short k lt = omega (arith, count_lt value_at 1023 k 17 lt last_value, expected_lem 17 (omega arith))

-- With the program's data and its tile 0 at `x` and `y`, in every order of steps that brings all tiles
-- to the barrier: validate ends in bsg_finish when the number of tiles divides 1024, and otherwise,
-- since the last values are in no tile's part, in bsg_fail.
pub validate_lem :
    (io_x io_y x y tiles : ℕ) (order : List ℕ)
    → 1 ≤ tiles
    → ((t : ℕ) → t < tiles → (run value_at tiles begin order).place t ≡ waiting)
    → validate io_x io_y x y 0 expected (run value_at tiles begin order).memory.histogram
      ≡ (if size % tiles == 0 then finish io_x io_y x y else fail io_x io_y x y)
validate_lem io_x io_y x y tiles order some done =
    let h = (run value_at tiles begin order).memory.histogram in
    let split = div-add-mod 1024 tiles in
    let bins : (j : ℕ) → j < 32 → h j ≡ count value_at 0 (tiles * (1024 / tiles)) j =
      λ j lt. histogram_lem value_at tiles order j some (λ i i_lt. value_at_lt i) done lt in
    elim (Bool-cases (1024 % tiles == 0)) [
      | inl e ↦
          let divides = (==_iff (1024 % tiles) 0).0 e in
          rw e (
            validate-finish io_x io_y x y 0 expected h (λ k lt.
              ap h (sym (from_zero k))
              ∙ bins k lt
              ∙ ap (λ (n : ℕ). count value_at 0 n k) (omega arith)
              ∙ expected_lem k lt))
      | inr e ↦
          let some_left : 0 < 1024 % tiles = ground arith in
          rw e (
            validate-fail io_x io_y x y 0 expected h 17 (omega arith) (λ same. absurd (
              omega (
                arith,
                bins 17 (omega arith),
                same,
                short (tiles * (1024 / tiles)) (omega arith),
              ))))
    ]
