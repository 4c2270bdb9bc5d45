-- ===== src/Histogram/Tests.antt =====
-- Two tiles that count the program's data, and take turns.
use no_cgbp_rtl.Base.{
  if◌then◌else◌, ◌==◌, ℕ, zero, suc, ◌*◌, ◌%◌, ◌<◌, ◌≡◌, refl, List, [], ◌∷◌, ◌++◌, arith,
}
use no_cgbp_rtl.Manycore.{finish, fail}
use no_cgbp_rtl.Histogram.{waiting, begin, size, run, work, turn, step, validate}
use no_cgbp_rtl.Histogram.Data.{data_1024, expected}
use no_cgbp_rtl.Histogram.Shares.{count}
use no_cgbp_rtl.Histogram.Results.{histogram_lem}
use no_cgbp_rtl.Histogram.Progress.{run-finishes}
use no_cgbp_rtl.Histogram.Program.{value_at, value_at_lt, validate_lem}

abbrev turns : ℕ → List ℕ → List ℕ
turns zero order = []
turns (suc n) order = order ++ turns n order

-- Two tiles through the program's data: the second waits for the lock that the first has.
abbrev both : List ℕ
both = turns 700 (0 ∷ 1 ∷ [])

all_wait : (t : ℕ) → t < 2 → (run value_at 2 begin both).place t ≡ waiting
unfolding run turn step data_1024
all_wait zero lt = refl
all_wait (suc zero) lt = refl
all_wait (suc (suc t)) lt = absurd (omega arith)

-- Three tiles have 341 values each, so the last one is left out.
abbrev three : List ℕ
three = turns 600 (0 ∷ 1 ∷ 2 ∷ [])

three_wait : (t : ℕ) → t < 3 → (run value_at 3 begin three).place t ≡ waiting
unfolding run turn step data_1024
three_wait zero lt = refl
three_wait (suc zero) lt = refl
three_wait (suc (suc zero)) lt = refl
three_wait (suc (suc (suc t))) lt = absurd (omega arith)

histogram_lem_example :
    (run value_at 2 begin both).memory.histogram 17 ≡ count value_at 0 (2 * work value_at 2) 17
histogram_lem_example =
    histogram_lem value_at 2 both 17 (omega arith) (λ i lt. value_at_lt i) all_wait (omega arith)

run-finishes_example :
    (more : List ℕ) × ((t : ℕ)
      → t < 2
      → (run value_at 2 begin (turns 500 (0 ∷ 1 ∷ []) ++ more)).place t ≡ waiting)
run-finishes_example = run-finishes value_at 2 (λ i lt. value_at_lt i) (turns 500 (0 ∷ 1 ∷ []))

validate_lem_example :
    validate 4 0 0 0 0 expected (run value_at 3 begin three).memory.histogram
    ≡ (if size % 3 == 0 then finish 4 0 0 0 else fail 4 0 0 0)
validate_lem_example = validate_lem 4 0 0 0 3 three (omega arith) three_wait
