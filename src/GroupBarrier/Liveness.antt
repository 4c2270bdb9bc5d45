-- ===== src/GroupBarrier/Liveness.antt =====
-- From every state that is reached, an order of steps brings all tiles through any number of calls.
use no_cgbp_rtl.Base.{
  ℕ, zero, suc, ◌+◌, ◌*◌, ◌<◌, ◌≤◌, refl, sym, List, [], ◌++◌, append_assoc, arith,
}
use mathlib.Core.Path.{subst}
use native.Mathlib.Decide.{ℕ_discrete, dec_lt}
use no_cgbp_rtl.GroupBarrier.{Group, init, center}
use no_cgbp_rtl.GroupBarrier.Invariant.{arrived_le}
use no_cgbp_rtl.GroupBarrier.Progress.{progress, stages, calls_of_progress, run-le, run-append}
use no_cgbp_rtl.GroupBarrier.Rounds.{Ready-Goes}
use no_cgbp_rtl.GroupBarrier.Enabled.{enabled}
use no_cgbp_rtl.GroupBarrier.Safety.{after, run-Inv, run-waits, center_le}

-- The sum of a table's entries up to the bounds
abbrev row_sum : (n : ℕ) → (ℕ → ℕ) → ℕ
row_sum zero f = f 0
row_sum (suc n) f = row_sum n f + f (suc n)

abbrev table_sum : (m n : ℕ) → (ℕ → ℕ → ℕ) → ℕ
table_sum m n f = row_sum n (λ y. row_sum m (λ x. f x y))

row_sum-le : (n : ℕ) (f g : ℕ → ℕ) → ((i : ℕ) → i ≤ n → f i ≤ g i) → row_sum n f ≤ row_sum n g
row_sum-le zero f g h = h 0 (omega arith)
row_sum-le (suc n) f g h =
    omega (arith, h (suc n) (omega arith), row_sum-le n f g (λ i le. h i (omega arith)))

-- One entry that is larger
row_sum-lt :
    (n k : ℕ) (f g : ℕ → ℕ)
    → ((i : ℕ) → i ≤ n → f i ≤ g i)
    → k ≤ n
    → f k < g k
    → row_sum n f < row_sum n g
row_sum-lt zero k f g h le lt = subst (λ (i : ℕ). f i < g i) (omega arith) lt
row_sum-lt (suc n) k f g h le lt = elim (ℕ_discrete k (suc n)) [
  | yes e ↦
      omega (arith, row_sum-le n f g (λ i le. h i (omega arith)), subst (λ (i : ℕ). f i < g i) e lt)
  | no ne ↦ omega (
    arith,
    h (suc n) (omega arith),
    row_sum-lt n k f g (λ i le. h i (omega arith)) (omega arith) lt,
  )
]

-- A sum over a bound has an entry over its share.
row_sum-share : (n b : ℕ) (f : ℕ → ℕ) → (n + 1) * b ≤ row_sum n f → (i : ℕ) × (i ≤ n) × (b ≤ f i)
row_sum-share zero b f h = (0, omega arith, omega arith)
row_sum-share (suc n) b f h = elim (dec_lt (f (suc n)) b) [
  | yes lt ↦ let (i, le, e) = row_sum-share n b f (omega arith) in (i, omega arith, e)
  | no ge ↦ (suc n, omega arith, omega arith)
]

module _ (x_start y_start x_range y_range : ℕ) where
  abbrev all_progress : List (ℕ × ℕ) → ℕ
  all_progress order =
      table_sum x_range y_range
        (progress x_range y_range (after x_start y_start x_range y_range order))

  one_more :
      (order : List (ℕ × ℕ))
      → (more : List (ℕ × ℕ)) × (all_progress order < all_progress (order ++ more))
  one_more order =
      let s = after x_start y_start x_range y_range order in
      let cx = center x_start x_range in
      let cy = center y_start y_range in
      let (x, y, hx, hy, r) =
        enabled x_range y_range cx cy s (run-Inv x_start y_start x_range y_range order)
          (center_le x_start x_range) (center_le y_start y_range) in
      let (more, lt) = Ready-Goes x_range y_range cx cy s x y (s.pc x y) hx hy refl r in
      (
        more,
        subst
            (λ (g : Group).
              table_sum x_range y_range (progress x_range y_range s)
              < table_sum x_range y_range (progress x_range y_range g))
            (sym (run-append x_range y_range cx cy order more init))
            (row_sum-lt y_range y _ _
              (λ j hj. row_sum-le x_range _ _ (λ i hi. run-le x_range y_range cx cy more s i j)) hy
              (row_sum-lt x_range x _ _ (λ i hi. run-le x_range y_range cx cy more s i y) hx lt)),
      )

  many_more :
      (n : ℕ) (order : List (ℕ × ℕ)) → (more : List (ℕ × ℕ)) × (n ≤ all_progress (order ++ more))
  many_more zero order = ([], omega arith)
  many_more (suc n) order =
      let (more, h) = many_more n order in
      let (last, lt) = one_more (order ++ more) in
      (
        more ++ last,
        subst (λ (o : List (ℕ × ℕ)). suc n ≤ all_progress o) (append_assoc order more last)
            (omega (arith, h, lt)),
      )

  -- From every state that some order of steps reaches, and for every number of calls: a further order
  -- of steps takes every tile of the group through as many calls. So the barrier never locks up.
  pub run-returns :
      (order : List (ℕ × ℕ)) (k : ℕ)
      → (more : List (ℕ × ℕ)) × ((x y : ℕ)
          → x ≤ x_range
          → y ≤ y_range
          → k ≤ (after x_start y_start x_range y_range (order ++ more)).calls x y)
  run-returns order k =
      let share = (k + 1) * stages x_range y_range in
      let (more, enough) = many_more ((y_range + 1) * ((x_range + 1) * share)) order in
      let s = after x_start y_start x_range y_range (order ++ more) in
      let (b, b_le, row) = row_sum-share y_range ((x_range + 1) * share) _ enough in
      let (a, a_le, most) = row_sum-share x_range share _ row in
      let returned = calls_of_progress x_range y_range s a b (k + 1) most in
      (
        more,
        λ x y hx hy. omega (
          arith,
          returned,
          run-waits x_start y_start x_range y_range (order ++ more) a b x y a_le b_le hx hy,
          arrived_le (s.pc x y),
        ),
      )
