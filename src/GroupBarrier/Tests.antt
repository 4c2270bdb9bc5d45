-- ===== src/GroupBarrier/Tests.antt =====
-- A group of three columns by two rows, its tiles taking turns.
use no_cgbp_rtl.Base.{ℕ, zero, suc, ◌+◌, ◌≤◌, ◌≡◌, refl, List, [], ◌∷◌, ◌++◌, arith}
use no_cgbp_rtl.GroupBarrier.{Pc, Group, init, run, center}
use no_cgbp_rtl.GroupBarrier.Counters.{arrived}
use no_cgbp_rtl.GroupBarrier.Invariant.{Inv}
use no_cgbp_rtl.GroupBarrier.Safety.{after, run-Inv, run-waits}
use no_cgbp_rtl.GroupBarrier.Liveness.{run-returns}

abbrev round : List (ℕ × ℕ)
round = (0, 0) ∷ (1, 0) ∷ (2, 0) ∷ (0, 1) ∷ (1, 1) ∷ (2, 1) ∷ []

abbrev rounds : ℕ → List (ℕ × ℕ)
rounds zero = []
rounds (suc n) = round ++ rounds n

-- After forty rounds the first and the last tile have returned from one call.
finished :
    (after 4 2 2 1 (rounds 40)).calls 0 0 ∷ (after 4 2 2 1 (rounds 40)).calls 2 1 ∷ [] ≡ 1 ∷ 1 ∷ []
unfolding run no_cgbp_rtl.GroupBarrier.turn no_cgbp_rtl.GroupBarrier.move
finished = refl

run-Inv_example : Inv 2 1 (center 4 2) (center 2 1) (after 4 2 2 1 (rounds 40))
run-Inv_example = run-Inv 4 2 2 1 (rounds 40)

run-waits_example :
    (after 4 2 2 1 (rounds 40)).calls 0 0
    ≤ (after 4 2 2 1 (rounds 40)).calls 2 1 + arrived ((after 4 2 2 1 (rounds 40)).pc 2 1)
run-waits_example =
    run-waits 4 2 2 1 (rounds 40) 0 0 2 1 (omega arith) (omega arith) (omega arith) (omega arith)

run-returns_example :
    (more : List (ℕ × ℕ)) × ((x y : ℕ)
      → x ≤ 2
      → y ≤ 1
      → 3 ≤ (after 4 2 2 1 (rounds 40 ++ more)).calls x y)
run-returns_example = run-returns 4 2 2 1 (rounds 40) 3
