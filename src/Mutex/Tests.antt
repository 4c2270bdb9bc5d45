-- ===== src/Mutex/Tests.antt =====
-- Runs of the lock.
use no_cgbp_rtl.Base.{ℕ, ◌+◌, ◌%◌, ◌^◌, ◌≡◌, refl, List, [], ◌∷◌, ◌⊎◌, true, false, arith}
use no_cgbp_rtl.Mutex.{try_lock, unlock, move, turn, run, init}
use no_cgbp_rtl.Base.{◌≤◌, replicate}
use no_cgbp_rtl.Mutex.Progress.{run-can_unlock}
use no_cgbp_rtl.Mutex.Exclusion.{inside, run-exclusive, run-counts}

-- Tile 0 takes the lock and loads the value; tile 1 swaps and fails.
abbrev contended : List ℕ
contended = 0 ∷ 1 ∷ 0 ∷ 1 ∷ 0 ∷ []

-- Both tiles return.
abbrev both : List ℕ
both = 0 ∷ 1 ∷ 0 ∷ 1 ∷ 0 ∷ 0 ∷ 0 ∷ 0 ∷ 1 ∷ 1 ∷ 1 ∷ 1 ∷ 1 ∷ []

both_counted : (run (init 0xffffffff) both).memory.value ≡ 1
unfolding run turn move try_lock unlock
both_counted = refl

both_returned : (run (init 0xffffffff) both).calls ≡ 2
unfolding run turn move try_lock unlock
both_returned = refl

owner_inside : inside ((run (init 5) contended).pc 0) ≡ true
unfolding run turn move try_lock unlock
owner_inside = refl

run-exclusive_example : inside ((run (init 5) contended).pc 1) ≡ false
run-exclusive_example = run-exclusive 5 contended 0 1 (omega arith) (λ e. omega arith) owner_inside

run-counts_example :
    ((run (init 0xffffffff) both).memory.mutex ≡ 0)
      × ((j : ℕ) → inside ((run (init 0xffffffff) both).pc j) ≡ false)
      × ((run (init 0xffffffff) both).memory.value
          ≡ (0xffffffff + (run (init 0xffffffff) both).calls) % 2 ^ 32)
    ⊎ ((run (init 0xffffffff) both).memory.mutex ≡ 1)
      × ((o : ℕ) × (inside ((run (init 0xffffffff) both).pc o) ≡ true))
run-counts_example = run-counts 0xffffffff both (omega arith)

run-can_unlock_example :
    (o k : ℕ) × (k ≤ 4) × ((run (run (init 5) contended) (replicate k o)).memory.mutex ≡ 0)
run-can_unlock_example = run-can_unlock 5 contended (omega arith)
