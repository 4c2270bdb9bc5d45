-- ===== src/TileConfig/Tests.antt =====
-- A group of two by two tiles, its tiles taking turns.
use no_cgbp_rtl.Base.{ℕ, zero, suc, ◌≡◌, refl, List, [], ◌∷◌, ◌++◌, true, arith}
use no_cgbp_rtl.Base.Int.{ℤ, pos}
use no_cgbp_rtl.TileConfig.{init, run}
use no_cgbp_rtl.TileConfig.Coordinates.{Configured, done, run-Configured}

abbrev rounds : ℕ → List (ℕ × ℕ)
rounds zero = []
rounds (suc n) = ((0, 0) ∷ (1, 0) ∷ (0, 1) ∷ (1, 1) ∷ []) ++ rounds n

abbrev registers : ℕ → ℤ
registers addr = pos addr

last_finishes : done ((run 2 2 registers init (rounds 30)).pc 1 1) ≡ true
unfolding run no_cgbp_rtl.TileConfig.turn no_cgbp_rtl.TileConfig.move
    no_cgbp_rtl.TileConfig.is_equal
last_finishes = refl

run-Configured_example : Configured 2 2 registers (run 2 2 registers init (rounds 30)) 1 1
run-Configured_example =
    run-Configured 2 2 registers (rounds 30) 1 1 (omega arith) (omega arith) last_finishes
