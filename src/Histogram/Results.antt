-- ===== src/Histogram/Results.antt =====
-- What the histogram holds when every tile has come to the barrier.
use no_cgbp_rtl.Base.{ℕ, ◌+◌, ◌*◌, ◌<◌, ◌≤◌, ◌≡◌, ap, List, arith}
use no_cgbp_rtl.Base.Sums.{sum-cong}
use no_cgbp_rtl.Histogram.{Place, waiting, begin, work, start_idx, run, size}
use no_cgbp_rtl.Histogram.Shares.{count, count_le, sum-count, merged, tally}
use no_cgbp_rtl.Histogram.Invariant.{run-Inv}

module _ (values : ℕ → ℕ) (tiles : ℕ) where
  all_work : 1 ≤ tiles → tiles * work values tiles ≤ 1024
  all_work some = grind arith

  merged_waiting :
      (t j : ℕ) (p : Place) → p ≡ waiting → merged values tiles t j p ≡ tally values tiles t j
  merged_waiting t j p e = ap (merged values tiles t j) e

  pub own_share :
      ((i : ℕ) → i < 1024 → values i < 32)
      → (t : ℕ) → t < tiles
      → (i : ℕ) → i < work values tiles
      → values (start_idx values tiles t + i) < 32
  own_share small t t_lt i i_lt = small (start_idx values tiles t + i) (grind arith)

  -- In every order of steps, for values below 32: once all tiles wait in the barrier, each bin has the
  -- number of times that its index stands among the values of all the tiles' parts. So no addition is
  -- lost, and none wraps around.
  pub histogram_lem :
      (order : List ℕ) (j : ℕ)
      → 1 ≤ tiles
      → ((i : ℕ) → i < size → values i < 32)
      → ((t : ℕ) → t < tiles → (run values tiles begin order).place t ≡ waiting)
      → j < 32
      → (run values tiles begin order).memory.histogram j
        ≡ count values 0 (tiles * work values tiles) j
  histogram_lem order j some small done j_lt =
      let s = run values tiles begin order in
      let inv = run-Inv values tiles (own_share small) order in
      omega (
        arith,
        inv.small j j_lt,
        inv.held j j_lt,
        sum-cong tiles (λ t. merged values tiles t j (s.place t)) (λ t. tally values tiles t j)
            (λ t lt. merged_waiting t j (s.place t) (done t lt)),
        sum-count values tiles (work values tiles) j,
        count_le values 0 (tiles * work values tiles) j,
        all_work some,
      )
