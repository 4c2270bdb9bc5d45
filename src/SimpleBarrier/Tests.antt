-- ===== src/SimpleBarrier/Tests.antt =====
-- Three columns of two tiles, taking turns, the chief the first; and a row of four with another chief.
use no_cgbp_rtl.Base.{ℕ, zero, suc, ◌+◌, ◌≤◌, ◌≡◌, refl, List, [], ◌∷◌, ◌++◌, arith}
use no_cgbp_rtl.Base.Bits.{bit_or_zero}
use no_cgbp_rtl.SimpleBarrier.{Rectangle, start, run, num_threads, chief_number, alert_tile}
use no_cgbp_rtl.SimpleBarrier.Counters.{joined}
use no_cgbp_rtl.SimpleBarrier.Safety.{barrier_run-waits}

abbrev rounds : ℕ → List ℕ
rounds zero = []
rounds (suc n) = (0 ∷ 1 ∷ 2 ∷ 3 ∷ 4 ∷ 5 ∷ []) ++ rounds n

abbrev six : Rectangle
six = record {
  x_cord_start = 0;
  x_cord_end = 2;
  y_cord_start = 0;
  y_cord_end = 1;
  barrier_x_cord = 0;
  barrier_y_cord = 0;
}

-- After 60 rounds the first and the last tile have returned from one call.
finished :
    (run 6 0 (alert_tile six) start (rounds 60)).calls 0
      ∷ (run 6 0 (alert_tile six) start (rounds 60)).calls 5
      ∷ []
    ≡ 1 ∷ 1 ∷ []
unfolding run no_cgbp_rtl.SimpleBarrier.turn no_cgbp_rtl.SimpleBarrier.advance
    no_cgbp_rtl.Mutex.move no_cgbp_rtl.Mutex.try_lock no_cgbp_rtl.Mutex.unlock alert_tile
finished = refl

-- Four columns of one tile, the second the chief: its alerts go to tiles 1, 1, 3 and 3, for
-- 0 `|` 1, 1 `|` 1, 2 `|` 1 and 3 `|` 1.
abbrev row_of_four : Rectangle
row_of_four = record {
  x_cord_start = 0;
  x_cord_end = 3;
  y_cord_start = 0;
  y_cord_end = 0;
  barrier_x_cord = 1;
  barrier_y_cord = 0;
}

alerted_tiles :
    alert_tile row_of_four 0
      ∷ alert_tile row_of_four 1
      ∷ alert_tile row_of_four 2
      ∷ alert_tile row_of_four 3
      ∷ []
    ≡ 1 ∷ 1 ∷ 3 ∷ 3 ∷ []
unfolding alert_tile
alerted_tiles = refl

barrier_run-waits_example :
    (run (num_threads six) (chief_number six) (alert_tile six) start (rounds 60)).calls 0
    ≤ (run (num_threads six) (chief_number six) (alert_tile six) start (rounds 60)).calls 5
      + joined
          ((run (num_threads six) (chief_number six) (alert_tile six) start (rounds 60)).place 5)
barrier_run-waits_example =
    barrier_run-waits six (rounds 60) 0 5 (omega arith) (omega arith) (omega arith) (omega arith)
      (λ x from to. bit_or_zero x) (λ y from to. bit_or_zero y) (omega arith) (omega arith)
      (omega arith)
