-- ===== src/GroupBarrier/Safety.antt =====
-- The invariant of every interleaving, and that no tile leaves the barrier before all have come.
use no_cgbp_rtl.Base.{
  ℕ, ◌+◌, ◌≤◌, ◌≡◌, inl, inr, refl, List, [], ◌∷◌, leb, ◌&&◌, true, Bool-cases, arith,
}
use no_cgbp_rtl.GroupBarrier.{Group, init, turn, run, center}
use no_cgbp_rtl.GroupBarrier.Counters.{arrived, col_taken, row_alerted, col_reset, col_alerted}
use no_cgbp_rtl.GroupBarrier.Turn.{total, total_le}
use no_cgbp_rtl.GroupBarrier.Invariant.{
  Inv, row_alerted-col_taken, col_alerted-col_reset, col_arrived_le,
}
use no_cgbp_rtl.GroupBarrier.RowDone.{row_arrivals-keep}
use no_cgbp_rtl.GroupBarrier.ColDone.{col_arrivals-keep}
use no_cgbp_rtl.GroupBarrier.ColAlert.{col_alerts-keep}
use no_cgbp_rtl.GroupBarrier.RowAlert.{row_alerts-keep}
use no_cgbp_rtl.GroupBarrier.Seen.{row_seen-keep, col_seen-keep}
use no_cgbp_rtl.GroupBarrier.Woken.{col_woken-keep, row_woken-keep}
use no_cgbp_rtl.GroupBarrier.Roles.{
  row_done_le-keep, col_done_le-keep, col_alert_le-keep, row_alert_le-keep, of_row-keep,
  of_group-keep,
}

module _ (x_range y_range center_x center_y : ℕ) (cx_le : center_x ≤ x_range)
    (cy_le : center_y ≤ y_range) where
  turn-Inv :
      (s : Group) (x y : ℕ)
      → x ≤ x_range
      → y ≤ y_range
      → Inv x_range y_range center_x center_y s
      → Inv x_range y_range center_x center_y (turn x_range y_range center_x center_y s x y)
  unfolding turn
  turn-Inv s x y x_le y_le v = record {
    row_arrivals = λ x' y'.
        row_arrivals-keep x_range y_range center_x center_y s v x y x_le y_le cx_le cy_le (s.pc x y)
          x' y' refl;
    col_arrivals = λ y'.
        col_arrivals-keep x_range y_range center_x center_y s v x y x_le y_le cx_le cy_le (s.pc x y)
          y' refl;
    col_alerts = λ y'.
        col_alerts-keep x_range y_range center_x center_y s v x y x_le y_le cx_le cy_le (s.pc x y)
          y' refl;
    row_alerts = λ x' y'.
        row_alerts-keep x_range y_range center_x center_y s v x y x_le y_le cx_le cy_le (s.pc x y)
          x' y' refl;
    row_seen_le = λ x' y'.
        row_seen-keep x_range y_range center_x center_y s v x y x_le y_le cx_le cy_le (s.pc x y) x'
          y' refl;
    col_seen_le = λ y'.
        col_seen-keep x_range y_range center_x center_y s v x y x_le y_le cx_le cy_le (s.pc x y) y'
          refl;
    col_woken_le = λ y'.
        col_woken-keep x_range y_range center_x center_y s v x y x_le y_le cx_le cy_le (s.pc x y) y'
          refl;
    row_woken_le = λ x' y'.
        row_woken-keep x_range y_range center_x center_y s v x y x_le y_le cx_le cy_le (s.pc x y) x'
          y' refl;
    row_done_le = λ y' x'.
        row_done_le-keep x_range y_range center_x center_y s v x y x_le y_le cx_le cy_le (s.pc x y)
          y' x';
    col_done_le = λ y'.
        col_done_le-keep x_range y_range center_x center_y s v x y x_le y_le cx_le cy_le (s.pc x y)
          y';
    col_alert_le = λ y'.
        col_alert_le-keep x_range y_range center_x center_y s v x y x_le y_le cx_le cy_le (s.pc x y)
          y';
    row_alert_le = λ x' y'.
        row_alert_le-keep x_range y_range center_x center_y s v x y x_le y_le cx_le cy_le (s.pc x y)
          x' y';
    of_row = λ x' y'.
        of_row-keep x_range y_range center_x center_y s v x y x_le y_le cx_le cy_le (s.pc x y) x' y'
          refl;
    of_group = λ x' y'.
        of_group-keep x_range y_range center_x center_y s v x y x_le y_le cx_le cy_le (s.pc x y) x'
          y' refl;
  }

  init-Inv : Inv x_range y_range center_x center_y init
  unfolding total
  init-Inv = record {
    row_arrivals = λ x y hx hy. refl;
    col_arrivals = λ y hy. refl;
    col_alerts = λ y hy. refl;
    row_alerts = λ x y hx hy. refl;
    row_seen_le = λ x y hx hy. omega arith;
    col_seen_le = λ y hy. omega arith;
    col_woken_le = λ y hy. omega arith;
    row_woken_le = λ x y hx hy. omega arith;
    row_done_le = λ y x. omega arith;
    col_done_le = λ y. omega arith;
    col_alert_le = λ y. omega arith;
    row_alert_le = λ x y. omega arith;
    of_row = λ x y ne. refl;
    of_group = λ x y ne. refl;
  }

  run_from :
      (s : Group) (order : List (ℕ × ℕ))
      → Inv x_range y_range center_x center_y s
      → Inv x_range y_range center_x center_y (run x_range y_range center_x center_y s order)
  unfolding run
  run_from s [] v = v
  run_from s ((x, y) ∷ order) v = elim (Bool-cases (leb x x_range && leb y y_range)) [
    | inl e ↦ rw e (
        run_from (turn x_range y_range center_x center_y s x y) order
          (turn-Inv s x y (column e) (row e) v))
    | inr e ↦ rw e (run_from s order v)
  ]
    where
      column : (leb x x_range && leb y y_range) ≡ true → x ≤ x_range
      column e = ground arith

      row : (leb x x_range && leb y y_range) ≡ true → y ≤ y_range
      row e = ground arith

-- The centre is in the group.
pub center_le : (start range : ℕ) → center start range ≤ range
center_le start range = omega arith

module _ (x_start y_start x_range y_range : ℕ) where
  -- The group after its tiles moved in an order, from the initial lists
  abbrev pub after : List (ℕ × ℕ) → Group
  after order = run x_range y_range (center x_start x_range) (center y_start y_range) init order

  -- In every order of steps, for the tiles of the group: the arrivals that a tile has stored are those
  -- that its centre has reset and the list's entry, for rows and for the column; the alerts that a
  -- centre has stored are those that were cleared and the one that stands; each entry and alert is at
  -- most 1; what a poll or a wait has seen still stands; and only tiles of the centre column reach the
  -- code of a row's centre, only tiles of the centre row that of the group's.
  pub run-Inv :
      (order : List (ℕ × ℕ))
      → Inv x_range y_range (center x_start x_range) (center y_start y_range) (after order)
  run-Inv order =
      run_from x_range y_range _ _ (center_le x_start x_range) (center_le y_start y_range) init
        order (init-Inv x_range y_range _ _ (center_le x_start x_range) (center_le y_start y_range))

  -- In every order of steps: when a tile of the group has returned from the barrier `n` times, every
  -- tile has begun its `n`-th call and stored its arrival. So no tile leaves before all have come, and
  -- none is ever more than one call ahead.
  pub run-waits :
      (order : List (ℕ × ℕ)) (x y x' y' : ℕ)
      → x ≤ x_range
      → y ≤ y_range
      → x' ≤ x_range
      → y' ≤ y_range
      → (after order).calls x y ≤ (after order).calls x' y' + arrived ((after order).pc x' y')
  unfolding total
  run-waits order x y x' y' hx hy hx' hy' =
      let s = after order in
      let cx = center x_start x_range in
      let cy = center y_start y_range in
      let v = run-Inv order in
      omega (
        arith,
        v.row_alerts x y hx hy,
        total_le (λ p. row_alerted p x) col_taken s cx y (λ p. row_alerted-col_taken p x),
        v.col_alerts y hy,
        total_le (λ p. col_alerted p y) (λ p. col_reset p y') s cx cy
            (λ p. col_alerted-col_reset p y y'),
        v.col_arrivals y' hy',
        col_arrived_le (s.pc cx y') x',
        v.row_seen_le x' y' hx' hy',
        v.row_arrivals x' y' hx' hy',
      )
