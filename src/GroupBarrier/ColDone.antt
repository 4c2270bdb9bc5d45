-- ===== src/GroupBarrier/ColDone.antt =====
-- The arrivals of the column under a step.
use no_cgbp_rtl.Base.{ℕ, ◌+◌, ◌≤◌, ◌≡◌, refl, sym, ap, ◌∙◌, ◌&&◌, ◌==◌, if◌then◌else◌, arith}
use native.Mathlib.Decide.{ℕ_discrete}
use no_cgbp_rtl.GroupBarrier.{
  Pc, outside, wait_col, wait_row, clear_row, poll_row, poll_col, reset_col, alert_col, reset_row,
  alert_row, move, Group,
}
use no_cgbp_rtl.GroupBarrier.Counters.{col_arrived, col_reset, arrives_col, resets_col}
use no_cgbp_rtl.GroupBarrier.Turn.{total, total-moved, moved, col_arrived_step, col_reset_step}
use no_cgbp_rtl.GroupBarrier.Invariant.{
  Inv, col_done-zero, col_done-one, at_row_centre, at_group_centre,
}

module _ (x_range y_range center_x center_y : ℕ) (s : Group)
    (v : Inv x_range y_range center_x center_y s) (x y : ℕ) (x_le : x ≤ x_range)
    (y_le : y ≤ y_range) (cx_le : center_x ≤ x_range) (cy_le : center_y ≤ y_range) where
  abbrev after : Pc → Group
  after = moved x_range y_range center_x center_y s x y

  col_balance :
      (p : Pc) (y' : ℕ)
      → s.pc x y ≡ p
      → y' ≤ y_range
      → total col_arrived s center_x y'
          + (if x == center_x && y == y' then arrives_col x_range y_range p else 0)
        ≡ total (λ q. col_reset q y') s center_x center_y
          + (if x == center_x && y == center_y then resets_col x_range y_range p y' else 0)
          + (after p).memory.col_done y'
  unfolding move
  col_balance outside y' at hy = ground (arith, v.col_arrivals y' hy)
  col_balance wait_col y' at hy = ground (arith, v.col_arrivals y' hy)
  col_balance wait_row y' at hy = ground (arith, v.col_arrivals y' hy)
  col_balance clear_row y' at hy = ground (arith, v.col_arrivals y' hy)
  col_balance (poll_row i) y' at hy = elim (ℕ_discrete y y') [
    | yes f ↦ ground (arith, f, r, v.col_arrivals y' hy, zero_there f)
    | no ne ↦ ground (arith, ne, v.col_arrivals y' hy)
  ]
    where
      r : x ≡ center_x
      r = at_row_centre x_range y_range center_x center_y s v x y (poll_row i) at refl

      zero_there : y ≡ y' → s.memory.col_done y' ≡ 0
      zero_there f =
          col_done-zero x_range y_range center_x center_y s v y' i cx_le hy (rw (sym r, sym f) at)
  col_balance (poll_col i) y' at hy = ground (arith, v.col_arrivals y' hy)
  col_balance (reset_col i) y' at hy = elim (ℕ_discrete i y') [
    | yes e ↦ ground (arith, e, r, g, v.col_arrivals y' hy, one_there e)
    | no ne ↦ ground (arith, ne, v.col_arrivals y' hy)
  ]
    where
      r : x ≡ center_x
      r = at_row_centre x_range y_range center_x center_y s v x y (reset_col i) at refl

      g : y ≡ center_y
      g = at_group_centre x_range y_range center_x center_y s v x y (reset_col i) at refl

      one_there : i ≡ y' → s.memory.col_done y' ≡ 1
      one_there e =
          col_done-one x_range y_range center_x center_y s v y' i hy (omega arith)
            (rw (sym r, sym g) at)
  col_balance (alert_col i) y' at hy = ground (arith, v.col_arrivals y' hy)
  col_balance (reset_row i) y' at hy = ground (arith, v.col_arrivals y' hy)
  col_balance (alert_row i) y' at hy = ground (arith, v.col_arrivals y' hy)

  pub col_arrivals-keep :
      (p : Pc) (y' : ℕ)
      → s.pc x y ≡ p
      → y' ≤ y_range
      → total col_arrived (after p) center_x y'
        ≡ total (λ q. col_reset q y') (after p) center_x center_y + (after p).memory.col_done y'
  col_arrivals-keep p y' at hy =
      total-moved x_range y_range center_x center_y s x y col_arrived
        (arrives_col x_range y_range p) p center_x y' at
        (λ e f. col_arrived_step x_range y_range center_x center_y s x y p e)
      ∙ col_balance p y' at hy
      ∙ ap (λ (n : ℕ). n + (after p).memory.col_done y')
          (sym (
            total-moved x_range y_range center_x center_y s x y (λ q. col_reset q y')
              (resets_col x_range y_range p y') p center_x center_y at
              (λ e f. col_reset_step x_range y_range center_x center_y s x y p y' hy e f)))
