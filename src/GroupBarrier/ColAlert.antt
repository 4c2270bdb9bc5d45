-- ===== src/GroupBarrier/ColAlert.antt =====
-- The alerts of the column under a step.
use no_cgbp_rtl.Base.{ℕ, ◌+◌, ◌≤◌, ◌≡◌, refl, sym, ap, ◌∙◌, ◌&&◌, ◌==◌, if◌then◌else◌, arith}
use native.Mathlib.Decide.{ℕ_discrete}
use no_cgbp_rtl.GroupBarrier.{
  Pc, outside, wait_col, wait_row, clear_row, poll_row, poll_col, reset_col, alert_col, reset_row,
  alert_row, move, Group,
}
use no_cgbp_rtl.GroupBarrier.Counters.{col_taken, col_alerted, takes_col, alerts_col}
use no_cgbp_rtl.GroupBarrier.Turn.{total, total-moved, moved, col_taken_step, col_alerted_step}
use no_cgbp_rtl.GroupBarrier.Invariant.{
  Inv, col_alert-zero, col_alert-one, at_row_centre, at_group_centre,
}

module _ (x_range y_range center_x center_y : ℕ) (s : Group)
    (v : Inv x_range y_range center_x center_y s) (x y : ℕ) (x_le : x ≤ x_range)
    (y_le : y ≤ y_range) (cx_le : center_x ≤ x_range) (cy_le : center_y ≤ y_range) where
  abbrev after : Pc → Group
  after = moved x_range y_range center_x center_y s x y

  col_alert_balance :
      (p : Pc) (y' : ℕ)
      → s.pc x y ≡ p
      → y' ≤ y_range
      → total (λ q. col_alerted q y') s center_x center_y
          + (if x == center_x && y == center_y then alerts_col x_range y_range p y' else 0)
        ≡ total col_taken s center_x y'
          + (if x == center_x && y == y' then takes_col x_range y_range p else 0)
          + (after p).memory.col_alert y'
  unfolding move
  col_alert_balance outside y' at hy = ground (arith, v.col_alerts y' hy)
  col_alert_balance wait_col y' at hy = ground (arith, v.col_alerts y' hy)
  col_alert_balance wait_row y' at hy = ground (arith, v.col_alerts y' hy)
  col_alert_balance clear_row y' at hy = ground (arith, v.col_alerts y' hy)
  col_alert_balance (poll_row i) y' at hy = ground (arith, v.col_alerts y' hy)
  col_alert_balance (poll_col i) y' at hy = ground (arith, v.col_alerts y' hy)
  col_alert_balance (reset_col i) y' at hy = ground (arith, v.col_alerts y' hy)
  col_alert_balance (alert_col i) y' at hy = elim (ℕ_discrete i y') [
    | yes e ↦ ground (arith, e, r, g, v.col_alerts y' hy, zero_there e)
    | no ne ↦ ground (arith, ne, v.col_alerts y' hy)
  ]
    where
      r : x ≡ center_x
      r = at_row_centre x_range y_range center_x center_y s v x y (alert_col i) at refl

      g : y ≡ center_y
      g = at_group_centre x_range y_range center_x center_y s v x y (alert_col i) at refl

      zero_there : i ≡ y' → s.memory.col_alert y' ≡ 0
      zero_there e =
          col_alert-zero x_range y_range center_x center_y s v y' i hy (omega arith)
            (rw (sym r, sym g) at)
  col_alert_balance (reset_row i) y' at hy = elim (ℕ_discrete y y') [
    | yes f ↦ ground (arith, f, r, v.col_alerts y' hy, one_there f)
    | no ne ↦ ground (arith, ne, v.col_alerts y' hy)
  ]
    where
      r : x ≡ center_x
      r = at_row_centre x_range y_range center_x center_y s v x y (reset_row i) at refl

      one_there : y ≡ y' → s.memory.col_alert y' ≡ 1
      one_there f =
          col_alert-one x_range y_range center_x center_y s v y' i hy (rw (sym r, sym f) at)
  col_alert_balance (alert_row i) y' at hy = ground (arith, v.col_alerts y' hy)

  pub col_alerts-keep :
      (p : Pc) (y' : ℕ)
      → s.pc x y ≡ p
      → y' ≤ y_range
      → total (λ q. col_alerted q y') (after p) center_x center_y
        ≡ total col_taken (after p) center_x y' + (after p).memory.col_alert y'
  col_alerts-keep p y' at hy =
      total-moved x_range y_range center_x center_y s x y (λ q. col_alerted q y')
        (alerts_col x_range y_range p y') p center_x center_y at
        (λ e f. col_alerted_step x_range y_range center_x center_y s x y p y' hy e f)
      ∙ col_alert_balance p y' at hy
      ∙ ap (λ (n : ℕ). n + (after p).memory.col_alert y')
          (sym (
            total-moved x_range y_range center_x center_y s x y col_taken
              (takes_col x_range y_range p) p center_x y' at
              (λ e f. col_taken_step x_range y_range center_x center_y s x y p e)))
