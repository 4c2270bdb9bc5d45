-- ===== src/GroupBarrier/Roles.antt =====
-- Flags stay flags, and tiles keep to their parts of the program.
use no_cgbp_rtl.Base.{ℕ, ◌≤◌, ◌≡◌, ◌≢◌, inl, inr, sym, ap, ◌∙◌, arith}
use mathlib.Core.Path.{ap₂}
use no_cgbp_rtl.Base.Loops.{put2, put2_self, put2_ne, pair-cases}
use no_cgbp_rtl.GroupBarrier.{
  Pc, outside, wait_col, wait_row, clear_row, poll_row, poll_col, reset_col, alert_col, reset_row,
  alert_row, move, Group,
}
use no_cgbp_rtl.GroupBarrier.Counters.{row_centre, group_centre}
use no_cgbp_rtl.GroupBarrier.Turn.{next, moved}
use no_cgbp_rtl.GroupBarrier.Invariant.{Inv}

module _ (x_range y_range center_x center_y : ℕ) (s : Group)
    (v : Inv x_range y_range center_x center_y s) (x y : ℕ) (x_le : x ≤ x_range)
    (y_le : y ≤ y_range) (cx_le : center_x ≤ x_range) (cy_le : center_y ≤ y_range) where
  abbrev after : Pc → Group
  after = moved x_range y_range center_x center_y s x y

  pub row_done_le-keep : (p : Pc) (y' x' : ℕ) → (after p).memory.row_done y' x' ≤ 1
  unfolding move
  row_done_le-keep outside y' x' = ground (arith, v.row_done_le y' x')
  row_done_le-keep wait_col y' x' = ground (arith, v.row_done_le y' x')
  row_done_le-keep wait_row y' x' = ground (arith, v.row_done_le y' x')
  row_done_le-keep clear_row y' x' = ground (arith, v.row_done_le y' x')
  row_done_le-keep (poll_row i) y' x' = ground (arith, v.row_done_le y' x')
  row_done_le-keep (poll_col i) y' x' = ground (arith, v.row_done_le y' x')
  row_done_le-keep (reset_col i) y' x' = ground (arith, v.row_done_le y' x')
  row_done_le-keep (alert_col i) y' x' = ground (arith, v.row_done_le y' x')
  row_done_le-keep (reset_row i) y' x' = ground (arith, v.row_done_le y' x')
  row_done_le-keep (alert_row i) y' x' = ground (arith, v.row_done_le y' x')

  pub col_done_le-keep : (p : Pc) (y' : ℕ) → (after p).memory.col_done y' ≤ 1
  unfolding move
  col_done_le-keep outside y' = ground (arith, v.col_done_le y')
  col_done_le-keep wait_col y' = ground (arith, v.col_done_le y')
  col_done_le-keep wait_row y' = ground (arith, v.col_done_le y')
  col_done_le-keep clear_row y' = ground (arith, v.col_done_le y')
  col_done_le-keep (poll_row i) y' = ground (arith, v.col_done_le y')
  col_done_le-keep (poll_col i) y' = ground (arith, v.col_done_le y')
  col_done_le-keep (reset_col i) y' = ground (arith, v.col_done_le y')
  col_done_le-keep (alert_col i) y' = ground (arith, v.col_done_le y')
  col_done_le-keep (reset_row i) y' = ground (arith, v.col_done_le y')
  col_done_le-keep (alert_row i) y' = ground (arith, v.col_done_le y')

  pub col_alert_le-keep : (p : Pc) (y' : ℕ) → (after p).memory.col_alert y' ≤ 1
  unfolding move
  col_alert_le-keep outside y' = ground (arith, v.col_alert_le y')
  col_alert_le-keep wait_col y' = ground (arith, v.col_alert_le y')
  col_alert_le-keep wait_row y' = ground (arith, v.col_alert_le y')
  col_alert_le-keep clear_row y' = ground (arith, v.col_alert_le y')
  col_alert_le-keep (poll_row i) y' = ground (arith, v.col_alert_le y')
  col_alert_le-keep (poll_col i) y' = ground (arith, v.col_alert_le y')
  col_alert_le-keep (reset_col i) y' = ground (arith, v.col_alert_le y')
  col_alert_le-keep (alert_col i) y' = ground (arith, v.col_alert_le y')
  col_alert_le-keep (reset_row i) y' = ground (arith, v.col_alert_le y')
  col_alert_le-keep (alert_row i) y' = ground (arith, v.col_alert_le y')

  pub row_alert_le-keep : (p : Pc) (x' y' : ℕ) → (after p).memory.row_alert x' y' ≤ 1
  unfolding move
  row_alert_le-keep outside x' y' = ground (arith, v.row_alert_le x' y')
  row_alert_le-keep wait_col x' y' = ground (arith, v.row_alert_le x' y')
  row_alert_le-keep wait_row x' y' = ground (arith, v.row_alert_le x' y')
  row_alert_le-keep clear_row x' y' = ground (arith, v.row_alert_le x' y')
  row_alert_le-keep (poll_row i) x' y' = ground (arith, v.row_alert_le x' y')
  row_alert_le-keep (poll_col i) x' y' = ground (arith, v.row_alert_le x' y')
  row_alert_le-keep (reset_col i) x' y' = ground (arith, v.row_alert_le x' y')
  row_alert_le-keep (alert_col i) x' y' = ground (arith, v.row_alert_le x' y')
  row_alert_le-keep (reset_row i) x' y' = ground (arith, v.row_alert_le x' y')
  row_alert_le-keep (alert_row i) x' y' = ground (arith, v.row_alert_le x' y')

  of_row_step :
      (p : Pc)
      → x ≢ center_x
      → row_centre p ≡ 0
      → row_centre (next x_range y_range center_x center_y s x y p).1 ≡ 0
  unfolding move
  of_row_step outside ne old = ground arith
  of_row_step wait_col ne old = ground arith
  of_row_step wait_row ne old = ground arith
  of_row_step clear_row ne old = ground arith
  of_row_step (poll_row i) ne old = ground arith
  of_row_step (poll_col i) ne old = ground arith
  of_row_step (reset_col i) ne old = ground arith
  of_row_step (alert_col i) ne old = ground arith
  of_row_step (reset_row i) ne old = ground arith
  of_row_step (alert_row i) ne old = ground arith

  pub of_row-keep :
      (p : Pc) (x' y' : ℕ) → s.pc x y ≡ p → x' ≢ center_x → row_centre ((after p).pc x' y') ≡ 0
  of_row-keep p x' y' at ne = elim (pair-cases x y x' y') [
    | inl (e, f) ↦
        ap (λ (q : Pc). row_centre q)
          (ap₂ (put2 s.pc x y (next x_range y_range center_x center_y s x y p).1) (sym e) (sym f)
            ∙ put2_self s.pc x y (next x_range y_range center_x center_y s x y p).1)
        ∙ of_row_step p (λ h. ne (sym e ∙ h))
            (ap (λ (q : Pc). row_centre q) (sym at ∙ ap₂ s.pc e f) ∙ v.of_row x' y' ne)
    | inr h ↦
        ap (λ (q : Pc). row_centre q)
          (put2_ne s.pc x y (next x_range y_range center_x center_y s x y p).1 x' y' h)
        ∙ v.of_row x' y' ne
  ]

  of_group_step :
      (p : Pc)
      → y ≢ center_y
      → group_centre p ≡ 0
      → group_centre (next x_range y_range center_x center_y s x y p).1 ≡ 0
  unfolding move
  of_group_step outside ne old = ground arith
  of_group_step wait_col ne old = ground arith
  of_group_step wait_row ne old = ground arith
  of_group_step clear_row ne old = ground arith
  of_group_step (poll_row i) ne old = ground arith
  of_group_step (poll_col i) ne old = ground arith
  of_group_step (reset_col i) ne old = ground arith
  of_group_step (alert_col i) ne old = ground arith
  of_group_step (reset_row i) ne old = ground arith
  of_group_step (alert_row i) ne old = ground arith

  pub of_group-keep :
      (p : Pc) (x' y' : ℕ) → s.pc x y ≡ p → y' ≢ center_y → group_centre ((after p).pc x' y') ≡ 0
  of_group-keep p x' y' at ne = elim (pair-cases x y x' y') [
    | inl (e, f) ↦
        ap (λ (q : Pc). group_centre q)
          (ap₂ (put2 s.pc x y (next x_range y_range center_x center_y s x y p).1) (sym e) (sym f)
            ∙ put2_self s.pc x y (next x_range y_range center_x center_y s x y p).1)
        ∙ of_group_step p (λ h. ne (sym f ∙ h))
            (ap (λ (q : Pc). group_centre q) (sym at ∙ ap₂ s.pc e f) ∙ v.of_group x' y' ne)
    | inr h ↦
        ap (λ (q : Pc). group_centre q)
          (put2_ne s.pc x y (next x_range y_range center_x center_y s x y p).1 x' y' h)
        ∙ v.of_group x' y' ne
  ]
