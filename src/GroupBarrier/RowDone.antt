-- ===== src/GroupBarrier/RowDone.antt =====
-- The arrivals of a row under a step.
use no_cgbp_rtl.Base.{
  ℕ, ◌+◌, ◌≤◌, ◌≡◌, inl, inr, refl, sym, ap, ◌∙◌, ◌&&◌, ◌==◌, if◌then◌else◌, arith,
}
use no_cgbp_rtl.Base.Loops.{pair-cases}
use no_cgbp_rtl.GroupBarrier.{
  Pc, outside, wait_col, wait_row, clear_row, poll_row, poll_col, reset_col, alert_col, reset_row,
  alert_row, move, Group,
}
use no_cgbp_rtl.GroupBarrier.Counters.{arrived, row_reset, arrives, resets_row}
use no_cgbp_rtl.GroupBarrier.Turn.{total, total-moved, moved, arrived_step, row_reset_step}
use no_cgbp_rtl.GroupBarrier.Invariant.{Inv, row_done-zero, row_done-one, at_row_centre}

module _ (x_range y_range center_x center_y : ℕ) (s : Group)
    (v : Inv x_range y_range center_x center_y s) (x y : ℕ) (x_le : x ≤ x_range)
    (y_le : y ≤ y_range) (cx_le : center_x ≤ x_range) (cy_le : center_y ≤ y_range) where
  abbrev after : Pc → Group
  after = moved x_range y_range center_x center_y s x y

  row_balance :
      (p : Pc) (x' y' : ℕ)
      → s.pc x y ≡ p
      → x' ≤ x_range
      → y' ≤ y_range
      → total arrived s x' y' + (if x == x' && y == y' then arrives x_range y_range p else 0)
        ≡ total (λ q. row_reset q x') s center_x y'
          + (if x == center_x && y == y' then resets_row x_range y_range p x' else 0)
          + (after p).memory.row_done y' x'
  unfolding move
  row_balance outside x' y' at hx hy = elim (pair-cases x y x' y') [
    | inl (e, f) ↦ ground (arith, e, f, v.row_arrivals x' y' hx hy, zero_there e f)
    | inr ne ↦ ground (arith, ne, v.row_arrivals x' y' hx hy)
  ]
    where
      zero_there : x ≡ x' → y ≡ y' → s.memory.row_done y' x' ≡ 0
      zero_there e f =
          row_done-zero x_range y_range center_x center_y s v x' y' hx hy (rw (sym e, sym f) at)
  row_balance wait_col x' y' at hx hy = ground (arith, v.row_arrivals x' y' hx hy)
  row_balance wait_row x' y' at hx hy = ground (arith, v.row_arrivals x' y' hx hy)
  row_balance clear_row x' y' at hx hy = ground (arith, v.row_arrivals x' y' hx hy)
  row_balance (poll_row i) x' y' at hx hy = ground (arith, v.row_arrivals x' y' hx hy)
  row_balance (poll_col i) x' y' at hx hy = ground (arith, v.row_arrivals x' y' hx hy)
  row_balance (reset_col i) x' y' at hx hy = ground (arith, v.row_arrivals x' y' hx hy)
  row_balance (alert_col i) x' y' at hx hy = ground (arith, v.row_arrivals x' y' hx hy)
  row_balance (reset_row i) x' y' at hx hy = elim (pair-cases i y x' y') [
    | inl (e, f) ↦ ground (arith, e, f, r, v.row_arrivals x' y' hx hy, one_there e f)
    | inr ne ↦ ground (arith, ne, v.row_arrivals x' y' hx hy)
  ]
    where
      r : x ≡ center_x
      r = at_row_centre x_range y_range center_x center_y s v x y (reset_row i) at refl

      one_there : i ≡ x' → y ≡ y' → s.memory.row_done y' x' ≡ 1
      one_there e f =
          row_done-one x_range y_range center_x center_y s v x' y' i hx hy (omega arith)
            (rw (sym r, sym f) at)
  row_balance (alert_row i) x' y' at hx hy = ground (arith, v.row_arrivals x' y' hx hy)

  pub row_arrivals-keep :
      (p : Pc) (x' y' : ℕ)
      → s.pc x y ≡ p
      → x' ≤ x_range
      → y' ≤ y_range
      → total arrived (after p) x' y'
        ≡ total (λ q. row_reset q x') (after p) center_x y' + (after p).memory.row_done y' x'
  row_arrivals-keep p x' y' at hx hy =
      total-moved x_range y_range center_x center_y s x y arrived (arrives x_range y_range p) p x'
        y' at (λ e f. arrived_step x_range y_range center_x center_y s x y p)
      ∙ row_balance p x' y' at hx hy
      ∙ ap (λ (n : ℕ). n + (after p).memory.row_done y' x')
          (sym (
            total-moved x_range y_range center_x center_y s x y (λ q. row_reset q x')
              (resets_row x_range y_range p x') p center_x y' at
              (λ e f. row_reset_step x_range y_range center_x center_y s x y p x' hx e)))
