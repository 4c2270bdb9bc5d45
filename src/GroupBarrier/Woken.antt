-- ===== src/GroupBarrier/Woken.antt =====
-- The alerts that a wait has seen stand after a step.
use no_cgbp_rtl.Base.{ℕ, ◌≤◌, ◌≡◌, ◌≢◌, ◌⊎◌, inl, inr, refl, sym, ap, ◌∙◌, arith}
use mathlib.Core.Path.{ap₂, subst}
use no_cgbp_rtl.Base.Loops.{put2, put2_self, put2_ne, pair-cases}
use no_cgbp_rtl.GroupBarrier.{
  Pc, outside, wait_col, wait_row, clear_row, poll_row, poll_col, reset_col, alert_col, reset_row,
  alert_row, move, Group,
}
use no_cgbp_rtl.GroupBarrier.Counters.{col_woken, row_woken}
use no_cgbp_rtl.GroupBarrier.Turn.{next, moved}
use no_cgbp_rtl.GroupBarrier.Invariant.{Inv, at_row_centre}

module _ (x_range y_range center_x center_y : ℕ) (s : Group)
    (v : Inv x_range y_range center_x center_y s) (x y : ℕ) (x_le : x ≤ x_range)
    (y_le : y ≤ y_range) (cx_le : center_x ≤ x_range) (cy_le : center_y ≤ y_range) where
  abbrev after : Pc → Group
  after = moved x_range y_range center_x center_y s x y

  col_woken_one : (p : Pc) → col_woken p ≤ 1
  col_woken_one outside = ground arith
  col_woken_one wait_col = ground arith
  col_woken_one wait_row = ground arith
  col_woken_one clear_row = ground arith
  col_woken_one (poll_row i) = ground arith
  col_woken_one (poll_col i) = ground arith
  col_woken_one (reset_col i) = ground arith
  col_woken_one (alert_col i) = ground arith
  col_woken_one (reset_row i) = ground arith
  col_woken_one (alert_row i) = ground arith

  row_woken_one : (p : Pc) → row_woken p ≤ 1
  row_woken_one outside = ground arith
  row_woken_one wait_col = ground arith
  row_woken_one wait_row = ground arith
  row_woken_one clear_row = ground arith
  row_woken_one (poll_row i) = ground arith
  row_woken_one (poll_col i) = ground arith
  row_woken_one (reset_col i) = ground arith
  row_woken_one (alert_col i) = ground arith
  row_woken_one (reset_row i) = ground arith
  row_woken_one (alert_row i) = ground arith

  col_woken_self :
      (p : Pc) (y' : ℕ)
      → s.pc x y ≡ p
      → y' ≤ y_range
      → x ≡ center_x
      → y ≡ y'
      → col_woken p ≤ s.memory.col_alert y'
      → col_woken (next x_range y_range center_x center_y s x y p).1 ≤ (after p).memory.col_alert y'
  unfolding move
  col_woken_self outside y' at hy e f old = ground arith
  col_woken_self wait_col y' at hy e f old = ground (arith, old, ap s.memory.col_alert f)
  col_woken_self wait_row y' at hy e f old = ground arith
  col_woken_self clear_row y' at hy e f old = ground arith
  col_woken_self (poll_row i) y' at hy e f old = ground arith
  col_woken_self (poll_col i) y' at hy e f old = ground arith
  col_woken_self (reset_col i) y' at hy e f old = ground arith
  col_woken_self (alert_col i) y' at hy e f old = ground arith
  col_woken_self (reset_row i) y' at hy e f old = ground arith
  col_woken_self (alert_row i) y' at hy e f old = ground arith

  col_woken_other :
      (p : Pc) (y' : ℕ)
      → s.pc x y ≡ p
      → y' ≤ y_range
      → (x ≢ center_x) ⊎ (y ≢ y')
      → col_woken (s.pc center_x y') ≤ s.memory.col_alert y'
      → col_woken (s.pc center_x y') ≤ (after p).memory.col_alert y'
  unfolding move
  col_woken_other outside y' at hy ne old = ground (arith, col_woken_one (s.pc center_x y'))
  col_woken_other wait_col y' at hy ne old = ground (arith, col_woken_one (s.pc center_x y'))
  col_woken_other wait_row y' at hy ne old = ground (arith, col_woken_one (s.pc center_x y'))
  col_woken_other clear_row y' at hy ne old = ground (arith, col_woken_one (s.pc center_x y'))
  col_woken_other (poll_row i) y' at hy ne old = ground (arith, col_woken_one (s.pc center_x y'))
  col_woken_other (poll_col i) y' at hy ne old = ground (arith, col_woken_one (s.pc center_x y'))
  col_woken_other (reset_col i) y' at hy ne old = ground (arith, col_woken_one (s.pc center_x y'))
  col_woken_other (alert_col i) y' at hy ne old = ground (arith, col_woken_one (s.pc center_x y'))
  col_woken_other (reset_row i) y' at hy ne old =
      ground (arith, col_woken_one (s.pc center_x y'), r)
    where
      r : x ≡ center_x
      r = at_row_centre x_range y_range center_x center_y s v x y (reset_row i) at refl
  col_woken_other (alert_row i) y' at hy ne old = ground (arith, col_woken_one (s.pc center_x y'))

  pub col_woken-keep :
      (p : Pc) (y' : ℕ)
      → s.pc x y ≡ p
      → y' ≤ y_range
      → col_woken ((after p).pc center_x y') ≤ (after p).memory.col_alert y'
  col_woken-keep p y' at hy = elim (pair-cases x y center_x y') [
    | inl (e, f) ↦
        subst (λ (q : Pc). col_woken q ≤ (after p).memory.col_alert y')
          (sym (
            ap₂ (put2 s.pc x y (next x_range y_range center_x center_y s x y p).1) (sym e) (sym f)
            ∙ put2_self s.pc x y (next x_range y_range center_x center_y s x y p).1))
          (col_woken_self p y' at hy e f (
            subst (λ (q : Pc). col_woken q ≤ s.memory.col_alert y') (ap₂ s.pc (sym e) (sym f) ∙ at)
              (v.col_woken_le y' hy)))
    | inr ne ↦
        subst (λ (q : Pc). col_woken q ≤ (after p).memory.col_alert y')
          (sym (put2_ne s.pc x y (next x_range y_range center_x center_y s x y p).1 center_x y' ne))
          (col_woken_other p y' at hy ne (v.col_woken_le y' hy))
  ]

  row_woken_self :
      (p : Pc) (x' y' : ℕ)
      → s.pc x y ≡ p
      → x' ≤ x_range
      → y' ≤ y_range
      → x ≡ x'
      → y ≡ y'
      → row_woken p ≤ s.memory.row_alert x' y'
      → row_woken (next x_range y_range center_x center_y s x y p).1
        ≤ (after p).memory.row_alert x' y'
  unfolding move
  row_woken_self outside x' y' at hx hy e f old = ground arith
  row_woken_self wait_col x' y' at hx hy e f old = ground arith
  row_woken_self wait_row x' y' at hx hy e f old = ground (arith, old, ap₂ s.memory.row_alert e f)
  row_woken_self clear_row x' y' at hx hy e f old = ground arith
  row_woken_self (poll_row i) x' y' at hx hy e f old = ground arith
  row_woken_self (poll_col i) x' y' at hx hy e f old = ground arith
  row_woken_self (reset_col i) x' y' at hx hy e f old = ground arith
  row_woken_self (alert_col i) x' y' at hx hy e f old = ground arith
  row_woken_self (reset_row i) x' y' at hx hy e f old = ground arith
  row_woken_self (alert_row i) x' y' at hx hy e f old = ground arith

  row_woken_other :
      (p : Pc) (x' y' : ℕ)
      → s.pc x y ≡ p
      → x' ≤ x_range
      → y' ≤ y_range
      → (x ≢ x') ⊎ (y ≢ y')
      → row_woken (s.pc x' y') ≤ s.memory.row_alert x' y'
      → row_woken (s.pc x' y') ≤ (after p).memory.row_alert x' y'
  unfolding move
  row_woken_other outside x' y' at hx hy ne old = ground (arith, row_woken_one (s.pc x' y'))
  row_woken_other wait_col x' y' at hx hy ne old = ground (arith, row_woken_one (s.pc x' y'))
  row_woken_other wait_row x' y' at hx hy ne old = ground (arith, row_woken_one (s.pc x' y'))
  row_woken_other clear_row x' y' at hx hy ne old = ground (arith, row_woken_one (s.pc x' y'))
  row_woken_other (poll_row i) x' y' at hx hy ne old = ground (arith, row_woken_one (s.pc x' y'))
  row_woken_other (poll_col i) x' y' at hx hy ne old = ground (arith, row_woken_one (s.pc x' y'))
  row_woken_other (reset_col i) x' y' at hx hy ne old = ground (arith, row_woken_one (s.pc x' y'))
  row_woken_other (alert_col i) x' y' at hx hy ne old = ground (arith, row_woken_one (s.pc x' y'))
  row_woken_other (reset_row i) x' y' at hx hy ne old = ground (arith, row_woken_one (s.pc x' y'))
  row_woken_other (alert_row i) x' y' at hx hy ne old = ground (arith, row_woken_one (s.pc x' y'))

  pub row_woken-keep :
      (p : Pc) (x' y' : ℕ)
      → s.pc x y ≡ p
      → x' ≤ x_range
      → y' ≤ y_range
      → row_woken ((after p).pc x' y') ≤ (after p).memory.row_alert x' y'
  row_woken-keep p x' y' at hx hy = elim (pair-cases x y x' y') [
    | inl (e, f) ↦
        subst (λ (q : Pc). row_woken q ≤ (after p).memory.row_alert x' y')
          (sym (
            ap₂ (put2 s.pc x y (next x_range y_range center_x center_y s x y p).1) (sym e) (sym f)
            ∙ put2_self s.pc x y (next x_range y_range center_x center_y s x y p).1))
          (row_woken_self p x' y' at hx hy e f (
            subst (λ (q : Pc). row_woken q ≤ s.memory.row_alert x' y')
              (ap₂ s.pc (sym e) (sym f) ∙ at) (v.row_woken_le x' y' hx hy)))
    | inr ne ↦
        subst (λ (q : Pc). row_woken q ≤ (after p).memory.row_alert x' y')
          (sym (put2_ne s.pc x y (next x_range y_range center_x center_y s x y p).1 x' y' ne))
          (row_woken_other p x' y' at hx hy ne (v.row_woken_le x' y' hx hy))
  ]
