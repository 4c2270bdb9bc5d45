-- ===== src/GroupBarrier/Seen.antt =====
-- What the loops have seen stands after a step.
use no_cgbp_rtl.Base.{ℕ, ◌≤◌, ◌≡◌, ◌≢◌, ◌⊎◌, inl, inr, refl, sym, ap, ◌∙◌, arith}
use mathlib.Core.Path.{ap₂, subst}
use native.Mathlib.Decide.{ℕ_discrete}
use no_cgbp_rtl.Base.Loops.{put2, put2_self, put2_ne, pair-cases}
use no_cgbp_rtl.GroupBarrier.{
  Pc, outside, wait_col, wait_row, clear_row, poll_row, poll_col, reset_col, alert_col, reset_row,
  alert_row, move, Group,
}
use no_cgbp_rtl.GroupBarrier.Counters.{row_seen, col_seen}
use no_cgbp_rtl.GroupBarrier.Turn.{next, moved}
use no_cgbp_rtl.GroupBarrier.Invariant.{Inv, at_row_centre, at_group_centre}

module _ (x_range y_range center_x center_y : ℕ) (s : Group)
    (v : Inv x_range y_range center_x center_y s) (x y : ℕ) (x_le : x ≤ x_range)
    (y_le : y ≤ y_range) (cx_le : center_x ≤ x_range) (cy_le : center_y ≤ y_range) where
  abbrev after : Pc → Group
  after = moved x_range y_range center_x center_y s x y

  row_seen_one : (p : Pc) (z : ℕ) → row_seen p z ≤ 1
  row_seen_one outside z = ground arith
  row_seen_one wait_col z = ground arith
  row_seen_one wait_row z = ground arith
  row_seen_one clear_row z = ground arith
  row_seen_one (poll_row i) z = ground arith
  row_seen_one (poll_col i) z = ground arith
  row_seen_one (reset_col i) z = ground arith
  row_seen_one (alert_col i) z = ground arith
  row_seen_one (reset_row i) z = ground arith
  row_seen_one (alert_row i) z = ground arith

  col_seen_one : (p : Pc) (z : ℕ) → col_seen p z ≤ 1
  col_seen_one outside z = ground arith
  col_seen_one wait_col z = ground arith
  col_seen_one wait_row z = ground arith
  col_seen_one clear_row z = ground arith
  col_seen_one (poll_row i) z = ground arith
  col_seen_one (poll_col i) z = ground arith
  col_seen_one (reset_col i) z = ground arith
  col_seen_one (alert_col i) z = ground arith
  col_seen_one (reset_row i) z = ground arith
  col_seen_one (alert_row i) z = ground arith

  row_seen_self :
      (p : Pc) (x' y' : ℕ)
      → s.pc x y ≡ p
      → x' ≤ x_range
      → y' ≤ y_range
      → x ≡ center_x
      → y ≡ y'
      → row_seen p x' ≤ s.memory.row_done y' x'
      → row_seen (next x_range y_range center_x center_y s x y p).1 x'
        ≤ (after p).memory.row_done y' x'
  unfolding move
  row_seen_self outside x' y' at hx hy e f old = ground arith
  row_seen_self wait_col x' y' at hx hy e f old = ground arith
  row_seen_self wait_row x' y' at hx hy e f old = ground arith
  row_seen_self clear_row x' y' at hx hy e f old = ground arith
  row_seen_self (poll_row i) x' y' at hx hy e f old = elim (ℕ_discrete i x') [
    | yes g ↦ ground (arith, old, g, ap₂ s.memory.row_done f g)
    | no ne ↦ ground (arith, old, ne)
  ]
  row_seen_self (poll_col i) x' y' at hx hy e f old = ground arith
  row_seen_self (reset_col i) x' y' at hx hy e f old = ground arith
  row_seen_self (alert_col i) x' y' at hx hy e f old = ground arith
  row_seen_self (reset_row i) x' y' at hx hy e f old = ground arith
  row_seen_self (alert_row i) x' y' at hx hy e f old = ground arith

  row_seen_other :
      (p : Pc) (x' y' : ℕ)
      → s.pc x y ≡ p
      → x' ≤ x_range
      → y' ≤ y_range
      → (x ≢ center_x) ⊎ (y ≢ y')
      → row_seen (s.pc center_x y') x' ≤ s.memory.row_done y' x'
      → row_seen (s.pc center_x y') x' ≤ (after p).memory.row_done y' x'
  unfolding move
  row_seen_other outside x' y' at hx hy ne old = ground (arith, row_seen_one (s.pc center_x y') x')
  row_seen_other wait_col x' y' at hx hy ne old = ground (arith, row_seen_one (s.pc center_x y') x')
  row_seen_other wait_row x' y' at hx hy ne old = ground (arith, row_seen_one (s.pc center_x y') x')
  row_seen_other clear_row x' y' at hx hy ne old =
      ground (arith, row_seen_one (s.pc center_x y') x')
  row_seen_other (poll_row i) x' y' at hx hy ne old =
      ground (arith, row_seen_one (s.pc center_x y') x')
  row_seen_other (poll_col i) x' y' at hx hy ne old =
      ground (arith, row_seen_one (s.pc center_x y') x')
  row_seen_other (reset_col i) x' y' at hx hy ne old =
      ground (arith, row_seen_one (s.pc center_x y') x')
  row_seen_other (alert_col i) x' y' at hx hy ne old =
      ground (arith, row_seen_one (s.pc center_x y') x')
  row_seen_other (reset_row i) x' y' at hx hy ne old =
      ground (arith, row_seen_one (s.pc center_x y') x', r)
    where
      r : x ≡ center_x
      r = at_row_centre x_range y_range center_x center_y s v x y (reset_row i) at refl
  row_seen_other (alert_row i) x' y' at hx hy ne old =
      ground (arith, row_seen_one (s.pc center_x y') x')

  pub row_seen-keep :
      (p : Pc) (x' y' : ℕ)
      → s.pc x y ≡ p
      → x' ≤ x_range
      → y' ≤ y_range
      → row_seen ((after p).pc center_x y') x' ≤ (after p).memory.row_done y' x'
  row_seen-keep p x' y' at hx hy = elim (pair-cases x y center_x y') [
    | inl (e, f) ↦
        subst (λ (q : Pc). row_seen q x' ≤ (after p).memory.row_done y' x')
          (sym (
            ap₂ (put2 s.pc x y (next x_range y_range center_x center_y s x y p).1) (sym e) (sym f)
            ∙ put2_self s.pc x y (next x_range y_range center_x center_y s x y p).1))
          (row_seen_self p x' y' at hx hy e f (
            subst (λ (q : Pc). row_seen q x' ≤ s.memory.row_done y' x')
              (ap₂ s.pc (sym e) (sym f) ∙ at) (v.row_seen_le x' y' hx hy)))
    | inr ne ↦
        subst (λ (q : Pc). row_seen q x' ≤ (after p).memory.row_done y' x')
          (sym (put2_ne s.pc x y (next x_range y_range center_x center_y s x y p).1 center_x y' ne))
          (row_seen_other p x' y' at hx hy ne (v.row_seen_le x' y' hx hy))
  ]

  col_seen_self :
      (p : Pc) (y' : ℕ)
      → s.pc x y ≡ p
      → y' ≤ y_range
      → x ≡ center_x
      → y ≡ center_y
      → col_seen p y' ≤ s.memory.col_done y'
      → col_seen (next x_range y_range center_x center_y s x y p).1 y'
        ≤ (after p).memory.col_done y'
  unfolding move
  col_seen_self outside y' at hy e f old = ground arith
  col_seen_self wait_col y' at hy e f old = ground arith
  col_seen_self wait_row y' at hy e f old = ground arith
  col_seen_self clear_row y' at hy e f old = ground arith
  col_seen_self (poll_row i) y' at hy e f old = ground arith
  col_seen_self (poll_col i) y' at hy e f old = elim (ℕ_discrete i y') [
    | yes g ↦ ground (arith, old, g, ap s.memory.col_done g)
    | no ne ↦ ground (arith, old, ne)
  ]
  col_seen_self (reset_col i) y' at hy e f old = ground arith
  col_seen_self (alert_col i) y' at hy e f old = ground arith
  col_seen_self (reset_row i) y' at hy e f old = ground arith
  col_seen_self (alert_row i) y' at hy e f old = ground arith

  col_seen_other :
      (p : Pc) (y' : ℕ)
      → s.pc x y ≡ p
      → y' ≤ y_range
      → (x ≢ center_x) ⊎ (y ≢ center_y)
      → col_seen (s.pc center_x center_y) y' ≤ s.memory.col_done y'
      → col_seen (s.pc center_x center_y) y' ≤ (after p).memory.col_done y'
  unfolding move
  col_seen_other outside y' at hy ne old = ground (arith, col_seen_one (s.pc center_x center_y) y')
  col_seen_other wait_col y' at hy ne old = ground (arith, col_seen_one (s.pc center_x center_y) y')
  col_seen_other wait_row y' at hy ne old = ground (arith, col_seen_one (s.pc center_x center_y) y')
  col_seen_other clear_row y' at hy ne old =
      ground (arith, col_seen_one (s.pc center_x center_y) y')
  col_seen_other (poll_row i) y' at hy ne old =
      ground (arith, col_seen_one (s.pc center_x center_y) y')
  col_seen_other (poll_col i) y' at hy ne old =
      ground (arith, col_seen_one (s.pc center_x center_y) y')
  col_seen_other (reset_col i) y' at hy ne old =
      ground (arith, col_seen_one (s.pc center_x center_y) y', r, g)
    where
      r : x ≡ center_x
      r = at_row_centre x_range y_range center_x center_y s v x y (reset_col i) at refl

      g : y ≡ center_y
      g = at_group_centre x_range y_range center_x center_y s v x y (reset_col i) at refl
  col_seen_other (alert_col i) y' at hy ne old =
      ground (arith, col_seen_one (s.pc center_x center_y) y')
  col_seen_other (reset_row i) y' at hy ne old =
      ground (arith, col_seen_one (s.pc center_x center_y) y')
  col_seen_other (alert_row i) y' at hy ne old =
      ground (arith, col_seen_one (s.pc center_x center_y) y')

  pub col_seen-keep :
      (p : Pc) (y' : ℕ)
      → s.pc x y ≡ p
      → y' ≤ y_range
      → col_seen ((after p).pc center_x center_y) y' ≤ (after p).memory.col_done y'
  col_seen-keep p y' at hy = elim (pair-cases x y center_x center_y) [
    | inl (e, f) ↦
        subst (λ (q : Pc). col_seen q y' ≤ (after p).memory.col_done y')
          (sym (
            ap₂ (put2 s.pc x y (next x_range y_range center_x center_y s x y p).1) (sym e) (sym f)
            ∙ put2_self s.pc x y (next x_range y_range center_x center_y s x y p).1))
          (col_seen_self p y' at hy e f (
            subst (λ (q : Pc). col_seen q y' ≤ s.memory.col_done y') (ap₂ s.pc (sym e) (sym f) ∙ at)
              (v.col_seen_le y' hy)))
    | inr ne ↦
        subst (λ (q : Pc). col_seen q y' ≤ (after p).memory.col_done y')
          (sym (
            put2_ne s.pc x y (next x_range y_range center_x center_y s x y p).1 center_x center_y
              ne))
          (col_seen_other p y' at hy ne (v.col_seen_le y' hy))
  ]
