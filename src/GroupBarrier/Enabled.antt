-- ===== src/GroupBarrier/Enabled.antt =====
-- In every state that the invariant allows, some tile is ready.
use no_cgbp_rtl.Base.{ℕ, zero, suc, ◌≤◌, ◌≡◌, ◌≢◌, ◌⊎◌, inl, inr, refl, sym, ap, ◌∙◌, arith}
use mathlib.Core.Path.{subst}
use native.Mathlib.Decide.{ℕ_discrete}
use no_cgbp_rtl.GroupBarrier.{
  Pc, outside, wait_col, wait_row, clear_row, poll_row, poll_col, reset_col, alert_col, reset_row,
  alert_row, Group,
}
use no_cgbp_rtl.GroupBarrier.Counters.{
  arrived, row_reset, col_arrived, col_taken, row_alerted, col_reset, col_alerted,
}
use no_cgbp_rtl.GroupBarrier.Turn.{total, total_at}
use no_cgbp_rtl.GroupBarrier.Invariant.{Inv, at_row_centre, at_group_centre}
use no_cgbp_rtl.GroupBarrier.Progress.{Ready}

-- Every entry up to a bound is set, or one is 0.
first_zero : (n : ℕ) (f : ℕ → ℕ) → ((i : ℕ) → i ≤ n → f i ≢ 0) ⊎ ((i : ℕ) × (i ≤ n) × (f i ≡ 0))
first_zero zero f = elim (ℕ_discrete (f 0) 0) [
  | yes e ↦ inr (0, omega arith, e)
  | no ne ↦ inl (λ i le e. ne (ap f (omega arith) ∙ e))
]
first_zero (suc n) f = elim (ℕ_discrete (f (suc n)) 0) [
  | yes e ↦ inr (suc n, omega arith, e)
  | no ne ↦ elim (first_zero n f) [
    | inr (i, le, e) ↦ inr (i, omega arith, e)
    | inl all ↦ inl (λ i le. elim (ℕ_discrete i (suc n)) [
      | yes same ↦ λ z. ne (ap f (sym same) ∙ z)
      | no differs ↦ all i (omega arith)
    ])
  ]
]

module _ (x_range y_range center_x center_y : ℕ) (s : Group)
    (inv : Inv x_range y_range center_x center_y s) (cx_le : center_x ≤ x_range)
    (cy_le : center_y ≤ y_range) where
  abbrev pub Enabled : Type 0
  Enabled =
      (x y : ℕ) × (x ≤ x_range) × (y ≤ y_range) × Ready x_range y_range x y s.memory (s.pc x y)

  found :
      (x y : ℕ) (p : Pc)
      → x ≤ x_range
      → y ≤ y_range
      → s.pc x y ≡ p
      → Ready x_range y_range x y s.memory p
      → Enabled
  found x y p hx hy at r =
      (x, y, hx, hy, subst (λ (q : Pc). Ready x_range y_range x y s.memory q) (sym at) r)

  -- A tile whose arrival is missing in its row's list, the row's centre having stored none of its own
  waited_for :
      (x y : ℕ) (p : Pc)
      → x ≤ x_range
      → y ≤ y_range
      → s.pc x y ≡ p
      → s.memory.row_done y x ≡ 0
      → total (λ q. row_reset q x) s center_x y ≡ s.calls center_x y
      → total (λ q. row_alerted q x) s center_x y ≡ s.calls center_x y
      → arrived (s.pc center_x y) ≡ 1
      → Enabled
  waited_for x y outside hx hy at none reset alerted there = found x y outside hx hy at tt
  waited_for x y wait_col hx hy at none reset alerted there =
      let same = at_row_centre x_range y_range center_x center_y s inv x y wait_col at refl in
      absurd (
        omega (
          arith,
          inv.row_arrivals x y hx hy,
          total_at arrived s x y wait_col at,
          ap (λ (n : ℕ). s.calls n y) same,
        ))
  waited_for x y wait_row hx hy at none reset alerted there = found x y wait_row hx hy at (
      omega (
        arith,
        inv.row_arrivals x y hx hy,
        inv.row_alerts x y hx hy,
        total_at arrived s x y wait_row at,
      ))
  waited_for x y clear_row hx hy at none reset alerted there = found x y clear_row hx hy at tt
  waited_for x y (poll_row i) hx hy at none reset alerted there =
      let same = at_row_centre x_range y_range center_x center_y s inv x y (poll_row i) at refl in
      absurd (
        omega (
          arith,
          inv.row_arrivals x y hx hy,
          total_at arrived s x y (poll_row i) at,
          ap (λ (n : ℕ). s.calls n y) same,
        ))
  waited_for x y (poll_col i) hx hy at none reset alerted there =
      let same = at_row_centre x_range y_range center_x center_y s inv x y (poll_col i) at refl in
      absurd (
        omega (
          arith,
          inv.row_arrivals x y hx hy,
          total_at arrived s x y (poll_col i) at,
          ap (λ (n : ℕ). s.calls n y) same,
        ))
  waited_for x y (reset_col i) hx hy at none reset alerted there =
      found x y (reset_col i) hx hy at tt
  waited_for x y (alert_col i) hx hy at none reset alerted there =
      found x y (alert_col i) hx hy at tt
  waited_for x y (reset_row i) hx hy at none reset alerted there =
      found x y (reset_row i) hx hy at tt
  waited_for x y (alert_row i) hx hy at none reset alerted there =
      found x y (alert_row i) hx hy at tt

  -- A row's centre that has not reported to the column
  row-Enabled : (y i : ℕ) → y ≤ y_range → s.pc center_x y ≡ poll_row i → Enabled
  row-Enabled y i hy at = elim (first_zero x_range (λ x. s.memory.row_done y x)) [
    | inl all ↦ found center_x y (poll_row i) cx_le hy at all
    | inr (x, hx, none) ↦
        waited_for x y (s.pc x y) hx hy refl none
          (total_at (λ q. row_reset q x) s center_x y (poll_row i) at ∙ omega arith)
          (total_at (λ q. row_alerted q x) s center_x y (poll_row i) at ∙ omega arith)
          (ap (λ (q : Pc). arrived q) at)
  ]

  -- A row's centre whose arrival is missing in the column's list
  reports :
      (y i : ℕ) (p : Pc)
      → y ≤ y_range
      → s.pc center_x center_y ≡ poll_col i
      → s.pc center_x y ≡ p
      → s.memory.col_done y ≡ 0
      → Enabled
  reports y i outside hy centre at none = found center_x y outside cx_le hy at tt
  reports y i wait_col hy centre at none = found center_x y wait_col cx_le hy at (
      omega (
        arith,
        inv.col_arrivals y hy,
        inv.col_alerts y hy,
        total_at col_arrived s center_x y wait_col at,
        total_at col_taken s center_x y wait_col at,
        total_at (λ q. col_reset q y) s center_x center_y (poll_col i) centre,
        total_at (λ q. col_alerted q y) s center_x center_y (poll_col i) centre,
      ))
  reports y i wait_row hy centre at none = found center_x y wait_row cx_le hy at (
      omega (
        arith,
        inv.row_alerts center_x y cx_le hy,
        inv.row_alert_le center_x y,
        total_at (λ q. row_alerted q center_x) s center_x y wait_row at,
      ))
  reports y i clear_row hy centre at none = found center_x y clear_row cx_le hy at tt
  reports y i (poll_row j) hy centre at none = row-Enabled y j hy at
  reports y i (poll_col j) hy centre at none =
      let g =
        at_group_centre x_range y_range center_x center_y s inv center_x y (poll_col j) at refl in
      absurd (
        omega (
          arith,
          inv.col_arrivals y hy,
          total_at col_arrived s center_x y (poll_col j) at,
          total_at (λ q. col_reset q y) s center_x center_y (poll_col i) centre,
          ap (λ (n : ℕ). s.calls center_x n) g,
        ))
  reports y i (reset_col j) hy centre at none = found center_x y (reset_col j) cx_le hy at tt
  reports y i (alert_col j) hy centre at none = found center_x y (alert_col j) cx_le hy at tt
  reports y i (reset_row j) hy centre at none = found center_x y (reset_row j) cx_le hy at tt
  reports y i (alert_row j) hy centre at none = found center_x y (alert_row j) cx_le hy at tt

  -- What the group's centre waits for is on its way.
  enabled_at : (p : Pc) → s.pc center_x center_y ≡ p → Enabled
  enabled_at outside at = found center_x center_y outside cx_le cy_le at tt
  enabled_at wait_col at = found center_x center_y wait_col cx_le cy_le at (
      omega (
        arith,
        inv.col_alerts center_y cy_le,
        inv.col_alert_le center_y,
        total_at (λ q. col_alerted q center_y) s center_x center_y wait_col at,
        total_at col_taken s center_x center_y wait_col at,
      ))
  enabled_at wait_row at = found center_x center_y wait_row cx_le cy_le at (
      omega (
        arith,
        inv.row_alerts center_x center_y cx_le cy_le,
        inv.row_alert_le center_x center_y,
        total_at (λ q. row_alerted q center_x) s center_x center_y wait_row at,
      ))
  enabled_at clear_row at = found center_x center_y clear_row cx_le cy_le at tt
  enabled_at (poll_row i) at = row-Enabled center_y i cy_le at
  enabled_at (poll_col i) at = elim (first_zero y_range s.memory.col_done) [
    | inl all ↦ found center_x center_y (poll_col i) cx_le cy_le at all
    | inr (y, hy, none) ↦ reports y i (s.pc center_x y) hy at refl none
  ]
  enabled_at (reset_col i) at = found center_x center_y (reset_col i) cx_le cy_le at tt
  enabled_at (alert_col i) at = found center_x center_y (alert_col i) cx_le cy_le at tt
  enabled_at (reset_row i) at = found center_x center_y (reset_row i) cx_le cy_le at tt
  enabled_at (alert_row i) at = found center_x center_y (alert_row i) cx_le cy_le at tt

  pub enabled : Enabled
  enabled = enabled_at (s.pc center_x center_y) refl
