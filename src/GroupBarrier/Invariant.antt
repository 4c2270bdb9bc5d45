-- ===== src/GroupBarrier/Invariant.antt =====
-- What every interleaving keeps: each list entry and each alert is the difference of what was done
-- and what was undone, and what a loop or a wait has seen still stands.
use no_cgbp_rtl.Base.{ℕ, ◌+◌, ◌≤◌, ◌≡◌, ◌≢◌, arith}
use mathlib.Core.Path.{subst}
use native.Mathlib.Decide.{ℕ_discrete}
use no_cgbp_rtl.GroupBarrier.{
  Pc, outside, wait_col, wait_row, clear_row, poll_row, poll_col, reset_col, alert_col, reset_row,
  alert_row, Group,
}
use no_cgbp_rtl.GroupBarrier.Counters.{
  arrived, row_reset, col_arrived, col_taken, row_alerted, col_reset, col_alerted, row_seen,
  col_seen, col_woken, row_woken, row_centre, group_centre,
}
use no_cgbp_rtl.GroupBarrier.Turn.{total, total_le, total_at}

pub arrived_le : (p : Pc) → arrived p ≤ 1
arrived_le outside = ground arith
arrived_le wait_col = ground arith
arrived_le wait_row = ground arith
arrived_le clear_row = ground arith
arrived_le (poll_row i) = ground arith
arrived_le (poll_col i) = ground arith
arrived_le (reset_col i) = ground arith
arrived_le (alert_col i) = ground arith
arrived_le (reset_row i) = ground arith
arrived_le (alert_row i) = ground arith

pub col_arrived_one : (p : Pc) → col_arrived p ≤ 1
col_arrived_one outside = ground arith
col_arrived_one wait_col = ground arith
col_arrived_one wait_row = ground arith
col_arrived_one clear_row = ground arith
col_arrived_one (poll_row i) = ground arith
col_arrived_one (poll_col i) = ground arith
col_arrived_one (reset_col i) = ground arith
col_arrived_one (alert_col i) = ground arith
col_arrived_one (reset_row i) = ground arith
col_arrived_one (alert_row i) = ground arith

pub row_alerted-row_reset : (p : Pc) (x : ℕ) → row_alerted p x ≤ row_reset p x
row_alerted-row_reset outside x = ground arith
row_alerted-row_reset wait_col x = ground arith
row_alerted-row_reset wait_row x = ground arith
row_alerted-row_reset clear_row x = ground arith
row_alerted-row_reset (poll_row i) x = ground arith
row_alerted-row_reset (poll_col i) x = ground arith
row_alerted-row_reset (reset_col i) x = ground arith
row_alerted-row_reset (alert_col i) x = ground arith
row_alerted-row_reset (reset_row i) x = ground arith
row_alerted-row_reset (alert_row i) x = ground arith

pub row_alerted-col_taken : (p : Pc) (x : ℕ) → row_alerted p x ≤ col_taken p
row_alerted-col_taken outside x = ground arith
row_alerted-col_taken wait_col x = ground arith
row_alerted-col_taken wait_row x = ground arith
row_alerted-col_taken clear_row x = ground arith
row_alerted-col_taken (poll_row i) x = ground arith
row_alerted-col_taken (poll_col i) x = ground arith
row_alerted-col_taken (reset_col i) x = ground arith
row_alerted-col_taken (alert_col i) x = ground arith
row_alerted-col_taken (reset_row i) x = ground arith
row_alerted-col_taken (alert_row i) x = ground arith

pub col_alerted-col_reset : (p : Pc) (y z : ℕ) → col_alerted p y ≤ col_reset p z
col_alerted-col_reset outside y z = ground arith
col_alerted-col_reset wait_col y z = ground arith
col_alerted-col_reset wait_row y z = ground arith
col_alerted-col_reset clear_row y z = ground arith
col_alerted-col_reset (poll_row i) y z = ground arith
col_alerted-col_reset (poll_col i) y z = ground arith
col_alerted-col_reset (reset_col i) y z = ground arith
col_alerted-col_reset (alert_col i) y z = ground arith
col_alerted-col_reset (reset_row i) y z = ground arith
col_alerted-col_reset (alert_row i) y z = ground arith

pub col_arrived_le : (p : Pc) (x : ℕ) → col_arrived p ≤ row_reset p x + row_seen p x
col_arrived_le outside x = ground arith
col_arrived_le wait_col x = ground arith
col_arrived_le wait_row x = ground arith
col_arrived_le clear_row x = ground arith
col_arrived_le (poll_row i) x = ground arith
col_arrived_le (poll_col i) x = ground arith
col_arrived_le (reset_col i) x = ground arith
col_arrived_le (alert_col i) x = ground arith
col_arrived_le (reset_row i) x = ground arith
col_arrived_le (alert_row i) x = ground arith

module _ (x_range y_range center_x center_y : ℕ) where
  pub record Inv (s : Group) : Type 0 where
    pub row_arrivals :
        (x y : ℕ)
        → x ≤ x_range
        → y ≤ y_range
        → total arrived s x y ≡ total (λ p. row_reset p x) s center_x y + s.memory.row_done y x
    pub col_arrivals :
        (y : ℕ)
        → y ≤ y_range
        → total col_arrived s center_x y
          ≡ total (λ p. col_reset p y) s center_x center_y + s.memory.col_done y
    pub col_alerts :
        (y : ℕ)
        → y ≤ y_range
        → total (λ p. col_alerted p y) s center_x center_y
          ≡ total col_taken s center_x y + s.memory.col_alert y
    pub row_alerts :
        (x y : ℕ)
        → x ≤ x_range
        → y ≤ y_range
        → total (λ p. row_alerted p x) s center_x y ≡ s.calls x y + s.memory.row_alert x y
    pub row_seen_le :
        (x y : ℕ) → x ≤ x_range → y ≤ y_range → row_seen (s.pc center_x y) x ≤ s.memory.row_done y x
    pub col_seen_le :
        (y : ℕ) → y ≤ y_range → col_seen (s.pc center_x center_y) y ≤ s.memory.col_done y
    pub col_woken_le : (y : ℕ) → y ≤ y_range → col_woken (s.pc center_x y) ≤ s.memory.col_alert y
    pub row_woken_le :
        (x y : ℕ) → x ≤ x_range → y ≤ y_range → row_woken (s.pc x y) ≤ s.memory.row_alert x y
    pub row_done_le : (y x : ℕ) → s.memory.row_done y x ≤ 1
    pub col_done_le : (y : ℕ) → s.memory.col_done y ≤ 1
    pub col_alert_le : (y : ℕ) → s.memory.col_alert y ≤ 1
    pub row_alert_le : (x y : ℕ) → s.memory.row_alert x y ≤ 1
    pub of_row : (x y : ℕ) → x ≢ center_x → row_centre (s.pc x y) ≡ 0
    pub of_group : (x y : ℕ) → y ≢ center_y → group_centre (s.pc x y) ≡ 0

  module _ (s : Group) (v : Inv s) where
    calls_le : (f : Pc → ℕ) (x y : ℕ) → s.calls x y ≤ total f s x y
    unfolding total
    calls_le f x y = omega arith

    calls_suc : (f : Pc → ℕ) (x y : ℕ) → ((p : Pc) → f p ≤ 1) → total f s x y ≤ s.calls x y + 1
    unfolding total
    calls_suc f x y h = omega (arith, h (s.pc x y))

    -- A tile outside has no arrival that stands, and so on: what the next store changes.
    pub row_done-zero :
        (x y : ℕ) → x ≤ x_range → y ≤ y_range → s.pc x y ≡ outside → s.memory.row_done y x ≡ 0
    row_done-zero x y hx hy at = omega (
      arith,
      total_at arrived s x y outside at,
      v.row_arrivals x y hx hy,
      v.row_alerts x y hx hy,
      total_le (λ p. row_alerted p x) (λ p. row_reset p x) s center_x y
          (λ p. row_alerted-row_reset p x),
    )

    pub col_done-zero :
        (y i : ℕ)
        → center_x ≤ x_range
        → y ≤ y_range
        → s.pc center_x y ≡ poll_row i
        → s.memory.col_done y ≡ 0
    col_done-zero y i hx hy at = omega (
      arith,
      total_at col_arrived s center_x y (poll_row i) at,
      v.col_arrivals y hy,
      v.col_alerts y hy,
      calls_le col_taken center_x y,
      total_le (λ p. col_alerted p y) (λ p. col_reset p y) s center_x center_y
          (λ p. col_alerted-col_reset p y y),
    )

    pub col_alert-zero :
        (y i : ℕ)
        → y ≤ y_range
        → i ≤ y
        → s.pc center_x center_y ≡ alert_col i
        → s.memory.col_alert y ≡ 0
    col_alert-zero y i hy le at = ground (
      arith,
      total_at (λ p. col_alerted p y) s center_x center_y (alert_col i) at,
      total_at (λ p. col_reset p y) s center_x center_y (alert_col i) at,
      v.col_arrivals y hy,
      v.col_alerts y hy,
      calls_le col_taken center_x y,
      calls_suc col_arrived center_x y col_arrived_one,
    )

    pub row_alert-zero :
        (x y i : ℕ)
        → x ≤ x_range
        → y ≤ y_range
        → i ≤ x
        → s.pc center_x y ≡ alert_row i
        → s.memory.row_alert x y ≡ 0
    row_alert-zero x y i hx hy le at = ground (
      arith,
      total_at (λ p. row_alerted p x) s center_x y (alert_row i) at,
      total_at (λ p. row_reset p x) s center_x y (alert_row i) at,
      v.row_arrivals x y hx hy,
      v.row_alerts x y hx hy,
      calls_suc arrived x y arrived_le,
    )

    -- What a centre tile undoes stands at 1.
    pub row_done-one :
        (x y i : ℕ)
        → x ≤ x_range
        → y ≤ y_range
        → i ≤ x
        → s.pc center_x y ≡ reset_row i
        → s.memory.row_done y x ≡ 1
    row_done-one x y i hx hy le at = ground (
      arith,
      subst (λ (p : Pc). row_seen p x ≤ s.memory.row_done y x) at (v.row_seen_le x y hx hy),
      v.row_done_le y x,
    )

    pub col_done-one :
        (y i : ℕ)
        → y ≤ y_range
        → i ≤ y
        → s.pc center_x center_y ≡ reset_col i
        → s.memory.col_done y ≡ 1
    col_done-one y i hy le at = ground (
      arith,
      subst (λ (p : Pc). col_seen p y ≤ s.memory.col_done y) at (v.col_seen_le y hy),
      v.col_done_le y,
    )

    pub col_alert-one :
        (y i : ℕ) → y ≤ y_range → s.pc center_x y ≡ reset_row i → s.memory.col_alert y ≡ 1
    col_alert-one y i hy at = ground (
      arith,
      subst (λ (p : Pc). col_woken p ≤ s.memory.col_alert y) at (v.col_woken_le y hy),
      v.col_alert_le y,
    )

    pub row_alert-one :
        (x y : ℕ) → x ≤ x_range → y ≤ y_range → s.pc x y ≡ clear_row → s.memory.row_alert x y ≡ 1
    row_alert-one x y hx hy at = ground (
      arith,
      subst (λ (p : Pc). row_woken p ≤ s.memory.row_alert x y) at (v.row_woken_le x y hx hy),
      v.row_alert_le x y,
    )

    -- Who stands at a place of a centre tile is one.
    pub at_row_centre : (x y : ℕ) (p : Pc) → s.pc x y ≡ p → row_centre p ≡ 1 → x ≡ center_x
    at_row_centre x y p at c = elim (ℕ_discrete x center_x) [
      | yes e ↦ e
      | no ne ↦ absurd (omega (arith, subst (λ (q : Pc). row_centre q ≡ 0) at (v.of_row x y ne)))
    ]

    pub at_group_centre : (x y : ℕ) (p : Pc) → s.pc x y ≡ p → group_centre p ≡ 1 → y ≡ center_y
    at_group_centre x y p at c = elim (ℕ_discrete y center_y) [
      | yes e ↦ e
      | no ne ↦
          absurd (omega (arith, subst (λ (q : Pc). group_centre q ≡ 0) at (v.of_group x y ne)))
    ]
