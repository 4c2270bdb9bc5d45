-- ===== src/GroupBarrier/Counters.antt =====
-- What a tile has done in its current call, as numbers 0 and 1, by where it stands.
use no_cgbp_rtl.Base.{ℕ, ltb, leb, ◌==◌, if◌then◌else◌}
use no_cgbp_rtl.GroupBarrier.{
  Pc, outside, wait_col, wait_row, clear_row, poll_row, poll_col, reset_col, alert_col, reset_row,
  alert_row,
}

-- It has stored its arrival in the row's list.
abbrev pub arrived : Pc → ℕ
arrived outside = 0
arrived (poll_row i) = 1
arrived (poll_col i) = 1
arrived (reset_col i) = 1
arrived (alert_col i) = 1
arrived wait_col = 1
arrived (reset_row i) = 1
arrived (alert_row i) = 1
arrived wait_row = 1
arrived clear_row = 1

-- A row's centre tile has cleared the arrival of tile `x`,
abbrev pub row_reset : Pc → ℕ → ℕ
row_reset outside x = 0
row_reset (poll_row i) x = 0
row_reset (poll_col i) x = 0
row_reset (reset_col i) x = 0
row_reset (alert_col i) x = 0
row_reset wait_col x = 0
row_reset (reset_row i) x = if ltb x i then 1 else 0
row_reset (alert_row i) x = 1
row_reset wait_row x = 1
row_reset clear_row x = 1

-- has stored its row's arrival in the column's list,
abbrev pub col_arrived : Pc → ℕ
col_arrived outside = 0
col_arrived (poll_row i) = 0
col_arrived (poll_col i) = 1
col_arrived (reset_col i) = 1
col_arrived (alert_col i) = 1
col_arrived wait_col = 1
col_arrived (reset_row i) = 1
col_arrived (alert_row i) = 1
col_arrived wait_row = 1
col_arrived clear_row = 1

-- has taken the column's alert, and cleared it,
abbrev pub col_taken : Pc → ℕ
col_taken outside = 0
col_taken (poll_row i) = 0
col_taken (poll_col i) = 0
col_taken (reset_col i) = 0
col_taken (alert_col i) = 0
col_taken wait_col = 0
col_taken (reset_row i) = 0
col_taken (alert_row i) = 1
col_taken wait_row = 1
col_taken clear_row = 1

-- and has alerted tile `x`.
abbrev pub row_alerted : Pc → ℕ → ℕ
row_alerted outside x = 0
row_alerted (poll_row i) x = 0
row_alerted (poll_col i) x = 0
row_alerted (reset_col i) x = 0
row_alerted (alert_col i) x = 0
row_alerted wait_col x = 0
row_alerted (reset_row i) x = 0
row_alerted (alert_row i) x = if ltb x i then 1 else 0
row_alerted wait_row x = 1
row_alerted clear_row x = 1

-- The group's centre tile has cleared the arrival of row `y`,
abbrev pub col_reset : Pc → ℕ → ℕ
col_reset outside y = 0
col_reset (poll_row i) y = 0
col_reset (poll_col i) y = 0
col_reset (reset_col i) y = if ltb y i then 1 else 0
col_reset (alert_col i) y = 1
col_reset wait_col y = 1
col_reset (reset_row i) y = 1
col_reset (alert_row i) y = 1
col_reset wait_row y = 1
col_reset clear_row y = 1

-- and has alerted row `y`.
abbrev pub col_alerted : Pc → ℕ → ℕ
col_alerted outside y = 0
col_alerted (poll_row i) y = 0
col_alerted (poll_col i) y = 0
col_alerted (reset_col i) y = 0
col_alerted (alert_col i) y = if ltb y i then 1 else 0
col_alerted wait_col y = 1
col_alerted (reset_row i) y = 1
col_alerted (alert_row i) y = 1
col_alerted wait_row y = 1
col_alerted clear_row y = 1

-- A row's centre tile has seen the arrival of tile `x`, which still stands;
abbrev pub row_seen : Pc → ℕ → ℕ
row_seen outside x = 0
row_seen (poll_row i) x = if ltb x i then 1 else 0
row_seen (poll_col i) x = 1
row_seen (reset_col i) x = 1
row_seen (alert_col i) x = 1
row_seen wait_col x = 1
row_seen (reset_row i) x = if leb i x then 1 else 0
row_seen (alert_row i) x = 0
row_seen wait_row x = 0
row_seen clear_row x = 0

-- the group's centre tile has seen that of row `y`.
abbrev pub col_seen : Pc → ℕ → ℕ
col_seen outside y = 0
col_seen (poll_row i) y = 0
col_seen (poll_col i) y = if ltb y i then 1 else 0
col_seen (reset_col i) y = if leb i y then 1 else 0
col_seen (alert_col i) y = 0
col_seen wait_col y = 0
col_seen (reset_row i) y = 0
col_seen (alert_row i) y = 0
col_seen wait_row y = 0
col_seen clear_row y = 0

-- A row's centre tile has seen the column's alert, which still stands;
abbrev pub col_woken : Pc → ℕ
col_woken outside = 0
col_woken (poll_row i) = 0
col_woken (poll_col i) = 0
col_woken (reset_col i) = 0
col_woken (alert_col i) = 0
col_woken wait_col = 0
col_woken (reset_row i) = 1
col_woken (alert_row i) = 0
col_woken wait_row = 0
col_woken clear_row = 0

-- a tile has seen its row's.
abbrev pub row_woken : Pc → ℕ
row_woken outside = 0
row_woken (poll_row i) = 0
row_woken (poll_col i) = 0
row_woken (reset_col i) = 0
row_woken (alert_col i) = 0
row_woken wait_col = 0
row_woken (reset_row i) = 0
row_woken (alert_row i) = 0
row_woken wait_row = 0
row_woken clear_row = 1

-- How far a step takes each of them: at the last clause's places, not at all.
module _ (x_range y_range : ℕ) where
  abbrev pub arrives : Pc → ℕ
  arrives outside = 1
  arrives _ = 0

  abbrev pub resets_row : Pc → ℕ → ℕ
  resets_row (reset_row i) x = if i == x then 1 else 0
  resets_row _ x = 0

  abbrev pub arrives_col : Pc → ℕ
  arrives_col (poll_row i) = if leb i x_range then 0 else 1
  arrives_col _ = 0

  abbrev pub takes_col : Pc → ℕ
  takes_col (reset_row i) = if leb i x_range then 0 else 1
  takes_col _ = 0

  abbrev pub alerts_row : Pc → ℕ → ℕ
  alerts_row (alert_row i) x = if i == x then 1 else 0
  alerts_row _ x = 0

  abbrev pub resets_col : Pc → ℕ → ℕ
  resets_col (reset_col i) y = if i == y then 1 else 0
  resets_col _ y = 0

  abbrev pub alerts_col : Pc → ℕ → ℕ
  alerts_col (alert_col i) y = if i == y then 1 else 0
  alerts_col _ y = 0

-- Places that only a row's centre tile reaches, and those of the group's centre tile
abbrev pub row_centre : Pc → ℕ
row_centre outside = 0
row_centre wait_row = 0
row_centre clear_row = 0
row_centre _ = 1

abbrev pub group_centre : Pc → ℕ
group_centre (poll_col i) = 1
group_centre (reset_col i) = 1
group_centre (alert_col i) = 1
group_centre _ = 0
