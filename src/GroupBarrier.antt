-- ===== src/GroupBarrier.antt =====
-- software/bsg_manycore_lib/bsg_tile_group_barrier.h: the barrier of a tile group, as tiles that
-- interleave, one access of memory to a step. A tile (x, y) stands at `_x_cord_start + x` and
-- `_y_cord_start + y`, and the ranges are the differences `_cord_end - _cord_start`. A row's `_done_list`
-- is that of its centre tile and a column's that of the group's centre tile, since the other copies
-- are never read or written; so is a column's `_local_alert`.
pub mod Counters
pub mod Turn
pub mod Invariant
pub mod RowDone
pub mod ColDone
pub mod ColAlert
pub mod RowAlert
pub mod Seen
pub mod Woken
pub mod Roles
pub mod Safety
pub mod Progress
pub mod Rounds
pub mod Enabled
pub mod Liveness
mod Tests
use no_cgbp_rtl.Base.Loops.{put, put2}
use no_cgbp_rtl.Base.{
  ℕ, zero, suc, ◌+◌, ◌-◌, ◌/◌, Bool, ◌&&◌, List, [], ◌∷◌, leb, ◌==◌, if◌then◌else◌,
}

-- `_done_list` and `_local_alert` of the row barriers (by row) and of the column barrier
pub record Memory : Type 0 where
  pub row_done : (y x : ℕ) → ℕ
  pub col_done : (y : ℕ) → ℕ
  pub col_alert : (y : ℕ) → ℕ
  pub row_alert : (x y : ℕ) → ℕ

-- Where a tile stands: before the store of bsg_row_barrier_sync, in a loop at an index, or at a wait.
pub data Pc : Type 0 where
  outside wait_col wait_row clear_row : Pc
  poll_row poll_col reset_col alert_col reset_row alert_row : ℕ → Pc

-- center_x_cord and center_y_cord, less the start
abbrev pub center : (cord_start range : ℕ) → ℕ
center cord_start range = (cord_start + (cord_start + range)) / 2 - cord_start

module _ (x_range y_range center_x center_y : ℕ) where
  -- The step of tile (x, y); a loop that has ended goes on with the first access after it.
  unfoldable pub move : (x y : ℕ) → Memory → Pc → Memory × Pc
  move x y m Pc.outside = (
    record m { row_done = put2 m.row_done y x 1 },
    if x == center_x then Pc.poll_row 0 else Pc.wait_row,
  )
  move x y m (Pc.poll_row i) =
      if leb i x_range
      then (m, if m.row_done y i == 0 then Pc.poll_row 0 else Pc.poll_row (i + 1))
      else (
        record m { col_done = put m.col_done y 1 },
        if y == center_y then Pc.poll_col 0 else Pc.wait_col,
      )
  move x y m (Pc.poll_col i) =
      if leb i y_range
      then (m, if m.col_done i == 0 then Pc.poll_col 0 else Pc.poll_col (i + 1))
      else (m, Pc.reset_col 0)
  move x y m (Pc.reset_col i) =
      if leb i y_range
      then (record m { col_done = put m.col_done i 0 }, Pc.reset_col (i + 1))
      else (m, Pc.alert_col 0)
  move x y m (Pc.alert_col i) =
      if leb i y_range
      then (record m { col_alert = put m.col_alert i 1 }, Pc.alert_col (i + 1))
      else (m, Pc.wait_col)
  move x y m Pc.wait_col = (m, if m.col_alert y == 1 then Pc.reset_row 0 else Pc.wait_col)
  move x y m (Pc.reset_row i) =
      if leb i x_range
      then (record m { row_done = put2 m.row_done y i 0 }, Pc.reset_row (i + 1))
      else (record m { col_alert = put m.col_alert y 0 }, Pc.alert_row 0)
  move x y m (Pc.alert_row i) =
      if leb i x_range
      then (record m { row_alert = put2 m.row_alert i y 1 }, Pc.alert_row (i + 1))
      else (m, Pc.wait_row)
  move x y m Pc.wait_row = (m, if m.row_alert x y == 1 then Pc.clear_row else Pc.wait_row)
  move x y m Pc.clear_row = (record m { row_alert = put2 m.row_alert x y 0 }, Pc.outside)

-- The whole group; `calls` counts the calls that have returned.
pub record Group : Type 0 where
  pub memory : Memory
  pub pc : (x y : ℕ) → Pc
  pub calls : (x y : ℕ) → ℕ

abbrev pub returns : Pc → ℕ
returns Pc.clear_row = 1
returns Pc.outside = 0
returns Pc.wait_col = 0
returns Pc.wait_row = 0
returns (Pc.poll_row i) = 0
returns (Pc.poll_col i) = 0
returns (Pc.reset_col i) = 0
returns (Pc.alert_col i) = 0
returns (Pc.reset_row i) = 0
returns (Pc.alert_row i) = 0

-- Every list is zero, and every tile calls again and again.
abbrev pub init : Group
init = record {
  memory = record {
    row_done = λ y x. 0;
    col_done = λ y. 0;
    col_alert = λ y. 0;
    row_alert = λ x y. 0;
  };
  pc = λ x y. Pc.outside;
  calls = λ x y. 0;
}

module _ (x_range y_range center_x center_y : ℕ) where
  unfoldable pub turn : Group → (x y : ℕ) → Group
  turn s x y =
      let next = move x_range y_range center_x center_y x y s.memory (s.pc x y) in
      record {
        memory = next.0;
        pc = put2 s.pc x y next.1;
        calls = put2 s.calls x y (s.calls x y + returns (s.pc x y));
      }

  -- The tiles move in the order of a list; what is no tile of the group does not move.
  unfoldable pub run : Group → List (ℕ × ℕ) → Group
  run s [] = s
  run s ((x, y) ∷ order) =
      let s' = if leb x x_range && leb y y_range then turn s x y else s in run s' order
