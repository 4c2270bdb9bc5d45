-- ===== src/GroupBarrier/Progress.antt =====
-- How far a tile is, as a number that no step lowers and that a ready tile raises.
use no_cgbp_rtl.Base.{
  ℕ, suc, ◌+◌, ◌*◌, ◌<◌, ◌≤◌, ◌≡◌, ◌≢◌, ◌⊎◌, inl, inr, refl, sym, ◌&&◌, leb, if◌then◌else◌, Bool,
  true, false, min, List, [], ◌∷◌, ◌++◌, Bool-cases, arith,
}
use native.Mathlib.Decide.{dec_lt}
use native.Mathlib.Nat.{mul-le-mul_right}
use no_cgbp_rtl.Base.Loops.{put2_self, put2_ne, pair-cases}
use no_cgbp_rtl.GroupBarrier.{
  Memory, Pc, outside, wait_col, wait_row, clear_row, poll_row, poll_col, reset_col, alert_col,
  reset_row, alert_row, move, Group, returns, turn, run,
}

module _ (x_range y_range : ℕ) where
  -- The place in the call; the rounds of a poll count as one place.
  abbrev pub stage : Pc → ℕ
  stage outside = 0
  stage (poll_row i) = 1
  stage (poll_col i) = 2
  stage (reset_col i) = 3 + min i (y_range + 1)
  stage (alert_col i) = 5 + y_range + min i (y_range + 1)
  stage wait_col = 7 + 2 * y_range
  stage (reset_row i) = 8 + 2 * y_range + min i (x_range + 1)
  stage (alert_row i) = 10 + 2 * y_range + x_range + min i (x_range + 1)
  stage wait_row = 12 + 2 * y_range + 2 * x_range
  stage clear_row = 13 + 2 * y_range + 2 * x_range

  -- The length of a call
  abbrev pub stages : ℕ
  stages = 14 + 2 * y_range + 2 * x_range

  unfoldable pub progress : Group → (x y : ℕ) → ℕ
  progress s x y = s.calls x y * stages + stage (s.pc x y)

  stage-lt : (p : Pc) → stage p < stages
  stage-lt outside = ground arith
  stage-lt wait_col = ground arith
  stage-lt wait_row = ground arith
  stage-lt clear_row = ground arith
  stage-lt (poll_row i) = ground arith
  stage-lt (poll_col i) = ground arith
  stage-lt (reset_col i) = ground arith
  stage-lt (alert_col i) = ground arith
  stage-lt (reset_row i) = ground arith
  stage-lt (alert_row i) = ground arith

  pub calls_of_progress : (s : Group) (x y k : ℕ) → k * stages ≤ progress s x y → k ≤ s.calls x y
  unfolding progress
  calls_of_progress s x y k h = elim (dec_lt (s.calls x y) k) [
    | yes h' ↦ absurd (
        omega
          (arith, mul-le-mul_right {m = suc (s.calls x y)} {n = k} stages h', stage-lt (s.pc x y)))
    | no ge ↦ omega arith
  ]

abbrev pub is_poll : Pc → Bool
is_poll (poll_row i) = true
is_poll (poll_col i) = true
is_poll _ = false

-- What a tile waits for is there.
abbrev pub Ready : (x_range y_range x y : ℕ) → Memory → Pc → Type 0
Ready x_range y_range x y m wait_col = m.col_alert y ≡ 1
Ready x_range y_range x y m wait_row = m.row_alert x y ≡ 1
Ready x_range y_range x y m (poll_row i) = (j : ℕ) → j ≤ x_range → m.row_done y j ≢ 0
Ready x_range y_range x y m (poll_col i) = (j : ℕ) → j ≤ y_range → m.col_done j ≢ 0
Ready x_range y_range x y m _ = Unit

module _ (x_range y_range center_x center_y : ℕ) where
  abbrev pub next : (s : Group) (x y : ℕ) → Pc → Memory × Pc
  next s x y p = move x_range y_range center_x center_y x y s.memory p

  stage_step :
      (s : Group) (x y : ℕ) (p : Pc)
      → stage x_range y_range p
        ≤ returns p * stages x_range y_range + stage x_range y_range (next s x y p).1
  unfolding move
  stage_step s x y outside = ground arith
  stage_step s x y wait_col = ground arith
  stage_step s x y wait_row = ground arith
  stage_step s x y clear_row = ground arith
  stage_step s x y (poll_row i) = ground arith
  stage_step s x y (poll_col i) = ground arith
  stage_step s x y (reset_col i) = ground arith
  stage_step s x y (alert_col i) = ground arith
  stage_step s x y (reset_row i) = ground arith
  stage_step s x y (alert_row i) = ground arith

  -- Progress of the tile that moves, and of the others
  pub turn_self :
      (s : Group) (x y : ℕ)
      → progress x_range y_range (turn x_range y_range center_x center_y s x y) x y
        ≡ s.calls x y * stages x_range y_range
          + (returns (s.pc x y) * stages x_range y_range
              + stage x_range y_range (next s x y (s.pc x y)).1)
  unfolding progress turn
  turn_self s x y =
      rw
        (
          put2_self s.pc x y (next s x y (s.pc x y)).1,
          put2_self s.calls x y (s.calls x y + returns (s.pc x y)),
        )
        (omega arith)

  turn_other :
      (s : Group) (x y x' y' : ℕ)
      → (x ≢ x') ⊎ (y ≢ y')
      → progress x_range y_range (turn x_range y_range center_x center_y s x y) x' y'
        ≡ progress x_range y_range s x' y'
  unfolding progress turn
  turn_other s x y x' y' ne =
      rw
        (
          put2_ne s.pc x y (next s x y (s.pc x y)).1 x' y' ne,
          put2_ne s.calls x y (s.calls x y + returns (s.pc x y)) x' y' ne,
        )
        refl

  pub turn-le :
      (s : Group) (x y x' y' : ℕ)
      → progress x_range y_range s x' y'
        ≤ progress x_range y_range (turn x_range y_range center_x center_y s x y) x' y'
  unfolding progress
  turn-le s x y x' y' = elim (pair-cases x y x' y') [
    | inl (e, f) ↦ rw (sym e, sym f) (omega (arith, turn_self s x y, stage_step s x y (s.pc x y)))
    | inr ne ↦ omega (arith, turn_other s x y x' y' ne)
  ]

  pub run-le :
      (order : List (ℕ × ℕ)) (s : Group) (x y : ℕ)
      → progress x_range y_range s x y
        ≤ progress x_range y_range (run x_range y_range center_x center_y s order) x y
  unfolding run
  run-le [] s x y = omega arith
  run-le ((x', y') ∷ order) s x y = elim (Bool-cases (leb x' x_range && leb y' y_range)) [
    | inl e ↦ rw e (
        omega (
          arith,
          turn-le s x' y' x y,
          run-le order (turn x_range y_range center_x center_y s x' y') x y,
        ))
    | inr e ↦ rw e (run-le order s x y)
  ]

  pub run-append :
      (order more : List (ℕ × ℕ)) (s : Group)
      → run x_range y_range center_x center_y s (order ++ more)
        ≡ run x_range y_range center_x center_y (run x_range y_range center_x center_y s order) more
  unfolding run
  run-append [] more s = refl
  run-append ((x, y) ∷ order) more s =
      run-append order more
        (if leb x x_range && leb y y_range then turn x_range y_range center_x center_y s x y else s)
