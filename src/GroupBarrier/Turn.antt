-- ===== src/GroupBarrier/Turn.antt =====
-- How a step changes the counters of every tile.
use no_cgbp_rtl.Base.{
  ℕ, ◌+◌, ◌≤◌, ◌≡◌, ◌≢◌, ◌⊎◌, inl, inr, refl, sym, ◌&&◌, ◌==◌, true, false, if◌then◌else◌, arith,
}
use no_cgbp_rtl.Base.Loops.{put2, put2_self, put2_ne, pair-cases}
use no_cgbp_rtl.GroupBarrier.{
  Memory, Pc, outside, wait_col, wait_row, clear_row, poll_row, poll_col, reset_col, alert_col,
  reset_row, alert_row, move, Group, returns,
}
use no_cgbp_rtl.GroupBarrier.Counters.{
  arrived, row_reset, col_arrived, col_taken, row_alerted, col_reset, col_alerted, arrives,
  resets_row, arrives_col, takes_col, alerts_row, resets_col, alerts_col,
}

-- What a tile has done in all its calls
unfoldable pub total : (Pc → ℕ) → Group → (x y : ℕ) → ℕ
total f s x y = s.calls x y + f (s.pc x y)

pub total_le :
    (f g : Pc → ℕ) (s : Group) (x y : ℕ) → ((p : Pc) → f p ≤ g p) → total f s x y ≤ total g s x y
unfolding total
total_le f g s x y h = omega (arith, h (s.pc x y))

pub total_at :
    (f : Pc → ℕ) (s : Group) (x y : ℕ) (p : Pc) → s.pc x y ≡ p → total f s x y ≡ s.calls x y + f p
unfolding total
total_at f s x y p at = rw at refl

test_true : (x y x' y' : ℕ) → x ≡ x' → y ≡ y' → (x == x' && y == y') ≡ true
test_true x y x' y' e f = ground arith

test_false : (x y x' y' : ℕ) → (x ≢ x') ⊎ (y ≢ y') → (x == x' && y == y') ≡ false
test_false x y x' y' (inl h) = ground arith
test_false x y x' y' (inr h) = ground arith

module _ (x_range y_range center_x center_y : ℕ) (s : Group) (x y : ℕ) where
  abbrev pub next : Pc → Memory × Pc
  next p = move x_range y_range center_x center_y x y s.memory p

  -- The state after a step of tile (x, y) from the place `p`
  abbrev pub moved : Pc → Group
  moved p = record {
    memory = (next p).0;
    pc = put2 s.pc x y (next p).1;
    calls = put2 s.calls x y (s.calls x y + returns p);
  }

  pub total-moved :
      (f : Pc → ℕ) (d : ℕ) (p : Pc) (x' y' : ℕ)
      → s.pc x y ≡ p
      → ((x ≡ x') → (y ≡ y') → returns p + f (next p).1 ≡ f p + d)
      → total f (moved p) x' y' ≡ total f s x' y' + (if x == x' && y == y' then d else 0)
  unfolding total
  total-moved f d p x' y' at h = elim (pair-cases x y x' y') [
    | inl (e, g) ↦
        rw (sym e, sym g)
          (rw
            (
              put2_self s.pc x y (next p).1,
              put2_self s.calls x y (s.calls x y + returns p),
              test_true x y x y refl refl,
              at,
            )
            (omega (arith, h e g)))
    | inr ne ↦
        rw
          (
            put2_ne s.pc x y (next p).1 x' y' ne,
            put2_ne s.calls x y (s.calls x y + returns p) x' y' ne,
            test_false x y x' y' ne,
          )
          (omega arith)
  ]

  pub calls-moved :
      (p : Pc) (x' y' : ℕ)
      → (moved p).calls x' y' ≡ s.calls x' y' + (if x == x' && y == y' then returns p else 0)
  calls-moved p x' y' = elim (pair-cases x y x' y') [
    | inl (e, g) ↦
        rw (sym e, sym g)
          (rw (put2_self s.calls x y (s.calls x y + returns p), test_true x y x y refl refl) refl)
    | inr ne ↦
        rw (put2_ne s.calls x y (s.calls x y + returns p) x' y' ne, test_false x y x' y' ne)
          (omega arith)
  ]

  pub arrived_step :
      (p : Pc) → returns p + arrived (next p).1 ≡ arrived p + arrives x_range y_range p
  unfolding move
  arrived_step outside = ground arith
  arrived_step wait_col = ground arith
  arrived_step wait_row = ground arith
  arrived_step clear_row = ground arith
  arrived_step (poll_row i) = ground arith
  arrived_step (poll_col i) = ground arith
  arrived_step (reset_col i) = ground arith
  arrived_step (alert_col i) = ground arith
  arrived_step (reset_row i) = ground arith
  arrived_step (alert_row i) = ground arith

  pub row_reset_step :
      (p : Pc) (x' : ℕ)
      → x' ≤ x_range
      → x ≡ center_x
      → returns p + row_reset (next p).1 x' ≡ row_reset p x' + resets_row x_range y_range p x'
  unfolding move
  row_reset_step outside x' le e = ground arith
  row_reset_step wait_col x' le e = ground arith
  row_reset_step wait_row x' le e = ground arith
  row_reset_step clear_row x' le e = ground arith
  row_reset_step (poll_row i) x' le e = ground arith
  row_reset_step (poll_col i) x' le e = ground arith
  row_reset_step (reset_col i) x' le e = ground arith
  row_reset_step (alert_col i) x' le e = ground arith
  row_reset_step (reset_row i) x' le e = ground arith
  row_reset_step (alert_row i) x' le e = ground arith

  pub col_arrived_step :
      (p : Pc)
      → x ≡ center_x
      → returns p + col_arrived (next p).1 ≡ col_arrived p + arrives_col x_range y_range p
  unfolding move
  col_arrived_step outside e = ground arith
  col_arrived_step wait_col e = ground arith
  col_arrived_step wait_row e = ground arith
  col_arrived_step clear_row e = ground arith
  col_arrived_step (poll_row i) e = ground arith
  col_arrived_step (poll_col i) e = ground arith
  col_arrived_step (reset_col i) e = ground arith
  col_arrived_step (alert_col i) e = ground arith
  col_arrived_step (reset_row i) e = ground arith
  col_arrived_step (alert_row i) e = ground arith

  pub col_taken_step :
      (p : Pc)
      → x ≡ center_x
      → returns p + col_taken (next p).1 ≡ col_taken p + takes_col x_range y_range p
  unfolding move
  col_taken_step outside e = ground arith
  col_taken_step wait_col e = ground arith
  col_taken_step wait_row e = ground arith
  col_taken_step clear_row e = ground arith
  col_taken_step (poll_row i) e = ground arith
  col_taken_step (poll_col i) e = ground arith
  col_taken_step (reset_col i) e = ground arith
  col_taken_step (alert_col i) e = ground arith
  col_taken_step (reset_row i) e = ground arith
  col_taken_step (alert_row i) e = ground arith

  pub row_alerted_step :
      (p : Pc) (x' : ℕ)
      → x' ≤ x_range
      → x ≡ center_x
      → returns p + row_alerted (next p).1 x' ≡ row_alerted p x' + alerts_row x_range y_range p x'
  unfolding move
  row_alerted_step outside x' le e = ground arith
  row_alerted_step wait_col x' le e = ground arith
  row_alerted_step wait_row x' le e = ground arith
  row_alerted_step clear_row x' le e = ground arith
  row_alerted_step (poll_row i) x' le e = ground arith
  row_alerted_step (poll_col i) x' le e = ground arith
  row_alerted_step (reset_col i) x' le e = ground arith
  row_alerted_step (alert_col i) x' le e = ground arith
  row_alerted_step (reset_row i) x' le e = ground arith
  row_alerted_step (alert_row i) x' le e = ground arith

  pub col_reset_step :
      (p : Pc) (y' : ℕ)
      → y' ≤ y_range
      → x ≡ center_x
      → y ≡ center_y
      → returns p + col_reset (next p).1 y' ≡ col_reset p y' + resets_col x_range y_range p y'
  unfolding move
  col_reset_step outside y' le e h = ground arith
  col_reset_step wait_col y' le e h = ground arith
  col_reset_step wait_row y' le e h = ground arith
  col_reset_step clear_row y' le e h = ground arith
  col_reset_step (poll_row i) y' le e h = ground arith
  col_reset_step (poll_col i) y' le e h = ground arith
  col_reset_step (reset_col i) y' le e h = ground arith
  col_reset_step (alert_col i) y' le e h = ground arith
  col_reset_step (reset_row i) y' le e h = ground arith
  col_reset_step (alert_row i) y' le e h = ground arith

  pub col_alerted_step :
      (p : Pc) (y' : ℕ)
      → y' ≤ y_range
      → x ≡ center_x
      → y ≡ center_y
      → returns p + col_alerted (next p).1 y' ≡ col_alerted p y' + alerts_col x_range y_range p y'
  unfolding move
  col_alerted_step outside y' le e h = ground arith
  col_alerted_step wait_col y' le e h = ground arith
  col_alerted_step wait_row y' le e h = ground arith
  col_alerted_step clear_row y' le e h = ground arith
  col_alerted_step (poll_row i) y' le e h = ground arith
  col_alerted_step (poll_col i) y' le e h = ground arith
  col_alerted_step (reset_col i) y' le e h = ground arith
  col_alerted_step (alert_col i) y' le e h = ground arith
  col_alerted_step (reset_row i) y' le e h = ground arith
  col_alerted_step (alert_row i) y' le e h = ground arith
