-- ===== src/GroupBarrier/Rounds.antt =====
-- Steps that raise the number: a tile that is ready gets on within one round of its loop.
use no_cgbp_rtl.Base.{
  ℕ, zero, suc, ◌+◌, ◌*◌, ◌<◌, ◌≤◌, ◌≡◌, ◌≢◌, refl, sym, ap, ◌∙◌, ◌&&◌, leb, ◌==◌, true, false,
  List, [], ◌∷◌, arith,
}
use mathlib.Core.Path.{subst}
use native.Mathlib.Decide.{dec_lt}
use no_cgbp_rtl.Base.Loops.{put2_self}
use no_cgbp_rtl.GroupBarrier.{
  Memory, Pc, outside, wait_col, wait_row, clear_row, poll_row, poll_col, reset_col, alert_col,
  reset_row, alert_row, move, Group, returns, turn, run,
}
use no_cgbp_rtl.GroupBarrier.Progress.{
  stage, stages, progress, is_poll, Ready, next, turn_self, turn-le, run-le,
}

module _ (x_range y_range center_x center_y : ℕ) where
  -- One step of a ready tile that does not poll
  strict_step :
      (s : Group) (x y : ℕ) (p : Pc)
      → Ready x_range y_range x y s.memory p
      → is_poll p ≡ false
      → stage x_range y_range p
        < returns p * stages x_range y_range
          + stage x_range y_range (next x_range y_range center_x center_y s x y p).1
  unfolding move
  strict_step s x y outside r e = ground arith
  strict_step s x y wait_col r e = ground (arith, r)
  strict_step s x y wait_row r e = ground (arith, r)
  strict_step s x y clear_row r e = ground arith
  strict_step s x y (poll_row i) r e = absurd (ground arith)
  strict_step s x y (poll_col i) r e = absurd (ground arith)
  strict_step s x y (reset_col i) r e = ground arith
  strict_step s x y (alert_col i) r e = ground arith
  strict_step s x y (reset_row i) r e = ground arith
  strict_step s x y (alert_row i) r e = ground arith

  run_one :
      (s : Group) (x y : ℕ) (order : List (ℕ × ℕ))
      → x ≤ x_range
      → y ≤ y_range
      → run x_range y_range center_x center_y s ((x, y) ∷ order)
        ≡ run x_range y_range center_x center_y (turn x_range y_range center_x center_y s x y) order
  unfolding run
  run_one s x y order hx hy = rw in_group refl
    where
      in_group : (leb x x_range && leb y y_range) ≡ true
      in_group = ground arith

  -- Some turns of one tile raise its progress.
  abbrev pub Goes : (s : Group) (x y : ℕ) → Type 0
  Goes s x y =
      (order : List (ℕ × ℕ)) × (progress x_range y_range s x y
        < progress x_range y_range (run x_range y_range center_x center_y s order) x y)

  Goes-first :
      (s : Group) (x y : ℕ)
      → x ≤ x_range
      → y ≤ y_range
      → stage x_range y_range (s.pc x y)
        < returns (s.pc x y) * stages x_range y_range
          + stage x_range y_range (next x_range y_range center_x center_y s x y (s.pc x y)).1
      → Goes s x y
  unfolding progress
  Goes-first s x y hx hy h =
      let after = turn x_range y_range center_x center_y s x y in
      (
        (x, y) ∷ [],
        subst (λ (g : Group). progress x_range y_range s x y < progress x_range y_range g x y)
            (sym (run_one s x y [] hx hy))
            (omega (
              arith,
              turn_self x_range y_range center_x center_y s x y,
              run-le x_range y_range center_x center_y [] after x y,
            )),
      )

  Goes-later :
      (s : Group) (x y : ℕ)
      → x ≤ x_range
      → y ≤ y_range
      → Goes (turn x_range y_range center_x center_y s x y) x y
      → Goes s x y
  Goes-later s x y hx hy (order, h) = (
    (x, y) ∷ order,
    subst (λ (g : Group). progress x_range y_range s x y < progress x_range y_range g x y)
        (sym (run_one s x y order hx hy))
        (omega (arith, turn-le x_range y_range center_x center_y s x y x y, h)),
  )

  turn_at :
      (s : Group) (x y : ℕ) (p q : Pc) (m : Memory)
      → s.pc x y ≡ p
      → next x_range y_range center_x center_y s x y p ≡ (m, q)
      → ((turn x_range y_range center_x center_y s x y).memory ≡ m)
        × ((turn x_range y_range center_x center_y s x y).pc x y ≡ q)
  unfolding turn
  turn_at s x y p q m at e = (
    ap (λ (c : Pc). (next x_range y_range center_x center_y s x y c).0) at
        ∙ ap (λ (n : Memory × Pc). n.0) e,
    put2_self s.pc x y (next x_range y_range center_x center_y s x y (s.pc x y)).1
        ∙ ap (λ (c : Pc). (next x_range y_range center_x center_y s x y c).1) at
        ∙ ap (λ (n : Memory × Pc). n.1) e,
  )

  poll_row-next :
      (s : Group) (x y i : ℕ)
      → i ≤ x_range
      → s.memory.row_done y i ≢ 0
      → next x_range y_range center_x center_y s x y (poll_row i) ≡ (s.memory, poll_row (i + 1))
  unfolding move
  poll_row-next s x y i le ne = rw (inside, set) refl
    where
      inside : leb i x_range ≡ true
      inside = ground arith

      set : (s.memory.row_done y i == 0) ≡ false
      set = ground arith

  poll_row-ends :
      (s : Group) (x y i : ℕ)
      → x_range < i
      → stage x_range y_range (poll_row i)
        < returns (poll_row i) * stages x_range y_range
          + stage x_range y_range (next x_range y_range center_x center_y s x y (poll_row i)).1
  unfolding move
  poll_row-ends s x y i lt = ground arith

  -- A poll of which every entry is set, with `k` rounds left
  poll_row-Goes :
      (k i : ℕ) (s : Group) (x y : ℕ)
      → x_range < i + k
      → x ≤ x_range
      → y ≤ y_range
      → s.pc x y ≡ poll_row i
      → Ready x_range y_range x y s.memory (poll_row 0)
      → Goes s x y
  poll_row-Goes zero i s x y few hx hy at all =
      Goes-first s x y hx hy (rw at (poll_row-ends s x y i (omega arith)))
  poll_row-Goes (suc k) i s x y few hx hy at all = elim (dec_lt x_range i) [
    | yes lt ↦ Goes-first s x y hx hy (rw at (poll_row-ends s x y i lt))
    | no ge ↦
        let (same, there) =
          turn_at s x y (poll_row i) (poll_row (i + 1)) s.memory at
            (poll_row-next s x y i (omega arith) (all i (omega arith))) in
        Goes-later s x y hx hy (
          poll_row-Goes k (i + 1) (turn x_range y_range center_x center_y s x y) x y (omega arith)
            hx hy there
            (subst (λ (m : Memory). Ready x_range y_range x y m (poll_row 0)) (sym same) all))
  ]

  poll_col-next :
      (s : Group) (x y i : ℕ)
      → i ≤ y_range
      → s.memory.col_done i ≢ 0
      → next x_range y_range center_x center_y s x y (poll_col i) ≡ (s.memory, poll_col (i + 1))
  unfolding move
  poll_col-next s x y i le ne = rw (inside, set) refl
    where
      inside : leb i y_range ≡ true
      inside = ground arith

      set : (s.memory.col_done i == 0) ≡ false
      set = ground arith

  poll_col-ends :
      (s : Group) (x y i : ℕ)
      → y_range < i
      → stage x_range y_range (poll_col i)
        < returns (poll_col i) * stages x_range y_range
          + stage x_range y_range (next x_range y_range center_x center_y s x y (poll_col i)).1
  unfolding move
  poll_col-ends s x y i lt = ground arith

  -- A poll of which every entry is set, with `k` rounds left
  poll_col-Goes :
      (k i : ℕ) (s : Group) (x y : ℕ)
      → y_range < i + k
      → x ≤ x_range
      → y ≤ y_range
      → s.pc x y ≡ poll_col i
      → Ready x_range y_range x y s.memory (poll_col 0)
      → Goes s x y
  poll_col-Goes zero i s x y few hx hy at all =
      Goes-first s x y hx hy (rw at (poll_col-ends s x y i (omega arith)))
  poll_col-Goes (suc k) i s x y few hx hy at all = elim (dec_lt y_range i) [
    | yes lt ↦ Goes-first s x y hx hy (rw at (poll_col-ends s x y i lt))
    | no ge ↦
        let (same, there) =
          turn_at s x y (poll_col i) (poll_col (i + 1)) s.memory at
            (poll_col-next s x y i (omega arith) (all i (omega arith))) in
        Goes-later s x y hx hy (
          poll_col-Goes k (i + 1) (turn x_range y_range center_x center_y s x y) x y (omega arith)
            hx hy there
            (subst (λ (m : Memory). Ready x_range y_range x y m (poll_col 0)) (sym same) all))
  ]

  pub Ready-Goes :
      (s : Group) (x y : ℕ) (p : Pc)
      → x ≤ x_range
      → y ≤ y_range
      → s.pc x y ≡ p
      → Ready x_range y_range x y s.memory p
      → Goes s x y
  Ready-Goes s x y outside hx hy at r =
      Goes-first s x y hx hy (rw at (strict_step s x y outside r refl))
  Ready-Goes s x y wait_col hx hy at r =
      Goes-first s x y hx hy (rw at (strict_step s x y wait_col r refl))
  Ready-Goes s x y wait_row hx hy at r =
      Goes-first s x y hx hy (rw at (strict_step s x y wait_row r refl))
  Ready-Goes s x y clear_row hx hy at r =
      Goes-first s x y hx hy (rw at (strict_step s x y clear_row r refl))
  Ready-Goes s x y (poll_row i) hx hy at r =
      poll_row-Goes (x_range + 1) i s x y (omega arith) hx hy at r
  Ready-Goes s x y (poll_col i) hx hy at r =
      poll_col-Goes (y_range + 1) i s x y (omega arith) hx hy at r
  Ready-Goes s x y (reset_col i) hx hy at r =
      Goes-first s x y hx hy (rw at (strict_step s x y (reset_col i) r refl))
  Ready-Goes s x y (alert_col i) hx hy at r =
      Goes-first s x y hx hy (rw at (strict_step s x y (alert_col i) r refl))
  Ready-Goes s x y (reset_row i) hx hy at r =
      Goes-first s x y hx hy (rw at (strict_step s x y (reset_row i) r refl))
  Ready-Goes s x y (alert_row i) hx hy at r =
      Goes-first s x y hx hy (rw at (strict_step s x y (alert_row i) r refl))
