-- ===== src/TileConfig/Coordinates.antt =====
-- In every order of steps a tile that has its coordinates has its own.
use no_cgbp_rtl.Base.{
  ℕ, ◌+◌, ◌*◌, ◌^◌, ◌<◌, ◌≡◌, inl, inr, refl, sym, ap, ◌∙◌, List, [], ◌∷◌, Bool, true, false, arith,
}
use mathlib.Core.Path.{ap₂}
use mathlib.Core.Bool.{true≢false}
use no_cgbp_rtl.Base.Int.{ℤ, pos}
use no_cgbp_rtl.Base.Loops.{put2, put2_self, put2_ne, pair-cases}
use no_cgbp_rtl.Arch.Layout.{remote_ptr-sum}
use no_cgbp_rtl.Manycore.{remote_ptr_control, x_y_to_id}
use no_cgbp_rtl.TileConfig.{
  Config, Vars, Pc, storing_x, storing_y, waiting_x, waiting_y, testing, configuring, finished,
  filling_x, filling_y, move, configure, config_at, Tiles, init, turn, run,
}
use no_cgbp_rtl.TileConfig.Steps.{Known, own_x, own_y, past_x, past_y, Keeps-move, step_x, step_y}

abbrev pub done : Pc → Bool
done finished = true
done _ = false

abbrev ready : Pc → Bool
ready finished = true
ready configuring = true
ready _ = false

module _ (tiles_x tiles_y : ℕ) (registers : ℕ → ℤ) where
  -- What tile (x, y) is to hold, with the addresses of its registers for the group's origin written
  -- out by the format of a remote pointer
  abbrev pub own_config : (x y : ℕ) → Config
  own_config x y = record {
    bsg_id = pos (y * tiles_x + x);
    grp_org_x = registers (2 ^ 29 + y * 2 ^ 24 + x * 2 ^ 18 + (2 ^ 17 + 4));
    grp_org_y = registers (2 ^ 29 + y * 2 ^ 24 + x * 2 ^ 18 + (2 ^ 17 + 8));
    grid_dim_x = pos 1;
    grid_dim_y = pos 1;
    tile_group_id_x = pos 0;
    tile_group_id_y = pos 0;
    tile_group_id = pos 0;
  }

  abbrev pub Configured : (s : Tiles) (x y : ℕ) → Type 0
  Configured s x y =
      (s.vars.bsg_x x y ≡ pos x) × (s.vars.bsg_y x y ≡ pos y) × (s.config x y ≡ own_config x y)

  configure-own_config :
      (x y : ℕ) → x < 64 → y < 32 → configure tiles_x registers (pos x) (pos y) ≡ own_config x y
  unfolding configure remote_ptr_control x_y_to_id
  configure-own_config x y hx hy =
      rw
        (
          number,
          remote_ptr-sum x y (2 ^ 17 + 4) hx hy (omega arith),
          remote_ptr-sum x y (2 ^ 17 + 8) hx hy (omega arith),
        )
        refl
    where
      number : tiles_x * y + x ≡ y * tiles_x + x
      number = omega arith

  step_done :
      (x y : ℕ) (v : Vars) (p : Pc) → done (move tiles_x tiles_y x y v p).1 ≡ true → ready p ≡ true
  unfolding move
  step_done x y v storing_x h = ground arith
  step_done x y v storing_y h = ground arith
  step_done x y v waiting_x h = ground arith
  step_done x y v waiting_y h = ground arith
  step_done x y v testing h = ground arith
  step_done x y v configuring h = ground arith
  step_done x y v finished h = ground arith
  step_done x y v (filling_x i j) h = ground arith
  step_done x y v (filling_y i j) h = ground arith

  step_config :
      (p : Pc) (bsg_x bsg_y : ℤ) (old new : Config)
      → ready p ≡ true
      → (done p ≡ true → old ≡ new)
      → configure tiles_x registers bsg_x bsg_y ≡ new
      → config_at tiles_x registers p bsg_x bsg_y old ≡ new
  step_config storing_x bsg_x bsg_y old new e h g = absurd (true≢false (sym e))
  step_config storing_y bsg_x bsg_y old new e h g = absurd (true≢false (sym e))
  step_config waiting_x bsg_x bsg_y old new e h g = absurd (true≢false (sym e))
  step_config waiting_y bsg_x bsg_y old new e h g = absurd (true≢false (sym e))
  step_config testing bsg_x bsg_y old new e h g = absurd (true≢false (sym e))
  step_config configuring bsg_x bsg_y old new e h g = g
  step_config finished bsg_x bsg_y old new e h g = h refl
  step_config (filling_x i j) bsg_x bsg_y old new e h g = absurd (true≢false (sym e))
  step_config (filling_y i j) bsg_x bsg_y old new e h g = absurd (true≢false (sym e))

  ready_past : (p : Pc) → ready p ≡ true → (past_x p ≡ true) × (past_y p ≡ true)
  ready_past storing_x e = absurd (true≢false (sym e))
  ready_past storing_y e = absurd (true≢false (sym e))
  ready_past waiting_x e = absurd (true≢false (sym e))
  ready_past waiting_y e = absurd (true≢false (sym e))
  ready_past testing e = absurd (true≢false (sym e))
  ready_past configuring e = (refl, refl)
  ready_past finished e = (refl, refl)
  ready_past (filling_x i j) e = absurd (true≢false (sym e))
  ready_past (filling_y i j) e = absurd (true≢false (sym e))

  record Inv (s : Tiles) : Type 0 where
    known_x : Known s.vars.bsg_x own_x
    known_y : Known s.vars.bsg_y own_y
    has_x : (x y : ℕ) → past_x (s.pc x y) ≡ true → s.vars.bsg_x x y ≡ pos x
    has_y : (x y : ℕ) → past_y (s.pc x y) ≡ true → s.vars.bsg_y x y ≡ pos y
    configured :
        (x y : ℕ)
        → done (s.pc x y) ≡ true
        → s.config x y ≡ configure tiles_x registers (pos x) (pos y)

  config_self :
      (s : Tiles) (x y : ℕ)
      → Inv s
      → done (move tiles_x tiles_y x y s.vars (s.pc x y)).1 ≡ true
      → config_at tiles_x registers (s.pc x y) (s.vars.bsg_x x y) (s.vars.bsg_y x y) (s.config x y)
        ≡ configure tiles_x registers (pos x) (pos y)
  config_self s x y v d =
      let r = step_done x y s.vars (s.pc x y) d in
      let (px, py) = ready_past (s.pc x y) r in
      step_config (s.pc x y) (s.vars.bsg_x x y) (s.vars.bsg_y x y) (s.config x y) _ r
        (v.configured x y) (ap₂ (configure tiles_x registers) (v.has_x x y px) (v.has_y x y py))

  turn-Inv : (s : Tiles) (x y : ℕ) → Inv s → Inv (turn tiles_x tiles_y registers s x y)
  unfolding turn
  turn-Inv s x y v =
      let next = move tiles_x tiles_y x y s.vars (s.pc x y) in
      let (kx, ky, hx, hy) = Keeps-move tiles_x tiles_y x y s.vars (s.pc x y) in
      record {
        known_x = kx v.known_x;
        known_y = ky v.known_y;
        has_x = λ a b past. elim (pair-cases x y a b) [
          | inl (p, q) ↦ hx a b (
              ap₂ s.vars.bsg_x (sym p) (sym q)
              ∙ step_x tiles_x tiles_y x y s.vars (s.pc x y) (v.known_x x y) (v.has_x x y)
                  (ap past_x (sym (here a b p q)) ∙ past)
              ∙ ap (λ (n : ℕ). pos n) p)
          | inr ne ↦ hx a b (v.has_x a b (ap past_x (sym (put2_ne s.pc x y next.1 a b ne)) ∙ past))
        ];
        has_y = λ a b past. elim (pair-cases x y a b) [
          | inl (p, q) ↦ hy a b (
              ap₂ s.vars.bsg_y (sym p) (sym q)
              ∙ step_y tiles_x tiles_y x y s.vars (s.pc x y) (v.known_y x y) (v.has_y x y)
                  (ap past_y (sym (here a b p q)) ∙ past)
              ∙ ap (λ (n : ℕ). pos n) q)
          | inr ne ↦ hy a b (v.has_y a b (ap past_y (sym (put2_ne s.pc x y next.1 a b ne)) ∙ past))
        ];
        configured = λ a b d. elim (pair-cases x y a b) [
          | inl (p, q) ↦
              ap₂ (put2 s.config x y _) (sym p) (sym q)
              ∙ put2_self s.config x y _
              ∙ config_self s x y v (ap done (sym (here a b p q)) ∙ d)
              ∙ ap₂ (λ (m n : ℕ). configure tiles_x registers (pos m) (pos n)) p q
          | inr ne ↦
              put2_ne s.config x y _ a b ne
              ∙ v.configured a b (ap done (sym (put2_ne s.pc x y next.1 a b ne)) ∙ d)
        ];
      }
    where
      here :
          (a b : ℕ)
          → x ≡ a
          → y ≡ b
          → put2 s.pc x y (move tiles_x tiles_y x y s.vars (s.pc x y)).1 a b
            ≡ (move tiles_x tiles_y x y s.vars (s.pc x y)).1
      here a b p q =
          ap₂ (put2 s.pc x y (move tiles_x tiles_y x y s.vars (s.pc x y)).1) (sym p) (sym q)
          ∙ put2_self s.pc x y (move tiles_x tiles_y x y s.vars (s.pc x y)).1

  init-Inv : Inv init
  init-Inv = record {
    known_x = λ x y. inl refl;
    known_y = λ x y. inl refl;
    has_x = λ x y e. absurd (true≢false (sym e));
    has_y = λ x y e. absurd (true≢false (sym e));
    configured = λ x y e. absurd (true≢false (sym e));
  }

  run_from :
      (s : Tiles) (order : List (ℕ × ℕ)) → Inv s → Inv (run tiles_x tiles_y registers s order)
  unfolding run
  run_from s [] v = v
  run_from s ((x, y) ∷ order) v =
      run_from (turn tiles_x tiles_y registers s x y) order (turn-Inv s x y v)

  done_past : (p : Pc) → done p ≡ true → (past_x p ≡ true) × (past_y p ≡ true)
  done_past storing_x e = absurd (true≢false (sym e))
  done_past storing_y e = absurd (true≢false (sym e))
  done_past waiting_x e = absurd (true≢false (sym e))
  done_past waiting_y e = absurd (true≢false (sym e))
  done_past testing e = absurd (true≢false (sym e))
  done_past configuring e = absurd (true≢false (sym e))
  done_past finished e = (refl, refl)
  done_past (filling_x i j) e = absurd (true≢false (sym e))
  done_past (filling_y i j) e = absurd (true≢false (sym e))

  -- In every order of steps, for a tile whose coordinates fit a remote pointer: a tile that has come
  -- out of bsg_set_tile_x_y holds its own coordinates, its number row by row among the tiles of the
  -- group, the origin read from its own two registers, and ones and zeros for the rest.
  pub run-Configured :
      (order : List (ℕ × ℕ)) (x y : ℕ)
      → x < 64
      → y < 32
      → done ((run tiles_x tiles_y registers init order).pc x y) ≡ true
      → Configured (run tiles_x tiles_y registers init order) x y
  run-Configured order x y hx hy d =
      let v = run_from init order init-Inv in
      let (px, py) = done_past _ d in
      (v.has_x x y px, v.has_y x y py, v.configured x y d ∙ configure-own_config x y hx hy)
