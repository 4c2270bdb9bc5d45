-- ===== src/TileConfig.antt =====
-- software/bsg_manycore_lib/bsg_set_tile_x_y.c, with the variables of bsg_tile_config_vars.c: how the
-- tiles of a group learn their coordinates, as tiles that interleave, one access of memory to a
-- step. The registers of the group's origin are a memory that does not change.
pub mod Steps
pub mod Coordinates
mod Tests
use no_cgbp_rtl.Base.{ℕ, ◌+◌, Bool, List, [], ◌∷◌, ltb, ◌&&◌, not, if◌then◌else◌}
use no_cgbp_rtl.Base.Int.{ℤ, pos, negsuc, ltb_ℤ, pos_part}
use no_cgbp_rtl.Base.Loops.{put2}
use no_cgbp_rtl.Arch.{csr_tgo_x, csr_tgo_y}
use no_cgbp_rtl.Manycore.{remote_ptr_control, x_y_to_id}

-- __bsg_id and what follows it
pub record Config : Type 0 where
  pub bsg_id : ℤ
  pub grp_org_x : ℤ
  pub grp_org_y : ℤ
  pub grid_dim_x : ℤ
  pub grid_dim_y : ℤ
  pub tile_group_id_x : ℤ
  pub tile_group_id_y : ℤ
  pub tile_group_id : ℤ

abbrev pub no_config : Config
no_config = record {
  bsg_id = negsuc 0;
  grp_org_x = negsuc 0;
  grp_org_y = negsuc 0;
  grid_dim_x = negsuc 0;
  grid_dim_y = negsuc 0;
  tile_group_id_x = negsuc 0;
  tile_group_id_y = negsuc 0;
  tile_group_id = negsuc 0;
}

-- __bsg_x and __bsg_y of every tile
pub record Vars : Type 0 where
  pub bsg_x : (x y : ℕ) → ℤ
  pub bsg_y : (x y : ℕ) → ℤ

-- Where a tile stands: before a store, a wait or the test, in the loops, before the last part, after it
pub data Pc : Type 0 where
  storing_x storing_y waiting_x waiting_y testing configuring finished : Pc
  filling_x filling_y : (x y : ℕ) → Pc

unfoldable pub is_equal : ℤ → ℤ → Bool
is_equal a b = not (ltb_ℤ a b) && not (ltb_ℤ b a)

module _ (tiles_x tiles_y : ℕ) where
  -- The step of tile (x, y); `v` has the variables.
  unfoldable pub move : (x y : ℕ) → Vars → Pc → Vars × Pc
  move x y v Pc.storing_x = (record v { bsg_x = put2 v.bsg_x 0 0 (pos 0) }, Pc.storing_y)
  move x y v Pc.storing_y = (record v { bsg_y = put2 v.bsg_y 0 0 (pos 0) }, Pc.waiting_x)
  move x y v Pc.waiting_x = (v, if ltb_ℤ (v.bsg_x x y) (pos 0) then Pc.waiting_x else Pc.waiting_y)
  move x y v Pc.waiting_y = (v, if ltb_ℤ (v.bsg_y x y) (pos 0) then Pc.waiting_y else Pc.testing)
  move x y v Pc.testing = (
    v,
    if is_equal (v.bsg_x x y) (pos 0) && is_equal (v.bsg_y x y) (pos 0)
        then Pc.filling_x 0 0
        else Pc.configuring,
  )
  move x y v (Pc.filling_x i j) =
      if ltb i tiles_x
      then if ltb j tiles_y
        then (record v { bsg_x = put2 v.bsg_x i j (pos i) }, Pc.filling_y i j)
        else (v, Pc.filling_x (i + 1) 0)
      else (v, Pc.configuring)
  move x y v (Pc.filling_y i j) =
      (record v { bsg_y = put2 v.bsg_y i j (pos j) }, Pc.filling_x i (j + 1))
  move x y v Pc.configuring = (v, Pc.finished)
  move x y v Pc.finished = (v, Pc.finished)

-- The last part: `registers` is the memory of the control registers by address.
unfoldable pub configure : (tiles_x : ℕ) (registers : ℕ → ℤ) (bsg_x bsg_y : ℤ) → Config
configure tiles_x registers bsg_x bsg_y =
    let x = pos_part bsg_x in
    let y = pos_part bsg_y in
    record {
      bsg_id = pos (x_y_to_id tiles_x x y);
      grp_org_x = registers (remote_ptr_control x y csr_tgo_x);
      grp_org_y = registers (remote_ptr_control x y csr_tgo_y);
      grid_dim_x = pos 1;
      grid_dim_y = pos 1;
      tile_group_id_x = pos 0;
      tile_group_id_y = pos 0;
      tile_group_id = pos 0;
    }

pub record Tiles : Type 0 where
  pub vars : Vars
  pub pc : (x y : ℕ) → Pc
  pub config : (x y : ℕ) → Config

-- The configuration after a step from a place
abbrev pub config_at : (tiles_x : ℕ) (registers : ℕ → ℤ) → Pc → (bsg_x bsg_y : ℤ) → Config → Config
config_at tiles_x registers Pc.configuring bsg_x bsg_y old = configure tiles_x registers bsg_x bsg_y
config_at tiles_x registers _ bsg_x bsg_y old = old

abbrev pub init : Tiles
init = record {
  vars = record { bsg_x = λ x y. negsuc 0; bsg_y = λ x y. negsuc 0 };
  pc = λ x y. Pc.storing_x;
  config = λ x y. no_config;
}

module _ (tiles_x tiles_y : ℕ) (registers : ℕ → ℤ) where
  unfoldable pub turn : Tiles → (x y : ℕ) → Tiles
  turn s x y =
      let next = move tiles_x tiles_y x y s.vars (s.pc x y) in
      record {
        vars = next.0;
        pc = put2 s.pc x y next.1;
        config = put2 s.config x y (
            config_at tiles_x registers (s.pc x y) (s.vars.bsg_x x y) (s.vars.bsg_y x y)
              (s.config x y));
      }

  -- The tiles move in the order of a list.
  unfoldable pub run : Tiles → List (ℕ × ℕ) → Tiles
  run s [] = s
  run s ((x, y) ∷ order) = run (turn s x y) order
