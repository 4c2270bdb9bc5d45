-- ===== src/Manycore/Ids.antt =====
-- Tile numbers and coordinates (bsg_manycore.h).
use no_cgbp_rtl.Base.{ℕ, ◌<◌, ◌≡◌, arith}
use no_cgbp_rtl.Manycore.{id_to_x, id_to_y, x_y_to_id, num_tiles}

-- In a group of `tx` by `ty` tiles, the number of a tile is below the number of tiles, and gives
-- its coordinates back.
pub id_to_x_y-x_y_to_id :
    (tx ty x y : ℕ)
    → x < tx
    → y < ty
    → (x_y_to_id tx x y < num_tiles tx ty)
      × (id_to_x tx (x_y_to_id tx x y) ≡ x)
      × (id_to_y tx (x_y_to_id tx x y) ≡ y)
unfolding id_to_x id_to_y x_y_to_id num_tiles
id_to_x_y-x_y_to_id tx ty x y hx hy = (grind arith, grind arith, grind arith)

-- A number below the number of tiles is that of a tile of the group, the one at its coordinates.
pub x_y_to_id-id_to_x_y :
    (tx ty id : ℕ)
    → id < num_tiles tx ty
    → (id_to_x tx id < tx)
      × (id_to_y tx id < ty)
      × (x_y_to_id tx (id_to_x tx id) (id_to_y tx id) ≡ id)
unfolding id_to_x id_to_y x_y_to_id num_tiles
x_y_to_id-id_to_x_y tx ty id h = (grind arith, grind arith, grind arith)
