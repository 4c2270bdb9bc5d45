-- ===== src/Transpose.antt =====
-- software/spmd/bsg_transpose/main.c: a matrix that is spread over the tiles in blocks, transposed
-- by each tile with remote loads and printed by tile 0. The barriers divide the program into phases;
-- in a phase the tiles run in an order that the caller chooses. `bsg_x` and `bsg_y` are arguments.
pub mod Blocks
mod Tests
use no_cgbp_rtl.Base.{
  ℕ, zero, suc, ◌+◌, ◌*◌, ◌/◌, ◌%◌, bit_or, List, [], ◌∷◌, ◌++◌, ltb, ◌==◌, ◌&&◌, if◌then◌else◌,
}
use no_cgbp_rtl.Base.Loops.{for, for_each, put2}
use no_cgbp_rtl.Arch.{shl}
use no_cgbp_rtl.Manycore.{x_y_to_id}

abbrev pub sub_row_num : ℕ
sub_row_num = 2

abbrev pub sub_col_num : ℕ
sub_col_num = 3

abbrev pub tile_dim : ℕ
tile_dim = 4

abbrev pub matrix_rows : ℕ
matrix_rows = sub_row_num * tile_dim

abbrev pub matrix_cols : ℕ
matrix_cols = sub_col_num * tile_dim

-- `a[i][j]` of an array with two indices
abbrev pub Array : Type 0
Array = ℕ → ℕ → ℕ

-- local_source and local_dest of every tile (x, y)
pub record Tiles : Type 0 where
  pub local_source : (x y : ℕ) → Array
  pub local_dest : (x y : ℕ) → Array

unfoldable pub init_source : (bsg_x bsg_y : ℕ) → Array → Array
init_source bsg_x bsg_y =
    let sub_i_start = bsg_y * sub_row_num in
    let sub_j_start = bsg_x * sub_col_num in
    for sub_row_num (λ i. for sub_col_num (λ j p_source.
      let msb = shl (i + sub_i_start) 16 in
      let lsb = j + sub_j_start in put2 p_source i j (bit_or msb lsb)))

-- `p_remote_source` is the block of the tile that the remote pointer goes to.
unfoldable pub transpose : (p_remote_source p_dest : Array) → Array
transpose p_remote_source =
    for sub_row_num (λ i. for sub_col_num (λ j p_dest. put2 p_dest j i (p_remote_source i j)))

-- The word that print_result loads for row `i` and column `j`
unfoldable pub result_at : Tiles → (i j : ℕ) → ℕ
result_at tiles i j =
    let y_cord = j / sub_col_num in
    let x_cord = i / sub_row_num in
    let row_id = j % sub_col_num in
    let col_id = i % sub_row_num in tiles.local_dest x_cord y_cord row_id col_id

-- The values of a loop that stores one in each round
abbrev pub outputs : (n : ℕ) → (ℕ → List ℕ) → List ℕ
outputs zero body = []
outputs (suc n) body = outputs n body ++ body n

unfoldable pub print_result : Tiles → List ℕ
print_result tiles = outputs matrix_rows (λ i. outputs matrix_cols (λ j. result_at tiles i j ∷ []))

-- What main does at a tile before the first barrier, and between the barriers
unfoldable pub first_phase : ℕ × ℕ → Tiles → Tiles
first_phase (bsg_x, bsg_y) tiles =
    if ltb bsg_x tile_dim && ltb bsg_y tile_dim
    then record tiles {
      local_source =
          put2 tiles.local_source bsg_x bsg_y
            (init_source bsg_x bsg_y (tiles.local_source bsg_x bsg_y));
    }
    else tiles

unfoldable pub second_phase : ℕ × ℕ → Tiles → Tiles
second_phase (bsg_x, bsg_y) tiles =
    if ltb bsg_x tile_dim && ltb bsg_y tile_dim
    then record tiles {
      local_dest =
          put2 tiles.local_dest bsg_x bsg_y
            (transpose (tiles.local_source bsg_y bsg_x) (tiles.local_dest bsg_x bsg_y));
    }
    else tiles

-- What tile 0 stores to the host in the second phase, and after the second barrier
unfoldable pub announced : (tiles_x : ℕ) → ℕ × ℕ → List ℕ
announced tiles_x (bsg_x, bsg_y) =
    if ltb bsg_x tile_dim && ltb bsg_y tile_dim && x_y_to_id tiles_x bsg_x bsg_y == 0
    then 0x0000cab0 ∷ []
    else []

unfoldable pub printed : (tiles_x : ℕ) → ℕ × ℕ → Tiles → List ℕ
printed tiles_x (bsg_x, bsg_y) tiles =
    if ltb bsg_x tile_dim && ltb bsg_y tile_dim && x_y_to_id tiles_x bsg_x bsg_y == 0
    then 0x0000cab1 ∷ print_result tiles
    else []

-- The lists are the orders in which the tiles run in each phase.
unfoldable pub transposed : (first second : List (ℕ × ℕ)) → Tiles → Tiles
transposed first second tiles = for_each second second_phase (for_each first first_phase tiles)
