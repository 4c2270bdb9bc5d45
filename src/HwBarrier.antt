-- ===== src/HwBarrier.antt =====
-- software/bsg_manycore_lib/bsg_hw_barrier_config_init.h: the configuration of the hardware barrier's
-- reduction tree, a word for each tile of a group of `tx` by `ty` tiles. `factor` is the build's
-- BARRIER_RUCHE_FACTOR_X. The source compares differences of `int`s; here a subtrahend stands on
-- the other side of its comparison, since `-` on numbers stops at 0.
pub mod Word
pub mod Links
pub mod Route
pub mod Table
pub mod Tree
mod Tests
use no_cgbp_rtl.Base.{
  ℕ, zero, suc, ◌+◌, ◌*◌, ◌/◌, Bool, ◌&&◌, bit_or, List, ltb, leb, ◌==◌, if◌then◌else◌, set,
}
use no_cgbp_rtl.Arch.{shl}

-- Output directions, by the codes that the source gives them
pub data Dir : Type 0 where
  west east north south ruche_west ruche_east root : Dir

abbrev pub code : Dir → ℕ
code west = 1
code east = 2
code north = 3
code south = 4
code ruche_west = 5
code ruche_east = 6
code root = 7

abbrev pub outdir_offset : ℕ
outdir_offset = 16

abbrev pub center : ℕ → ℕ
center t = t / 2

module _ (factor tx ty : ℕ) where
  -- The chain of tests under "setting output dir"
  unfoldable pub out_dir : (x y : ℕ) → Dir
  out_dir x y =
      let center_x = center tx in
      let center_y = center ty in
      if leb (x + factor) center_x
      then ruche_east
      else if ltb x center_x && ltb center_x (x + factor)
      then east
      else if x == center_x
      then (if ltb y center_y then south else if y == center_y then root else north)
      else if ltb center_x x && ltb x (center_x + factor)
      then west
      else ruche_west

  -- The tests under "setting input mask"
  unfoldable pub input_w : (x y : ℕ) → Bool
  input_w x y = ltb (center tx + 1) (factor + x) && leb x (center tx) && ltb 0 x

  unfoldable pub input_rw : (x y : ℕ) → Bool
  input_rw x y = leb factor x && leb x (center tx)

  unfoldable pub input_e : (x y : ℕ) → Bool
  input_e x y = ltb (x + 1) (factor + center tx) && leb (center tx) x && ltb (x + 1) tx

  unfoldable pub input_re : (x y : ℕ) → Bool
  input_re x y = ltb (x + factor) tx && leb (center tx) x

  unfoldable pub input_n : (x y : ℕ) → Bool
  input_n x y = x == center tx && (ltb 0 y && leb y (center ty))

  unfoldable pub input_s : (x y : ℕ) → Bool
  input_s x y = x == center tx && (ltb (y + 1) ty && leb (center ty) y)

-- `if (b) val |= (1 << k);`
abbrev pub or_if : Bool → ℕ → ℕ → ℕ
or_if b k val = if b then bit_or val (shl 1 k) else val

-- The word that the tests build, in the source's order; input P is always on.
unfoldable pub encode : Dir → (in_w in_rw in_e in_re in_n in_s : Bool) → ℕ
encode d in_w in_rw in_e in_re in_n in_s = or_if in_s 4 (
    or_if in_n 3 (
      or_if in_re 6
        (or_if in_e 2 (or_if in_rw 5 (or_if in_w 1 (bit_or 1 (shl (code d) outdir_offset)))))))

module _ (factor tx ty : ℕ) where
  -- `val` at the end of the loop's body
  unfoldable pub config_word : (x y : ℕ) → ℕ
  config_word x y =
      encode (out_dir factor tx ty x y) (input_w factor tx ty x y) (input_rw factor tx ty x y)
        (input_e factor tx ty x y) (input_re factor tx ty x y) (input_n factor tx ty x y)
        (input_s factor tx ty x y)

  -- The inner loop, from `y` on with `k` rounds left, and the outer one, from `x` on
  unfoldable pub init_column : ℕ → (x y : ℕ) → List ℕ → List ℕ
  init_column zero x y arr = arr
  init_column (suc k) x y arr = init_column k x (y + 1) (set arr (x + y * tx) (config_word x y))

  unfoldable pub init_columns : ℕ → (x : ℕ) → List ℕ → List ℕ
  init_columns zero x arr = arr
  init_columns (suc k) x arr = init_columns k (x + 1) (init_column ty x 0 arr)

  -- bsg_hw_barrier_config_init
  unfoldable pub config_init : List ℕ → List ℕ
  config_init arr = init_columns tx 0 arr
