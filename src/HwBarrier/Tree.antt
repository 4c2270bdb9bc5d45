-- ===== src/HwBarrier/Tree.antt =====
-- The configuration array is a tree: read from the stored words alone.
use no_cgbp_rtl.Base.{
  ℕ, ◌+◌, ◌*◌, ◌/◌, ◌%◌, ◌^◌, ◌<◌, ◌≤◌, ◌≡◌, ◌∙◌, ap, Bool, List, length, get_or, arith,
}
use no_cgbp_rtl.HwBarrier.{
  Dir, west, east, north, south, ruche_west, ruche_east, root, code, out_dir, config_word,
  config_init,
}
use no_cgbp_rtl.HwBarrier.Word.{bit, encode-sum}
use no_cgbp_rtl.HwBarrier.Links.{input, neighbour, is_sent, input-eq-is_sent}
use no_cgbp_rtl.HwBarrier.Table.{config_init_lem}

-- The bit of the input mask for a direction; no input comes from the root.
abbrev pub position : Dir → ℕ
position west = 1
position east = 2
position north = 3
position south = 4
position ruche_west = 5
position ruche_east = 6
position root = 7

bit-lt : (b : Bool) → bit b < 2
bit-lt b = ground arith

module _ (factor tx ty x y : ℕ) where
  word-sum :
      config_word factor tx ty x y
      ≡ code (out_dir factor tx ty x y) * 65536
        + bit (input factor tx ty ruche_east x y) * 64
        + bit (input factor tx ty ruche_west x y) * 32
        + bit (input factor tx ty south x y) * 16
        + bit (input factor tx ty north x y) * 8
        + bit (input factor tx ty east x y) * 4
        + bit (input factor tx ty west x y) * 2
        + 1
  unfolding config_word
  word-sum = encode-sum _ _ _ _ _ _ _

  word-bit :
      (d : Dir) → config_word factor tx ty x y / 2 ^ position d % 2 ≡ bit (input factor tx ty d x y)
  word-bit west = omega (arith, word-sum, bit-lt)
  word-bit _ = omega (arith, word-sum, bit-lt)

  word-code : config_word factor tx ty x y / 2 ^ 16 ≡ code (out_dir factor tx ty x y)
  word-code = omega (arith, word-sum, bit-lt)

-- After the initialisation, with a positive ruche factor, of an array with room for the group, for
-- each tile of it: the stored word holds
-- the code of the tile's output direction from bit 16 on, and the bit of each input direction is set
-- exactly when a tile of the group stands at the other end of that link and sends along it.
pub config_init-links :
    (factor tx ty : ℕ) (arr : List ℕ) (x y : ℕ) (d : Dir)
    → 0 < factor
    → tx * ty ≤ length arr
    → x < tx
    → y < ty
    → let v = get_or (config_init factor tx ty arr) (x + y * tx) 0 in
      (v / 2 ^ 16 ≡ code (out_dir factor tx ty x y))
      × (v / 2 ^ position d % 2 ≡ bit (is_sent factor tx ty d (neighbour factor tx ty d x y)))
config_init-links factor tx ty arr x y d pf room hx hy = rw stored (
  word-code factor tx ty x y,
  word-bit factor tx ty x y d ∙ ap bit (input-eq-is_sent factor tx ty x y d pf hx hy),
)
  where
    stored : get_or (config_init factor tx ty arr) (x + y * tx) 0 ≡ config_word factor tx ty x y
    stored = (config_init_lem factor tx ty arr room).1 x y hx hy
