-- ===== src/HwBarrier/Links.antt =====
-- The tree's links: what one tile sends to, the other listens to.
use no_cgbp_rtl.Base.{
  ℕ, ◌+◌, ◌-◌, ◌<◌, Bool, false, ◌≡◌, Option, none, some, ltb, leb, ◌==◌, if◌then◌else◌, arith,
}
use no_cgbp_rtl.HwBarrier.{
  Dir, west, east, north, south, ruche_west, ruche_east, root, code, out_dir, input_w, input_rw,
  input_e, input_re, input_n, input_s,
}

-- The tests of the input mask, by direction
abbrev pub input : (factor tx ty : ℕ) → Dir → (x y : ℕ) → Bool
input factor tx ty west x y = input_w factor tx ty x y
input factor tx ty east x y = input_e factor tx ty x y
input factor tx ty north x y = input_n factor tx ty x y
input factor tx ty south x y = input_s factor tx ty x y
input factor tx ty ruche_west x y = input_rw factor tx ty x y
input factor tx ty ruche_east x y = input_re factor tx ty x y
input factor tx ty root x y = false

-- The tile of the group at the other end of a link, if there is one: `factor` tiles away on a ruche
-- link, one tile away on the others.
abbrev pub neighbour : (factor tx ty : ℕ) → Dir → (x y : ℕ) → Option (ℕ × ℕ)
neighbour factor tx ty west x y = if ltb 0 x then some (x - 1, y) else none
neighbour factor tx ty east x y = if ltb (x + 1) tx then some (x + 1, y) else none
neighbour factor tx ty north x y = if ltb 0 y then some (x, y - 1) else none
neighbour factor tx ty south x y = if ltb (y + 1) ty then some (x, y + 1) else none
neighbour factor tx ty ruche_west x y = if leb factor x then some (x - factor, y) else none
neighbour factor tx ty ruche_east x y = if ltb (x + factor) tx then some (x + factor, y) else none
neighbour factor tx ty root x y = none

abbrev pub opposite : Dir → Dir
opposite west = east
opposite east = west
opposite north = south
opposite south = north
opposite ruche_west = ruche_east
opposite ruche_east = ruche_west
opposite root = root

-- Whether the tile at the other end of the link sends along it
abbrev pub is_sent : (factor tx ty : ℕ) → Dir → Option (ℕ × ℕ) → Bool
is_sent factor tx ty d none = false
is_sent factor tx ty d (some (x, y)) = code (out_dir factor tx ty x y) == code (opposite d)

-- For a positive ruche factor, every tile of the group and every direction, the input from that direction is enabled exactly
-- when there is a tile of the group at the other end of the link and its output goes to this tile.
pub input-eq-is_sent :
    (factor tx ty x y : ℕ) (d : Dir)
    → 0 < factor
    → x < tx
    → y < ty
    → input factor tx ty d x y ≡ is_sent factor tx ty d (neighbour factor tx ty d x y)
unfolding out_dir input_w input_rw input_e input_re input_n input_s
input-eq-is_sent factor tx ty x y west pf hx hy = ground arith
input-eq-is_sent factor tx ty x y east pf hx hy = ground arith
input-eq-is_sent factor tx ty x y north pf hx hy = ground arith
input-eq-is_sent factor tx ty x y south pf hx hy = ground arith
input-eq-is_sent factor tx ty x y ruche_west pf hx hy = ground arith
input-eq-is_sent factor tx ty x y ruche_east pf hx hy = ground arith
input-eq-is_sent factor tx ty x y root pf hx hy = ground arith
