-- ===== src/RemoteCrc.antt =====
-- software/spmd/remote_load_crc/main.c, for its 4 by 4 tiles: tile 0 loads a vector from each tile and
-- compares checksums. An `int` is its 32-bit word; `>>` of a negative one copies the sign, as the
-- compiler documents. What the remote loads return is an argument.
pub mod FirstWord
mod Tests
use mathlib.Core.Option.{bind, map}
use no_cgbp_rtl.Base.{
  ℕ, zero, suc, ◌+◌, ◌*◌, ◌/◌, ◌%◌, ◌^◌, bit_or, bit_xor, Option, none, some, List, [], ◌∷◌, ◌&&◌,
  ltb, leb, ◌==◌, if◌then◌else◌,
}
use no_cgbp_rtl.Manycore.{Access, store, remote_ptr_io, finish, fail}

abbrev pub crc_32_poly : ℕ
crc_32_poly = 0xedb88320

abbrev pub vec_len : ℕ
vec_len = 32

-- XY_ID, in rows of four
unfoldable pub xy_id : (x y : ℕ) → ℕ
xy_id x y = (x + y * 4) * 2 ^ 24 % 2 ^ 32

-- `Data[y][x][i]`, of NODE_VEC and ROW_VEC
unfoldable pub node_word : (x y i : ℕ) → ℕ
node_word x y i = bit_or i (xy_id x y)

-- `crc >> 1`
abbrev pub shift_right : ℕ → ℕ
shift_right w = w / 2 + (if leb (2 ^ 31) w then 2 ^ 31 else 0)

unfoldable pub divide_bit : ℕ → ℕ
divide_bit crc = if crc % 2 == 1 then bit_xor (shift_right crc) crc_32_poly else shift_right crc

-- The inner loop from `i` on, with as many rounds as are left
unfoldable pub divide_bits : (rounds crc : ℕ) → ℕ
divide_bits zero crc = crc
divide_bits (suc rounds) crc = divide_bits rounds (divide_bit crc)

-- The outer loop, whose `i` the inner one leaves at 32; `none` when the fuel is spent.
unfoldable pub crc32_loop : (fuel i size : ℕ) → (addr : ℕ → ℕ) → (next crc : ℕ) → Option ℕ
crc32_loop zero i size addr next crc = none
crc32_loop (suc fuel) i size addr next crc =
    let rest =
      crc32_loop fuel (32 + 1) size addr (next + 1) (divide_bits 32 (bit_xor crc (addr next))) in
    if ltb i size then rest else some crc

unfoldable pub crc32 : (fuel : ℕ) → (addr : ℕ → ℕ) → (size : ℕ) → Option ℕ
crc32 fuel addr size = crc32_loop fuel 0 size addr 0 0xffffffff

-- `data_vec` of a tile, without the tile's number
abbrev pub data_vec : (load : (x y i : ℕ) → ℕ) → (x y i : ℕ) → ℕ
data_vec load x y i = bit_xor (load x y i) (xy_id x y)

-- The order of the loops of proc0
abbrev pub coordinates : List (ℕ × ℕ)
coordinates =
    (0, 0)
    ∷ (1, 0)
    ∷ (2, 0)
    ∷ (3, 0)
    ∷ (0, 1)
    ∷ (1, 1)
    ∷ (2, 1)
    ∷ (3, 1)
    ∷ (0, 2)
    ∷ (1, 2)
    ∷ (2, 2)
    ∷ (3, 2)
    ∷ (0, 3)
    ∷ (1, 3)
    ∷ (2, 3)
    ∷ (3, 3)
    ∷ []

module _ (io_x io_y : ℕ) where
  -- After a checksum: what follows for the sum that `check_sum0` then has, or bsg_fail
  abbrev pub compared :
      (x y check_sum check_sum0 : ℕ) → (ℕ → Option (List Access)) → Option (List Access)
  compared x y check_sum check_sum0 rest =
      map (λ accesses. store (remote_ptr_io io_y io_x 0) check_sum ∷ accesses)
        (if x == 0 && y == 0
          then rest check_sum
          else (if check_sum == check_sum0
              then rest check_sum0
              else some (fail io_x io_y 0 0 ∷ [])))

  -- The stores to the host; `none` when a checksum does not end.
  unfoldable pub proc0_loop :
      (fuel : ℕ) → (load : (x y i : ℕ) → ℕ) → List (ℕ × ℕ) → (check_sum0 : ℕ) → Option (List Access)
  proc0_loop fuel load [] check_sum0 = some (finish io_x io_y 0 0 ∷ [])
  proc0_loop fuel load ((x, y) ∷ tiles) check_sum0 =
      bind (crc32 fuel (data_vec load x y) vec_len)
        (λ check_sum. compared x y check_sum check_sum0 (proc0_loop fuel load tiles))

  unfoldable pub proc0 :
      (fuel : ℕ) → (load : (x y i : ℕ) → ℕ) → (check_sum0 : ℕ) → Option (List Access)
  proc0 fuel load check_sum0 = proc0_loop fuel load coordinates check_sum0
