-- ===== src/Arch.antt =====
-- software/bsg_manycore_lib/bsg_manycore_arch.h: the endpoint virtual addresses. A pointer is the
-- 32-bit pattern that the macro builds; a coordinate or a local address is a number, and its range
-- is a hypothesis where it matters. The machine's dimensions (bsg_tiles_X, bsg_tiles_Y,
-- bsg_global_X, bsg_global_Y, IO_X_INDEX, IO_Y_INDEX) are set by the build: arguments here.
pub mod Layout
pub mod Shared
mod Tests
use no_cgbp_rtl.Base.{ℕ, ◌+◌, ◌-◌, ◌*◌, ◌/◌, ◌%◌, ◌^◌, bit_and, bit_or}

-- `v << k` on a 32-bit word
abbrev pub shl : ℕ → ℕ → ℕ
shl v k = v * 2 ^ k % 2 ^ 32

abbrev pub global_epa_width : ℕ
global_epa_width = 16

abbrev pub global_x_cord_width : ℕ
global_x_cord_width = 7

abbrev pub global_y_cord_width : ℕ
global_y_cord_width = 7

abbrev pub global_x_cord_shift : ℕ
global_x_cord_shift = global_epa_width

abbrev pub global_y_cord_shift : ℕ
global_y_cord_shift = global_x_cord_shift + global_x_cord_width

abbrev pub global_prefix_shift : ℕ
global_prefix_shift = global_y_cord_shift + global_y_cord_width

abbrev pub remote_epa_width : ℕ
remote_epa_width = 18

abbrev pub remote_x_cord_width : ℕ
remote_x_cord_width = 6

abbrev pub remote_y_cord_width : ℕ
remote_y_cord_width = 5

abbrev pub remote_x_cord_shift : ℕ
remote_x_cord_shift = remote_epa_width

abbrev pub remote_y_cord_shift : ℕ
remote_y_cord_shift = remote_x_cord_shift + remote_x_cord_width

abbrev pub remote_prefix_shift : ℕ
remote_prefix_shift = remote_y_cord_shift + remote_y_cord_width

abbrev pub dram_prefix_shift : ℕ
dram_prefix_shift = 31

abbrev pub csr_base_addr : ℕ
csr_base_addr = shl 1 (remote_epa_width - 1)

abbrev pub csr_tgo_x : ℕ
csr_tgo_x = 0x4

abbrev pub csr_tgo_y : ℕ
csr_tgo_y = 0x8

-- bsg_remote_ptr, and with it bsg_remote_flt_ptr and bsg_tile_group_remote_ptr, which differ only
-- in the type that the pattern is cast to
unfoldable pub remote_ptr : ℕ → ℕ → ℕ → ℕ
remote_ptr x y local_addr =
    bit_or
      (bit_or (bit_or (shl 1 remote_prefix_shift) (shl y remote_y_cord_shift))
        (shl x remote_x_cord_shift))
      local_addr

-- bsg_global_ptr, and with it bsg_global_float_ptr
unfoldable pub global_ptr : ℕ → ℕ → ℕ → ℕ
global_ptr x y local_addr =
    bit_or
      (bit_or (bit_or (shl 1 global_prefix_shift) (shl y global_y_cord_shift))
        (shl x global_x_cord_shift))
      local_addr

-- bsg_global_pod_ptr
unfoldable pub global_pod_ptr : (global_x global_y px py x y local_addr : ℕ) → ℕ
global_pod_ptr global_x global_y px py x y local_addr =
    bit_or
      (bit_or
        (bit_or (shl 1 global_prefix_shift) (shl ((1 + py * 2) * global_y + y) global_y_cord_shift))
        (shl ((px + 1) * global_x + x) global_x_cord_shift))
      local_addr

-- bsg_global_physical_pod_ptr
unfoldable pub global_physical_pod_ptr : (global_x global_y px py x y local_addr : ℕ) → ℕ
global_physical_pod_ptr global_x global_y px py x y local_addr =
    bit_or
      (bit_or (bit_or (shl 1 global_prefix_shift) (shl (py * global_y + y) global_y_cord_shift))
        (shl (px * global_x + x) global_x_cord_shift))
      local_addr

-- bsg_dram_ptr
unfoldable pub dram_ptr : ℕ → ℕ
dram_ptr local_addr = bit_or (shl 1 dram_prefix_shift) local_addr

-- bsg_host_dram_ptr
unfoldable pub host_dram_ptr : ℕ → ℕ
host_dram_ptr addr = bit_or (shl 3 30) addr

-- bsg_local_ptr
unfoldable pub local_ptr : ℕ → ℕ
local_ptr remote_addr = bit_and remote_addr (shl 1 remote_epa_width - 1)

-- bsg_tile_group_shared_ptr: element `index` of an array spread over the tile group. `lc_sh` is the
-- address of each tile's own part and `size` the size of an element, so that `&lc_sh[i]` is
-- `lc_sh + size * i`.
unfoldable pub shared_ptr : (tiles_x tiles_y size lc_sh index : ℕ) → ℕ
shared_ptr tiles_x tiles_y size lc_sh index =
    remote_ptr (index % tiles_x) (index / tiles_x % tiles_y)
      (lc_sh + size * (index / (tiles_x * tiles_y)))

-- bsg_io_mutex_ptr
unfoldable pub io_mutex_ptr : (io_x io_y local_addr : ℕ) → ℕ
io_mutex_ptr io_x io_y local_addr = global_ptr io_x io_y local_addr
