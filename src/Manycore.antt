-- ===== src/Manycore.antt =====
-- software/bsg_manycore_lib/bsg_manycore.h: tile numbers, the stores that talk to the host, and the
-- word that the performance counters are tagged with; bsg_manycore_gather_scatter.h: the accesses
-- of a gather or scatter operation. A store is an event: what the machine does with it is the
-- hardware's matter.
pub mod Ids
pub mod Stat
pub mod GatherScatter
mod Tests
use no_cgbp_rtl.Base.{ℕ, ◌+◌, ◌*◌, ◌/◌, ◌%◌, ◌^◌, ◌-◌, bit_and, bit_or, List, [], ◌∷◌}
use no_cgbp_rtl.Arch.{shl, remote_ptr, global_ptr, csr_base_addr}

-- A volatile access: a store of a word or a byte, or `bsg_wait_local_int`, which returns when the
-- word holds the value.
pub data Access : Type 0 where
  store : (addr val : ℕ) → Access
  store_uint8 : (addr val : ℕ) → Access
  wait : (addr cond : ℕ) → Access

-- bsg_id_to_x, bsg_id_to_y, bsg_x_y_to_id, bsg_num_tiles
unfoldable pub id_to_x : (tiles_x id : ℕ) → ℕ
id_to_x tiles_x id = id % tiles_x

unfoldable pub id_to_y : (tiles_x id : ℕ) → ℕ
id_to_y tiles_x id = id / tiles_x

unfoldable pub x_y_to_id : (tiles_x x y : ℕ) → ℕ
x_y_to_id tiles_x x y = tiles_x * y + x

unfoldable pub num_tiles : (tiles_x tiles_y : ℕ) → ℕ
num_tiles tiles_x tiles_y = tiles_x * tiles_y

-- bsg_remote_ptr_control
unfoldable pub remote_ptr_control : (x y csr_offset : ℕ) → ℕ
remote_ptr_control x y csr_offset = remote_ptr x y (csr_base_addr + csr_offset)

-- bsg_remote_ptr_io
unfoldable pub remote_ptr_io : (io_y x local_addr : ℕ) → ℕ
remote_ptr_io io_y x local_addr = global_ptr x io_y local_addr

-- What bsg_finish, bsg_fail and bsg_print_time send: the tile that speaks.
unfoldable pub speaker : (x y : ℕ) → ℕ
speaker x y = shl y 16 + x

-- The one store of bsg_finish_x, bsg_fail_x and bsg_print_time; the first two then loop for ever.
module _ (io_x io_y : ℕ) where
  unfoldable pub finish : (x y : ℕ) → Access
  finish x y = store (remote_ptr_io io_y io_x 0xEAD0) (speaker x y)

  unfoldable pub fail : (x y : ℕ) → Access
  fail x y = store (remote_ptr_io io_y io_x 0xEAD8) (speaker x y)

  unfoldable pub print_time : (x y : ℕ) → Access
  print_time x y = store (remote_ptr_io io_y io_x 0xEAD4) (speaker x y)

  unfoldable pub putchar : (c : ℕ) → Access
  putchar c = store_uint8 (remote_ptr_io io_y io_x 0xEADC) (c % 256)

  unfoldable pub print_int : (i : ℕ) → Access
  print_int i = store (remote_ptr_io io_y io_x 0xEAE0) i

  unfoldable pub print_unsigned : (u : ℕ) → Access
  print_unsigned u = store (remote_ptr_io io_y io_x 0xEAE4) u

  unfoldable pub print_hexadecimal : (u : ℕ) → Access
  print_hexadecimal u = store (remote_ptr_io io_y io_x 0xEAE8) u

abbrev pub stat_tag_width : ℕ
stat_tag_width = 4

abbrev pub stat_tg_id_width : ℕ
stat_tg_id_width = 14

abbrev pub stat_x_width : ℕ
stat_x_width = 6

abbrev pub stat_y_width : ℕ
stat_y_width = 6

abbrev pub stat_tag_shift : ℕ
stat_tag_shift = 0

abbrev pub stat_tg_id_shift : ℕ
stat_tg_id_shift = stat_tag_shift + stat_tag_width

abbrev pub stat_x_shift : ℕ
stat_x_shift = stat_tg_id_shift + stat_tg_id_width

abbrev pub stat_y_shift : ℕ
stat_y_shift = stat_x_shift + stat_x_width

abbrev pub stat_type_shift : ℕ
stat_type_shift = stat_y_shift + stat_y_width

-- The masks, `(1 << WIDTH) - 1`
abbrev pub mask : ℕ → ℕ
mask width = 2 ^ width - 1

-- The word that bsg_cuda_print_stat_type builds. `x` and `y` are the sums of the group's origin and
-- the tile's coordinates.
unfoldable pub stat_word : (tag stat_type tile_group_id x y : ℕ) → ℕ
stat_word tag stat_type tile_group_id x y =
    bit_or
      (bit_or
        (bit_or
          (bit_or (shl stat_type stat_type_shift)
            (shl (bit_and y (mask stat_y_width)) stat_y_shift))
          (shl (bit_and x (mask stat_x_width)) stat_x_shift))
        (shl (bit_and tile_group_id (mask stat_tg_id_width)) stat_tg_id_shift))
      (shl (bit_and tag (mask stat_tag_width)) stat_tag_shift)

-- bsg_print_stat
unfoldable pub print_stat : (io_x io_y tag : ℕ) → Access
print_stat io_x io_y tag = store (remote_ptr_io io_y io_x 0xd0c) tag

abbrev pub gs_csr_offset : ℕ
gs_csr_offset = 0x20000

abbrev pub gs_run_addr : ℕ
gs_run_addr = bit_or (shl 0 2) gs_csr_offset

abbrev pub gs_access_len_addr : ℕ
gs_access_len_addr = bit_or (shl 1 2) gs_csr_offset

abbrev pub gs_stride_addr : ℕ
gs_stride_addr = bit_or (shl 2 2) gs_csr_offset

abbrev pub gs_eva_base_addr : ℕ
gs_eva_base_addr = bit_or (shl 3 2) gs_csr_offset

-- bsg_manycore_gs_helper: its stores in order, then the wait for the accelerator's answer.
unfoldable pub gs_helper :
    (x y eva_base stride access_len reserve_addr scatter_not_gather : ℕ) → List Access
gs_helper x y eva_base stride access_len reserve_addr scatter_not_gather =
    store (global_ptr x y gs_access_len_addr) access_len
    ∷ store (global_ptr x y gs_stride_addr) stride
    ∷ store (global_ptr x y gs_eva_base_addr) eva_base
    ∷ store (global_ptr x y gs_run_addr) (bit_or (shl scatter_not_gather 31) reserve_addr)
    ∷ store reserve_addr 0
    ∷ wait reserve_addr 1
    ∷ []

unfoldable pub gs_gather : (x y eva_base stride access_len reserve_addr : ℕ) → List Access
gs_gather x y eva_base stride access_len reserve_addr =
    gs_helper x y eva_base stride access_len reserve_addr 0

unfoldable pub gs_scatter : (x y eva_base stride access_len reserve_addr : ℕ) → List Access
gs_scatter x y eva_base stride access_len reserve_addr =
    gs_helper x y eva_base stride access_len reserve_addr 1
