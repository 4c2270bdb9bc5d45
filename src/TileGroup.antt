-- ===== src/TileGroup.antt =====
-- software/bsg_manycore_lib/bsg_tilegroup.h: arrays striped over the tiles of a group, element by
-- element. Numbers are 32-bit words, memory a byte at each address, lowest byte first. The build and
-- the linker set the parameters: REMOTE_EPA_PREFIX, REMOTE_EPA_MASK_SHIFTS, X_CORD_SHIFTS and
-- Y_CORD_SHIFTS (no file of the repository defines them), the address of _bsg_striped_data_start,
-- bsg_tiles_X and bsg_group_size. A value is its bit pattern, a float or a signed one too.
pub mod Bytes
pub mod Striped
pub mod Copies
mod Tests
use no_cgbp_rtl.Base.{
  ℕ, zero, suc, ◌+◌, ◌-◌, ◌*◌, ◌/◌, ◌%◌, ◌^◌, bit_or, Option, none, some, ◌==◌, if◌then◌else◌,
}
use no_cgbp_rtl.Base.Loops.{put}
use no_cgbp_rtl.Arch.{shl}

abbrev pub Memory : Type 0
Memory = ℕ → ℕ

-- `n` bytes at an address
unfoldable pub store_bytes : (n ptr val : ℕ) → Memory → Memory
store_bytes zero ptr val memory = memory
store_bytes (suc n) ptr val memory =
    store_bytes n (ptr + 1) (val / 256) (put memory ptr (val % 256))

unfoldable pub load_bytes : (n ptr : ℕ) → Memory → ℕ
load_bytes zero ptr memory = 0
load_bytes (suc n) ptr memory = memory ptr + 256 * load_bytes n (ptr + 1) memory

module _ (start_ptr bsg_group_size : ℕ) where
  -- `index` and the first `local_addr` of load_extern_array and get_ptr_val
  unfoldable pub index_of : (ptr elem_size : ℕ) → ℕ
  index_of ptr elem_size = (ptr + (2 ^ 32 - start_ptr)) % 2 ^ 32 / elem_size

  unfoldable pub local_addr_of : (ptr elem_size : ℕ) → ℕ
  local_addr_of ptr elem_size =
      (start_ptr + index_of ptr elem_size / bsg_group_size * elem_size) % 2 ^ 32

  -- `fuel` is the number of rounds; `external` is the memory of the source, `memory` the tile's own.
  unfoldable pub load_loop : (fuel dest src_ptr : ℕ) (external memory : Memory) → Memory
  load_loop zero dest src_ptr external memory = memory
  load_loop (suc fuel) dest src_ptr external memory =
      load_loop fuel (dest + 4) (src_ptr + bsg_group_size * 4) external
        (store_bytes 4 dest (load_bytes 4 src_ptr external) memory)

  unfoldable pub load_extern_array :
      (bsg_id dest_ptr src_ptr num_elems elem_size : ℕ) (external memory : Memory) → Memory
  load_extern_array bsg_id dest_ptr src_ptr num_elems elem_size external memory =
      let dest = local_addr_of dest_ptr elem_size in
      load_loop (num_elems * (elem_size / 4) % 2 ^ 32) dest (src_ptr + bsg_id * 4) external memory

-- The number of the tile that get_ptr_val goes to
unfoldable pub core_id_of : (start_ptr bsg_group_size arr_ptr elem_size : ℕ) → ℕ
core_id_of start_ptr bsg_group_size arr_ptr elem_size =
    index_of start_ptr bsg_group_size arr_ptr elem_size % bsg_group_size

-- What the build sets
pub record Build : Type 0 where
  pub prefix : ℕ
  pub mask_shifts : ℕ
  pub x_cord_shifts : ℕ
  pub y_cord_shifts : ℕ
  pub start_ptr : ℕ
  pub bsg_tiles_x : ℕ
  pub bsg_group_size : ℕ

module _ (b : Build) where
  unfoldable pub get_ptr_val : (arr_ptr elem_size local_offset : ℕ) → ℕ
  get_ptr_val arr_ptr elem_size local_offset =
      let local_addr =
        (local_addr_of b.start_ptr b.bsg_group_size arr_ptr elem_size + local_offset) % 2 ^ 32 in
      let core_id = core_id_of b.start_ptr b.bsg_group_size arr_ptr elem_size in
      let tile_x = core_id / b.bsg_tiles_x in
      let tile_y = core_id % b.bsg_tiles_x in
      bit_or
        (bit_or (bit_or (shl b.prefix b.mask_shifts) (shl tile_x b.x_cord_shifts))
          (shl tile_y b.y_cord_shifts))
        local_addr

  -- The four types by their sizes, with what a store keeps of its value
  unfoldable pub extern_store_float : (arr_ptr elem_size offset val : ℕ) → Memory → Memory
  extern_store_float arr_ptr elem_size offset val =
      store_bytes 4 (get_ptr_val arr_ptr elem_size offset) val

  unfoldable pub extern_store_int : (arr_ptr elem_size offset val : ℕ) → Memory → Memory
  extern_store_int arr_ptr elem_size offset val =
      store_bytes 4 (get_ptr_val arr_ptr elem_size offset) val

  unfoldable pub extern_store_short : (arr_ptr elem_size offset val : ℕ) → Memory → Memory
  extern_store_short arr_ptr elem_size offset val =
      store_bytes 2 (get_ptr_val arr_ptr elem_size offset) val

  unfoldable pub extern_store_char : (arr_ptr elem_size offset val : ℕ) → Memory → Memory
  extern_store_char arr_ptr elem_size offset val =
      store_bytes 1 (get_ptr_val arr_ptr elem_size offset) val

  unfoldable pub extern_load_float : (arr_ptr elem_size offset is_vol : ℕ) → Memory → ℕ
  extern_load_float arr_ptr elem_size offset is_vol memory =
      let ptr = get_ptr_val arr_ptr elem_size offset in
      if is_vol == 0 then load_bytes 4 ptr memory else load_bytes 4 ptr memory

  unfoldable pub extern_load_int : (arr_ptr elem_size offset is_vol : ℕ) → Memory → ℕ
  extern_load_int arr_ptr elem_size offset is_vol memory =
      let ptr = get_ptr_val arr_ptr elem_size offset in
      if is_vol == 0 then load_bytes 4 ptr memory else load_bytes 4 ptr memory

  unfoldable pub extern_load_short : (arr_ptr elem_size offset is_vol : ℕ) → Memory → ℕ
  extern_load_short arr_ptr elem_size offset is_vol memory =
      let ptr = get_ptr_val arr_ptr elem_size offset in
      if is_vol == 0 then load_bytes 2 ptr memory else load_bytes 2 ptr memory

  unfoldable pub extern_load_char : (arr_ptr elem_size offset is_vol : ℕ) → Memory → ℕ
  extern_load_char arr_ptr elem_size offset is_vol memory =
      let ptr = get_ptr_val arr_ptr elem_size offset in
      if is_vol == 0 then load_bytes 1 ptr memory else load_bytes 1 ptr memory

-- `len - sizeof(int)` on an unsigned `len`
abbrev pub less_word : ℕ → ℕ
less_word len = (len + (2 ^ 32 - 4)) % 2 ^ 32

-- `while (len)` of the two copies; no result when the fuel ends first.
unfoldable pub copy_loop : (fuel dest src len : ℕ) → Memory → Option Memory
copy_loop zero dest src len memory = none
copy_loop (suc fuel) dest src len memory =
    let rest =
      copy_loop fuel (dest + 4) (src + 4) (less_word len)
        (store_bytes 4 dest (load_bytes 4 src memory) memory) in
    if len == 0 then some memory else rest

unfoldable pub set_loop : (fuel dest val len : ℕ) → Memory → Option Memory
set_loop zero dest val len memory = none
set_loop (suc fuel) dest val len memory =
    let rest = set_loop fuel (dest + 1) val (less_word len) (put memory dest (val % 256)) in
    if len == 0 then some memory else rest

module _ (b : Build) where
  unfoldable pub extern_load_memcpy : (fuel dest src len : ℕ) → Memory → Option Memory
  extern_load_memcpy fuel dest src len memory =
      let src_base = get_ptr_val b src len 0 in copy_loop fuel dest src_base len memory

  unfoldable pub extern_store_memcpy : (fuel dest src len : ℕ) → Memory → Option Memory
  extern_store_memcpy fuel dest src len memory =
      let dest_base = get_ptr_val b dest len 0 in copy_loop fuel dest_base src len memory

  unfoldable pub extern_memset : (fuel dest val len : ℕ) → Memory → Option Memory
  extern_memset fuel dest val len memory =
      let dest_base = get_ptr_val b dest len 0 in set_loop fuel dest_base val len memory
