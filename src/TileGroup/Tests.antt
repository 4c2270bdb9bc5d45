-- ===== src/TileGroup/Tests.antt =====
-- A group of two by two tiles, and an array of its memory.
use no_cgbp_rtl.Arch.{shl}
use no_cgbp_rtl.Base.{
  ℕ, ◌*◌, bit_or, ◌+◌, ◌%◌, ◌^◌, ◌≡◌, refl, ltb, leb, ◌&&◌, if◌then◌else◌, none, some, arith,
}
use no_cgbp_rtl.TileGroup.{
  Memory, Build, get_ptr_val, load_bytes, local_addr_of, core_id_of, load_extern_array,
  extern_load_memcpy, extern_store_memcpy, extern_memset, extern_store_int, extern_store_float,
  extern_store_short, extern_store_char, extern_load_int, extern_load_float, extern_load_short,
  extern_load_char,
}
use no_cgbp_rtl.TileGroup.Striped.{get_ptr_val-load_extern_array}
use no_cgbp_rtl.TileGroup.Copies.{extern-diverges, extern_memset-quarter}

abbrev build : Build
build = record {
  prefix = 1;
  mask_shifts = 30;
  x_cord_shifts = 18;
  y_cord_shifts = 24;
  start_ptr = 256;
  bsg_tiles_x = 2;
  bsg_group_size = 4;
}

abbrev small : Memory
small p = p % 256

-- The fifth word lies in the second round at tile 0, the second one at tile 1.
fifth : get_ptr_val build 272 4 0 ≡ 2 ^ 30 + 260
unfolding get_ptr_val no_cgbp_rtl.TileGroup.local_addr_of no_cgbp_rtl.TileGroup.index_of
    no_cgbp_rtl.TileGroup.core_id_of
fifth = refl

-- Tile number 1 is x = 1, y = 0 in its group, but the pointer goes to x = 0, y = 1.
second : get_ptr_val build 260 4 0 ≡ 2 ^ 30 + 2 ^ 24 + 256
unfolding get_ptr_val no_cgbp_rtl.TileGroup.local_addr_of no_cgbp_rtl.TileGroup.index_of
    no_cgbp_rtl.TileGroup.core_id_of
second = refl

-- Element 5 is read as number 2 of its round, which is element 6.
get_ptr_val-load_extern_array_example :
    (get_ptr_val build (256 + 5 * 4) 4 0
      ≡ bit_or (bit_or (bit_or (shl 1 30) (shl 0 18)) (shl 1 24)) 260)
    × (load_bytes 4 260 (load_extern_array 256 4 2 256 4096 2 4 small small)
        ≡ load_bytes 4 (4096 + 6 * 4) small % 2 ^ 32)
get_ptr_val-load_extern_array_example =
    get_ptr_val-load_extern_array build 2 0 5 4096 2 small small (omega arith) refl refl
      (omega arith) (omega arith) (omega arith)

extern-diverges_example :
    (extern_load_memcpy build 100 0 256 6 small ≡ none)
    × (extern_store_memcpy build 100 0 256 6 small ≡ none)
    × (extern_memset build 100 0 7 6 small ≡ none)
extern-diverges_example = extern-diverges build 100 0 256 7 6 small (omega arith)

structure : get_ptr_val build 256 8 0 ≡ 2 ^ 30 + 256
unfolding get_ptr_val no_cgbp_rtl.TileGroup.local_addr_of no_cgbp_rtl.TileGroup.index_of
    no_cgbp_rtl.TileGroup.core_id_of
structure = refl

extern_memset-quarter_example :
    (k : Memory) × (extern_memset build 3 256 7 8 small ≡ some k)
    × ((q : ℕ)
        → k q ≡ (
            if leb (get_ptr_val build 256 8 0) q && ltb q (get_ptr_val build 256 8 0 + 2)
            then 7
            else small q))
extern_memset-quarter_example =
    extern_memset-quarter build 3 256 7 8 small (omega arith) (omega arith) (omega arith)
