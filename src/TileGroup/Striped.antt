-- ===== src/TileGroup/Striped.antt =====
-- Where the initial values of a striped array go.
use no_cgbp_rtl.Base.{
  ℕ, bit_or, zero, suc, ◌+◌, ◌*◌, ◌/◌, ◌%◌, ◌^◌, ◌<◌, ◌≤◌, ◌≡◌, inl, refl, ap, ◌∙◌, arith,
}
use native.Mathlib.Nat.{mul-le-mul_left, mod-lt, div-le_self, div-add-mod'}
use no_cgbp_rtl.Base.Digits.{digit_quot, digit_rem}
use no_cgbp_rtl.TileGroup.{
  Memory, store_bytes, load_bytes, index_of, local_addr_of, core_id_of, load_loop,
  load_extern_array, Build, get_ptr_val,
}
use no_cgbp_rtl.Arch.{shl}
use no_cgbp_rtl.TileGroup.Bytes.{store_bytes_outside, load_bytes-store_bytes, load_bytes-ext}

module _ (start_ptr group : ℕ) where
  load_loop_before :
      (n dest src : ℕ) (external m : Memory) (q : ℕ)
      → q < dest
      → load_loop start_ptr group n dest src external m q ≡ m q
  unfolding load_loop
  load_loop_before zero dest src external m q h = refl
  load_loop_before (suc n) dest src external m q h =
      load_loop_before n (dest + 4) (src + group * 4) external _ q (omega arith)
      ∙ store_bytes_outside 4 dest _ m q (inl h)

  load_loop_lem :
      (n dest src j : ℕ) (external m : Memory)
      → j < n
      → load_bytes 4 (dest + j * 4) (load_loop start_ptr group n dest src external m)
        ≡ load_bytes 4 (src + group * j * 4) external % 2 ^ 32
  unfolding load_loop
  load_loop_lem zero dest src j external m h = absurd (omega arith)
  load_loop_lem (suc n) dest src zero external m h =
      load_bytes-ext 4 (dest + 0) _ (store_bytes 4 dest (load_bytes 4 src external) m)
        (λ q lo hi. load_loop_before n (dest + 4) (src + group * 4) external _ q (omega arith))
      ∙ ap (λ (p : ℕ). load_bytes 4 p (store_bytes 4 dest (load_bytes 4 src external) m))
          (omega arith)
      ∙ load_bytes-store_bytes 4 dest (load_bytes 4 src external) m
      ∙ ap (λ (p : ℕ). load_bytes 4 p external % 2 ^ 32) (omega arith)
  load_loop_lem (suc n) dest src (suc j) external m h =
      ap (λ (p : ℕ). load_bytes 4 p (load_loop start_ptr group (suc n) dest src external m))
        (omega arith)
      ∙ load_loop_lem n (dest + 4) (src + group * 4) j external
          (store_bytes 4 dest (load_bytes 4 src external) m) (omega arith)
      ∙ ap (λ (p : ℕ). load_bytes 4 p external % 2 ^ 32) further
    where
      further : src + group * 4 + group * j * 4 ≡ src + group * suc j * 4
      further = omega arith

  -- An array of words that begins `a` rounds after the start; element `j * group + t`
  module _ (a j t : ℕ) (tile : t < group) where
    abbrev word_ptr : ℕ
    word_ptr = start_ptr + (group * a + (j * group + t)) * 4

    index_word : word_ptr < 2 ^ 32 → index_of start_ptr group word_ptr 4 ≡ (a + j) * group + t
    unfolding index_of
    index_word fits = omega arith

    local_word :
        word_ptr < 2 ^ 32 → local_addr_of start_ptr group word_ptr 4 ≡ start_ptr + (a + j) * 4
    unfolding local_addr_of
    local_word fits = rw (index_word fits, digit_quot group (a + j) t tile) (omega (arith, rounds))
      where
        rounds : a + j ≤ (a + j) * group
        rounds = omega (arith, mul-le-mul_left {m = 1} {n = group} (a + j) (omega arith))

    core_word : word_ptr < 2 ^ 32 → core_id_of start_ptr group word_ptr 4 ≡ t
    unfolding core_id_of
    core_word fits = rw (index_word fits) (digit_rem group (a + j) t tile)

  -- The tile with number `t` fills its part of an array that begins at a whole round with every
  -- `group`-th initial value from number `t` on.
  loaded :
      (a j t src_ptr num_elems : ℕ) (external memory : Memory)
      → 1 ≤ group
      → j < num_elems
      → num_elems < 2 ^ 32
      → start_ptr + group * a * 4 < 2 ^ 32
      → load_bytes 4 (start_ptr + (a + j) * 4) (
          load_extern_array start_ptr group t
            (start_ptr + group * a * 4)
            src_ptr
            num_elems
            4
            external
            memory)
        ≡ load_bytes 4 (src_ptr + (j * group + t) * 4) external % 2 ^ 32
  unfolding load_extern_array
  loaded a j t src_ptr num_elems external memory some within few fits =
      rw (arr_local, count, shift)
        (load_loop_lem num_elems (start_ptr + a * 4) (src_ptr + t * 4) j external memory within
          ∙ ap (λ (p : ℕ). load_bytes 4 p external % 2 ^ 32) place)
    where
      arr_local : local_addr_of start_ptr group (start_ptr + group * a * 4) 4 ≡ start_ptr + a * 4
      arr_local =
          ap (λ (p : ℕ). local_addr_of start_ptr group p 4) (omega arith)
          ∙ local_word a 0 0 some (omega arith)
          ∙ omega arith

      count : num_elems * (4 / 4) % 2 ^ 32 ≡ num_elems
      count = omega arith

      shift : start_ptr + (a + j) * 4 ≡ start_ptr + a * 4 + j * 4
      shift = omega arith

      place : src_ptr + t * 4 + group * j * 4 ≡ src_ptr + (j * group + t) * 4
      place = omega arith

-- In a square group of `n` by `n` tiles, for an array of words that begins at a whole round of tiles
-- and its element `e`, in one of the array's `num_elems` rounds and below 2^32: get_ptr_val points to
-- the tile in column `c / n` and row `c % n`, where `c` is `e % (n * n)`, and to the word of the
-- element's round there. In that word load_extern_array, run by that tile under its row-by-row number
-- `c % n * n + c / n`, leaves the initial value of that round and number: so element `e` is read as the
-- initial value of `e` only where `c / n` and `c % n` agree, and else as another one's.
pub get_ptr_val-load_extern_array :
    (b : Build) (n a e src_ptr num_elems : ℕ) (external memory : Memory)
    → 1 ≤ n
    → b.bsg_tiles_x ≡ n
    → b.bsg_group_size ≡ n * n
    → e / (n * n) < num_elems
    → num_elems < 2 ^ 32
    → b.start_ptr + (n * n * a + e) * 4 < 2 ^ 32
    → (let arr_ptr = b.start_ptr + n * n * a * 4 in
        let local_addr = b.start_ptr + (a + e / (n * n)) * 4 in
        let x = e % (n * n) / n in
        let y = e % (n * n) % n in
        (get_ptr_val b (arr_ptr + e * 4) 4 0
          ≡ bit_or
              (bit_or
                (bit_or (shl b.prefix b.mask_shifts) (shl x b.x_cord_shifts))
                (shl y b.y_cord_shifts))
              local_addr)
        × (load_bytes 4 local_addr (
              load_extern_array b.start_ptr b.bsg_group_size
                (y * n + x)
                arr_ptr
                src_ptr
                num_elems
                4
                external
                memory)
            ≡ load_bytes 4 (src_ptr + (e / (n * n) * (n * n) + (y * n + x)) * 4) external % 2 ^ 32))
unfolding get_ptr_val
get_ptr_val-load_extern_array b n a e src_ptr num_elems external memory some row square within few
      fits =
    let group = n * n in
    (
      rw (row, square, elem_local, elem_core, no_offset) refl,
      rw square (
          loaded b.start_ptr (n * n) a (e / (n * n)) (e % (n * n) % n * n + e % (n * n) / n) src_ptr
            num_elems external memory group_some within few (omega arith)),
    )
  where
    group_some : 1 ≤ n * n
    group_some = grind arith

    tile : e % (n * n) < n * n
    tile = mod-lt e group_some

    whole : e / (n * n) * (n * n) + e % (n * n) ≡ e
    whole = div-add-mod' e (n * n)

    same :
        b.start_ptr + n * n * a * 4 + e * 4
        ≡ b.start_ptr + (n * n * a + (e / (n * n) * (n * n) + e % (n * n))) * 4
    same = omega (arith, whole)

    elem_fits : b.start_ptr + (n * n * a + (e / (n * n) * (n * n) + e % (n * n))) * 4 < 2 ^ 32
    elem_fits = omega (arith, whole)

    elem_local :
        local_addr_of b.start_ptr (n * n) (b.start_ptr + n * n * a * 4 + e * 4) 4
        ≡ b.start_ptr + (a + e / (n * n)) * 4
    elem_local =
        ap (λ (p : ℕ). local_addr_of b.start_ptr (n * n) p 4) same
        ∙ local_word b.start_ptr (n * n) a (e / (n * n)) (e % (n * n)) tile elem_fits

    elem_core : core_id_of b.start_ptr (n * n) (b.start_ptr + n * n * a * 4 + e * 4) 4 ≡ e % (n * n)
    elem_core =
        ap (λ (p : ℕ). core_id_of b.start_ptr (n * n) p 4) same
        ∙ core_word b.start_ptr (n * n) a (e / (n * n)) (e % (n * n)) tile elem_fits

    no_offset :
        (b.start_ptr + (a + e / (n * n)) * 4 + 0) % 2 ^ 32 ≡ b.start_ptr + (a + e / (n * n)) * 4
    no_offset =
        omega (arith, fits, mul-le-mul_left {m = 1} {n = n * n} a group_some, div-le_self e (n * n))
