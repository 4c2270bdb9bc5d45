-- ===== src/RemoteCrc/FirstWord.antt =====
-- That crc32 takes in one word only, since its loops share `i`.
use mathlib.Core.Option.{bind}
use no_cgbp_rtl.Base.{
  drop, ℕ, zero, suc, ◌+◌, ◌*◌, ◌/◌, ◌%◌, ◌^◌, ◌≤◌, ◌≡◌, bit_xor, none, some, List, [], ◌∷◌, ◌&&◌,
  ltb, ◌==◌, if◌then◌else◌, refl, inl, inr, Bool-cases, true, false, arith,
}
use no_cgbp_rtl.Manycore.{Access, store, remote_ptr_io, finish, fail}
use no_cgbp_rtl.RemoteCrc.{
  divide_bits, xy_id, crc32_loop, crc32, data_vec, coordinates, proc0_loop, proc0, vec_len,
}

-- One word divided
unfoldable pub digest : ℕ → ℕ
digest word = divide_bits 32 (bit_xor 0xffffffff word)

-- From the second round on the loop ends at once, or never.
later_rounds :
    (fuel size next crc : ℕ) (addr : ℕ → ℕ)
    → crc32_loop (suc fuel) (32 + 1) size addr next crc ≡ (if ltb 33 size then none else some crc)
unfolding crc32_loop
later_rounds fuel size next crc addr = elim (Bool-cases (ltb 33 size)) [
  | inl e ↦ rw e (never fuel next crc e)
  | inr e ↦ rw e refl
]
  where
    never :
        (fuel next crc : ℕ)
        → ltb 33 size ≡ true
        → crc32_loop fuel (32 + 1) size addr (next + 1) (divide_bits 32 (bit_xor crc (addr next)))
          ≡ none
    never zero next crc e = refl
    never (suc fuel) next crc e =
        rw e (never fuel (next + 1) (divide_bits 32 (bit_xor crc (addr next))) e)

-- Whatever the words and the size, with a fuel of at least two: for no words crc32 returns 0xffffffff;
-- for up to 33 it returns the digest of the first one, and the others have no part in it; for more it
-- does not end.
pub crc32_lem :
    (fuel size : ℕ) (addr : ℕ → ℕ)
    → 2 ≤ fuel
    → crc32 fuel addr size ≡ (
        if size == 0
        then some 0xffffffff
        else (if ltb 33 size then none else some (digest (addr 0))))
unfolding crc32 crc32_loop digest
crc32_lem zero size addr enough = absurd (omega arith)
crc32_lem (suc zero) size addr enough = absurd (omega arith)
crc32_lem (suc (suc fuel)) zero addr enough = refl
crc32_lem (suc (suc fuel)) (suc size) addr enough =
    rw (positive size, not_zero size) (later_rounds fuel (suc size) 1 (digest (addr 0)) addr)
  where
    positive : (n : ℕ) → ltb 0 (suc n) ≡ true
    positive n = ground arith

    not_zero : (n : ℕ) → (suc n == 0) ≡ false
    not_zero n = ground arith

module _ (io_x io_y : ℕ) where
  -- Checksums up to the first that is not `first`, and the verdict
  unfoldable pub told : (first : ℕ) → List ℕ → List Access
  told first [] = finish io_x io_y 0 0 ∷ []
  told first (sum ∷ sums) =
      let rest = told first sums in
      store (remote_ptr_io io_y io_x 0) sum
      ∷ (if sum == first then rest else fail io_x io_y 0 0 ∷ [])

  -- The digest of the first word of each tile
  abbrev pub digests : (load : (x y i : ℕ) → ℕ) → List (ℕ × ℕ) → List ℕ
  digests load [] = []
  digests load ((x, y) ∷ tiles) = digest (data_vec load x y 0) ∷ digests load tiles

  module _ (fuel : ℕ) (load : (x y i : ℕ) → ℕ) (enough : 2 ≤ fuel) where
    abbrev first_sum : ℕ
    first_sum = digest (data_vec load 0 0 0)

    summed :
        (x y : ℕ) → crc32 fuel (data_vec load x y) vec_len ≡ some (digest (data_vec load x y 0))
    summed x y = crc32_lem fuel vec_len (data_vec load x y) enough

    says-told :
        (tiles : List (ℕ × ℕ))
        → proc0_loop io_x io_y fuel load tiles first_sum
          ≡ some (told first_sum (digests load tiles))
    unfolding proc0_loop told bind
    says-told [] = refl
    says-told ((x, y) ∷ tiles) = elim (Bool-cases (x == 0 && y == 0)) [
      | inl e ↦
          let here = origin x y e in
          rw (summed x y, e, here.0, here.1, equal first_sum, says-told tiles) refl
      | inr e ↦ elim (Bool-cases (digest (data_vec load x y 0) == first_sum)) [
        | inl same ↦ rw (summed x y, e, same, says-told tiles) refl
        | inr differs ↦ rw (summed x y, e, differs) refl
      ]
    ]
      where
        equal : (a : ℕ) → (a == a) ≡ true
        equal a = ground arith

        origin : (x y : ℕ) → (x == 0 && y == 0) ≡ true → (x ≡ 0) × (y ≡ 0)
        origin x y e = (ground arith, ground arith)

  -- The digests of `n` tiles from number `k` on: tile `k` is in column `k % 4` of row `k / 4`, and has
  -- its number in the top byte of its first word.
  abbrev pub row_digests : (load : (x y i : ℕ) → ℕ) → (k n : ℕ) → List ℕ
  row_digests load k zero = []
  row_digests load k (suc n) =
      digest (bit_xor (load (k % 4) (k / 4) 0) (k * 2 ^ 24)) ∷ row_digests load (k + 1) n

  digests-row_digests : (load : (x y i : ℕ) → ℕ) → digests load coordinates ≡ row_digests load 0 16
  unfolding xy_id
  digests-row_digests load = refl

  -- Whatever the remote loads return and `check_sum0` holds at first, with a fuel of at least two: proc0
  -- ends. Tile by tile, the sixteen of them row by row, it sends the digest of the tile's first word
  -- with the tile's number taken off the top byte, up to the first that differs from the one of tile 0,
  -- and then bsg_fail; and when none differs, all of them and bsg_finish. So the other words have no
  -- part in the verdict.
  pub proc0_lem :
      (fuel : ℕ) (load : (x y i : ℕ) → ℕ) (check_sum0 : ℕ)
      → 2 ≤ fuel
      → proc0 io_x io_y fuel load check_sum0
        ≡ some (told (digest (bit_xor (load 0 0 0) 0)) (row_digests load 0 16))
  unfolding proc0 proc0_loop told bind xy_id
  proc0_lem fuel load check_sum0 enough =
      rw
        (
          summed fuel load enough 0 0,
          says-told fuel load enough (drop 1 coordinates),
          equal (first_sum fuel load enough),
        )
        refl
    where
      equal : (a : ℕ) → (a == a) ≡ true
      equal a = ground arith
