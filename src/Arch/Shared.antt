-- ===== src/Arch/Shared.antt =====
-- Addresses computed from indices: pods by their coordinates, and arrays shared by a tile group
-- (bsg_tile_group_shared_ptr of bsg_manycore_arch.h, bsg_tile_group_shared_mem of bsg_manycore.h).
use no_cgbp_rtl.Base.{ℕ, ◌+◌, ◌-◌, ◌*◌, ◌/◌, ◌%◌, ◌^◌, ◌<◌, ◌≤◌, ◌≡◌, refl, arith}
use native.Mathlib.Nat.{div-div-eq-div-mul, div-add-mod'}
use no_cgbp_rtl.Base.Digits.{digit_quot, digit_rem}
use no_cgbp_rtl.Arch.{global_ptr, global_pod_ptr, shared_ptr}
use no_cgbp_rtl.Arch.Layout.{
  Place, global, remote, place_of, global_ptr-sum, place_of-global_ptr, place_of-remote_ptr,
}

-- `bsg_global_pod_ptr` is a global pointer at the pod's corner plus the subcoordinate.
pub global_pod_ptr-eq-global_ptr :
    (gx gy px py x y a : ℕ)
    → global_pod_ptr gx gy px py x y a ≡ global_ptr ((px + 1) * gx + x) ((1 + py * 2) * gy + y) a
unfolding global_pod_ptr global_ptr
global_pod_ptr-eq-global_ptr gx gy px py x y a = refl

-- Coordinates of a pod and of a tile in it, read back from the global coordinates.
abbrev pub pod_of : (gx gy : ℕ) → Place → ℕ × ℕ × ℕ × ℕ
pod_of gx gy (global x y epa) = (x / gx - 1, (y / gy - 1) / 2, x % gx, y % gy)
pod_of gx gy _ = (0, 0, 0, 0)

half_odd : (py : ℕ) → (1 + py * 2 - 1) / 2 ≡ py
half_odd py = omega arith

less_one : (px : ℕ) → px + 1 - 1 ≡ px
less_one px = omega arith

-- Where the global coordinates fit seven bits, a pod pointer determines its pod and the tile in the
-- pod, both read back from the pattern, and its low bits are the local address.
pub pod_of-global_pod_ptr :
    (gx gy px py x y a : ℕ)
    → x < gx
    → y < gy
    → (px + 1) * gx + x < 128
    → (1 + py * 2) * gy + y < 128
    → a < 2 ^ 16
    → (pod_of gx gy (place_of (global_pod_ptr gx gy px py x y a)) ≡ (px, py, x, y))
      × (global_pod_ptr gx gy px py x y a % 2 ^ 16 ≡ a)
pod_of-global_pod_ptr gx gy px py x y a hx hy bx by ha =
    rw global_pod_ptr-eq-global_ptr (coordinates, low)
  where
    coordinates :
        pod_of gx gy (place_of (global_ptr ((px + 1) * gx + x) ((1 + py * 2) * gy + y) a))
        ≡ (px, py, x, y)
    coordinates = rw (
      place_of-global_ptr _ _ a bx by ha,
      digit_quot gx (px + 1) x hx,
      digit_quot gy (1 + py * 2) y hy,
      digit_rem gx (px + 1) x hx,
      digit_rem gy (1 + py * 2) y hy,
      less_one px,
      half_odd py,
    )

    low : global_ptr ((px + 1) * gx + x) ((1 + py * 2) * gy + y) a % 2 ^ 16 ≡ a
    low = omega (arith, global_ptr-sum ((px + 1) * gx + x) ((1 + py * 2) * gy + y) a bx by ha)

-- The number of elements that `bsg_tile_group_shared_mem` gives each tile, for `size` in all
abbrev pub shared_mem : (tiles_x tiles_y size : ℕ) → ℕ
shared_mem tiles_x tiles_y size = (size + (tiles_x * tiles_y - 1)) / (tiles_x * tiles_y)

slot_in_range : (g i size : ℕ) → 0 < g → i < size → i / g < (size + (g - 1)) / g
slot_in_range g i size pos h = grind arith

-- Where the tile's coordinates and its part of the array fit the remote format, the pointer to
-- element `index` of a shared array of `count` elements is read as tile (index % X, index / X % Y),
-- a tile of the group, and as slot index / (X * Y) of its part, a slot that the part has.
pub place_of-shared_ptr :
    (tx ty size lc count index : ℕ)
    → 0 < tx
    → tx ≤ 64
    → 0 < ty
    → ty ≤ 32
    → index < count
    → lc + size * (index / (tx * ty)) < 2 ^ 18
    → (place_of (shared_ptr tx ty size lc index)
        ≡ remote (index % tx) (index / tx % ty) (lc + size * (index / (tx * ty))))
      × (index % tx < tx)
      × (index / tx % ty < ty)
      × (index / (tx * ty) < shared_mem tx ty count)
unfolding shared_ptr
place_of-shared_ptr tx ty size lc count index px bx py by h fits = (
  (place_of-remote_ptr _ _ _ (omega arith) (omega arith) fits).0,
  omega arith,
  omega arith,
  slot_in_range (tx * ty) index count (grind arith) h,
)

-- The index of a shared element, from the tile and the slot that hold it
abbrev pub index_of : (tiles_x tiles_y size lc_sh : ℕ) → Place → ℕ
index_of tiles_x tiles_y size lc_sh (remote x y epa) =
    ((epa - lc_sh) / size * tiles_y + y) * tiles_x + x
index_of tiles_x tiles_y size lc_sh _ = 0

join_digits : (tx ty i : ℕ) → (i / (tx * ty) * ty + i / tx % ty) * tx + i % tx ≡ i
join_digits tx ty i =
    rw (← div-div-eq-div-mul i tx ty, div-add-mod' (i / tx) ty) (div-add-mod' i tx)

slot_back : (lc size k : ℕ) → 0 < size → (lc + size * k - lc) / size ≡ k
slot_back lc size k pos = grind arith

-- Where the group and the element's place fit the remote format and elements have a size, no two
-- elements of a shared array share a place: the index is read back from the pointer.
pub index_of-shared_ptr :
    (tx ty size lc index : ℕ)
    → 0 < tx
    → tx ≤ 64
    → 0 < ty
    → ty ≤ 32
    → 0 < size
    → lc + size * (index / (tx * ty)) < 2 ^ 18
    → index_of tx ty size lc (place_of (shared_ptr tx ty size lc index)) ≡ index
index_of-shared_ptr tx ty size lc index px bx py by ps fits =
    rw
      (
        (place_of-shared_ptr tx ty size lc (index + 1) index px bx py by (omega arith) fits).0,
        slot_back lc size (index / (tx * ty)) ps,
      )
      (join_digits tx ty index)
