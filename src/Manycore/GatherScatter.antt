-- ===== src/Manycore/GatherScatter.antt =====
-- Where the stores of bsg_manycore_gather_scatter.h go. GS_CSR_OFFSET is bit 17 of the address, and
-- a global address gives the endpoint 16 bits.
use no_cgbp_rtl.Base.{ℕ, ◌+◌, ◌-◌, ◌*◌, ◌/◌, ◌%◌, ◌^◌, ◌<◌, ◌≡◌, List, [], ◌∷◌, arith}
use no_cgbp_rtl.Base.Bits.{bit_or-shift, bit_or-high, bit_or_two}
use no_cgbp_rtl.Arch.{global_ptr}
use no_cgbp_rtl.Arch.Layout.{Place, global, place_of}
use no_cgbp_rtl.Manycore.{Access, store, store_uint8, wait, gs_helper}

-- The x coordinate with bit 1 set
abbrev pub with_bit_one : ℕ → ℕ
with_bit_one x = x + 2 * (1 - x / 2 % 2)

global_ptr-bit17 :
    (x y c : ℕ)
    → x < 128
    → y < 128
    → c < 2 ^ 16
    → global_ptr x y (0x20000 + c) ≡ 2 ^ 30 + y * 2 ^ 23 + with_bit_one x * 2 ^ 16 + c
unfolding global_ptr
global_ptr-bit17 x y c hx hy hc =
    rw
      (
        y_fits,
        x_fits,
        bit_or-shift 30 1 (y * 2 ^ 23) (omega arith),
        first,
        bit_or-shift 23 (128 + y) (x * 2 ^ 16) (omega arith),
        second,
        bit_or-high 16 ((128 + y) * 128 + x) 2 c hc,
        bit_or_two ((128 + y) * 128 + x),
      )
      (omega arith)
  where
    y_fits : y * 2 ^ 23 % 2 ^ 32 ≡ y * 2 ^ 23
    y_fits = omega arith

    x_fits : x * 2 ^ 16 % 2 ^ 32 ≡ x * 2 ^ 16
    x_fits = omega arith

    first : 1 * 2 ^ 30 + y * 2 ^ 23 ≡ (128 + y) * 2 ^ 23
    first = omega arith

    second : (128 + y) * 2 ^ 23 + x * 2 ^ 16 ≡ ((128 + y) * 128 + x) * 2 ^ 16
    second = omega arith

place_of-bit17 :
    (x y c : ℕ)
    → x < 128
    → y < 128
    → c < 2 ^ 16
    → place_of (global_ptr x y (0x20000 + c)) ≡ global (with_bit_one x) y c
place_of-bit17 x y c hx hy hc = ground (arith, global_ptr-bit17 x y c hx hy hc)

-- The places of a sequence of accesses
abbrev pub targets : List Access → List Place
targets [] = []
targets (store a v ∷ r) = place_of a ∷ targets r
targets (store_uint8 a v ∷ r) = place_of a ∷ targets r
targets (wait a c ∷ r) = place_of a ∷ targets r

-- For coordinates of seven bits, the four control stores of a gather or a scatter go to the tile whose x coordinate has bit 1 set,
-- which is another tile than the one asked for where that bit of `x` is clear, and to its local
-- addresses 4, 8, 12 and 0, with bit 17 lost; the rest goes to the reserved address.
pub targets-gs_helper :
    (x y eva_base stride access_len reserve_addr scatter : ℕ)
    → x < 128
    → y < 128
    → targets (gs_helper x y eva_base stride access_len reserve_addr scatter)
      ≡ global (with_bit_one x) y 4
        ∷ global (with_bit_one x) y 8
        ∷ global (with_bit_one x) y 12
        ∷ global (with_bit_one x) y 0
        ∷ place_of reserve_addr
        ∷ place_of reserve_addr
        ∷ []
unfolding gs_helper
targets-gs_helper x y eva_base stride access_len reserve_addr scatter hx hy = rw (
  place_of-bit17 x y 4 hx hy (omega arith),
  place_of-bit17 x y 8 hx hy (omega arith),
  place_of-bit17 x y 12 hx hy (omega arith),
  place_of-bit17 x y 0 hx hy (omega arith),
)
