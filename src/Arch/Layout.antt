-- ===== src/Arch/Layout.antt =====
-- The fields of an address, read back as the formats at the head of bsg_manycore_arch.h lay them
-- out: {01YY_YYYY_YXXX_XXXX_P..} is global, {001Y_YYYY_XXXX_XXPP_P..} remote, {1PPP_P..} DRAM.
use no_cgbp_rtl.Base.{ℕ, ◌+◌, ◌*◌, ◌/◌, ◌%◌, ◌^◌, ◌<◌, bit_or, ◌≡◌, arith, leb, if◌then◌else◌}
use no_cgbp_rtl.Base.Bits.{bit_or-shift, bit_and-mask}
use no_cgbp_rtl.Arch.{remote_ptr, global_ptr, dram_ptr, host_dram_ptr, local_ptr}

-- Three fields below a prefix bit, at positions `p`, `k` and `j`.
pub or_fields :
    (p k j y x a : ℕ)
    → y * 2 ^ k < 2 ^ p
    → x * 2 ^ j < 2 ^ k
    → a < 2 ^ j
    → (c d : ℕ) → 2 ^ p + y * 2 ^ k ≡ c * 2 ^ k
    → c * 2 ^ k + x * 2 ^ j ≡ d * 2 ^ j
    → bit_or (bit_or (bit_or (1 * 2 ^ p) (y * 2 ^ k)) (x * 2 ^ j)) a
      ≡ 2 ^ p + y * 2 ^ k + x * 2 ^ j + a
or_fields p k j y x a hy hx ha c d ec ed =
    rw
      (
        bit_or-shift p 1 (y * 2 ^ k) hy,
        first,
        bit_or-shift k c (x * 2 ^ j) hx,
        ed,
        bit_or-shift j d a ha,
      )
      (omega arith)
  where
    first : 1 * 2 ^ p + y * 2 ^ k ≡ c * 2 ^ k
    first = omega arith

-- A remote pointer, of coordinates and a local address that fit, is the sum of its fields.
pub remote_ptr-sum :
    (x y a : ℕ)
    → x < 64
    → y < 32
    → a < 2 ^ 18
    → remote_ptr x y a ≡ 2 ^ 29 + y * 2 ^ 24 + x * 2 ^ 18 + a
unfolding remote_ptr
remote_ptr-sum x y a hx hy ha = rw (y_fits, x_fits) sum
  where
    y_fits : y * 2 ^ 24 % 2 ^ 32 ≡ y * 2 ^ 24
    y_fits = omega arith

    x_fits : x * 2 ^ 18 % 2 ^ 32 ≡ x * 2 ^ 18
    x_fits = omega arith

    sum :
        bit_or (bit_or (bit_or (1 * 2 ^ 29) (y * 2 ^ 24)) (x * 2 ^ 18)) a
        ≡ 2 ^ 29 + y * 2 ^ 24 + x * 2 ^ 18 + a
    sum =
        or_fields 29 24 18 y x a (omega arith) (omega arith) ha (32 + y) ((32 + y) * 64 + x)
          (omega arith) (omega arith)

-- A global pointer, of coordinates and a local address that fit, is the sum of its fields.
pub global_ptr-sum :
    (x y a : ℕ)
    → x < 128
    → y < 128
    → a < 2 ^ 16
    → global_ptr x y a ≡ 2 ^ 30 + y * 2 ^ 23 + x * 2 ^ 16 + a
unfolding global_ptr
global_ptr-sum x y a hx hy ha = rw (y_fits, x_fits) sum
  where
    y_fits : y * 2 ^ 23 % 2 ^ 32 ≡ y * 2 ^ 23
    y_fits = omega arith

    x_fits : x * 2 ^ 16 % 2 ^ 32 ≡ x * 2 ^ 16
    x_fits = omega arith

    sum :
        bit_or (bit_or (bit_or (1 * 2 ^ 30) (y * 2 ^ 23)) (x * 2 ^ 16)) a
        ≡ 2 ^ 30 + y * 2 ^ 23 + x * 2 ^ 16 + a
    sum =
        or_fields 30 23 16 y x a (omega arith) (omega arith) ha (128 + y) ((128 + y) * 128 + x)
          (omega arith) (omega arith)

-- What the format comment says of an address: which kind it is and its fields.
pub data Place : Type 0 where
  global : (x y epa : ℕ) → Place
  remote : (x y epa : ℕ) → Place
  dram : (addr : ℕ) → Place
  local : (addr : ℕ) → Place

-- The prefixes are read from the top bit down: 1, 01, 001.
abbrev pub place_of : ℕ → Place
place_of p =
    if leb (2 ^ 31) p
    then dram (p % 2 ^ 31)
    else if leb (2 ^ 30) p
    then global (p / 2 ^ 16 % 2 ^ 7) (p / 2 ^ 23 % 2 ^ 7) (p % 2 ^ 16)
    else if leb (2 ^ 29) p
    then remote (p / 2 ^ 18 % 2 ^ 6) (p / 2 ^ 24 % 2 ^ 5) (p % 2 ^ 18)
    else local p

-- A remote pointer whose coordinates and local address fit their fields is read by the format as
-- the remote place that it was made for, and `bsg_local_ptr` gives back its local address.
pub place_of-remote_ptr :
    (x y a : ℕ)
    → x < 64
    → y < 32
    → a < 2 ^ 18
    → (place_of (remote_ptr x y a) ≡ remote x y a) × (local_ptr (remote_ptr x y a) ≡ a)
unfolding local_ptr
place_of-remote_ptr x y a hx hy ha = (
  ground (arith, remote_ptr-sum x y a hx hy ha),
  omega (arith, bit_and-mask 18 (remote_ptr x y a), remote_ptr-sum x y a hx hy ha),
)

-- A global pointer whose coordinates and local address fit is read as the global place that it was
-- made for.
pub place_of-global_ptr :
    (x y a : ℕ) → x < 128 → y < 128 → a < 2 ^ 16 → place_of (global_ptr x y a) ≡ global x y a
place_of-global_ptr x y a hx hy ha = ground (arith, global_ptr-sum x y a hx hy ha)

-- A DRAM pointer to an address below 2^31 is read as that DRAM address.
pub place_of-dram_ptr : (a : ℕ) → a < 2 ^ 31 → place_of (dram_ptr a) ≡ dram a
unfolding dram_ptr
place_of-dram_ptr a ha = ground (arith, bit_or-shift 31 1 a ha)

-- A host DRAM pointer to an address below 2^30 is read as a DRAM address in the upper half.
pub place_of-host_dram_ptr : (a : ℕ) → a < 2 ^ 30 → place_of (host_dram_ptr a) ≡ dram (2 ^ 30 + a)
unfolding host_dram_ptr
place_of-host_dram_ptr a ha = ground (arith, bit_or-shift 30 3 a ha)
