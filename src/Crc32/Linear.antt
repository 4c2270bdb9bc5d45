-- ===== src/Crc32/Linear.antt =====
-- Eight steps of the bitwise CRC are one step through the table.
use no_cgbp_rtl.Base.{
  ℕ, zero, suc, ◌*◌, ◌/◌, ◌%◌, ◌^◌, ◌<◌, bit_xor, List, [], ◌∷◌, get_or, ◌==◌, holds_below,
  holds_below→, ==_iff, Bool, true, false, if◌then◌else◌, All, ◌≡◌, refl, sym, ap, ◌∙◌, arith,
}
use no_cgbp_rtl.Base.Bits.{bit_and-mask}
use mathlib.Core.Path.{ap₂}
use no_cgbp_rtl.Base.Xor.{
  bit_xor-zero, bit_xor_assoc, bit_xor-shift, bit_xor-half_shifted, bit_xor-parity_shifted,
  bit_xor_fields,
}
use no_cgbp_rtl.Crc32.{
  table_index, crc_step, crc_loop, crc, crc_bit, crc_bits, bitwise_loop, bitwise_crc,
}
use no_cgbp_rtl.Crc32.Table.{table}

conditional :
    (b : Bool) (x y p : ℕ)
    → (if b then bit_xor (bit_xor x y) p else bit_xor x y)
      ≡ bit_xor x (if b then bit_xor y p else y)
conditional true x y p = bit_xor_assoc x y p
conditional false x y p = refl

-- A bit above the lowest one stays apart.
bit_apart : (k h l : ℕ) → crc_bit (bit_xor (h * 2 ^ suc k) l) ≡ bit_xor (h * 2 ^ k) (crc_bit l)
unfolding crc_bit
bit_apart k h l =
    rw (bit_xor-half_shifted k h l, bit_xor-parity_shifted k h l)
      (conditional (l % 2 == 1) (h * 2 ^ k) (l / 2) 0xedb88320)

bits_apart : (k h l : ℕ) → crc_bits k (bit_xor (h * 2 ^ k) l) ≡ bit_xor (h * 2 ^ 0) (crc_bits k l)
unfolding crc_bits
bits_apart zero h l = refl
bits_apart (suc k) h l = rw (bit_apart k h l) (bits_apart k h (crc_bit l))

is_entry : ℕ → Bool
is_entry n = crc_bits 8 n == get_or table n 0

entries : holds_below is_entry 256 ≡ true
unfolding is_entry holds_below crc_bits crc_bit table
entries = refl

is_entry_lem : (n : ℕ) → n < 256 → crc_bits 8 n ≡ get_or table n 0
unfolding is_entry
is_entry_lem n h =
    (==_iff (crc_bits 8 n) (get_or table n 0)).0 (holds_below→ is_entry 256 n entries h)

eight_bits : (c : ℕ) → crc_bits 8 c ≡ bit_xor (c / 2 ^ 8) (get_or table (c % 2 ^ 8) 0)
eight_bits c =
    ap (crc_bits 8) (omega arith ∙ sym (bit_xor_fields 8 (c / 2 ^ 8) (c % 2 ^ 8) (omega arith)))
    ∙ bits_apart 8 (c / 2 ^ 8) (c % 2 ^ 8)
    ∙ ap₂ bit_xor (omega arith) (is_entry_lem (c % 2 ^ 8) (omega arith))

-- A byte is below the shift of a step.
byte_gone : (crc byte : ℕ) → byte < 256 → bit_xor crc byte / 2 ^ 8 ≡ crc / 2 ^ 8
byte_gone crc byte h =
    bit_xor-shift 8 crc byte ∙ ap (bit_xor (crc / 2 ^ 8)) (omega arith) ∙ bit_xor-zero (crc / 2 ^ 8)

step_lem : (crc byte : ℕ) → byte < 256 → crc_step crc byte ≡ crc_bits 8 (bit_xor crc byte)
unfolding crc_step table_index
step_lem crc byte h =
    ap₂ (λ (q i : ℕ). bit_xor q (get_or table i 0)) (sym (byte_gone crc byte h))
      (bit_and-mask 8 (bit_xor crc byte))
    ∙ sym (eight_bits (bit_xor crc byte))

abbrev pub IsByte : ℕ → Type 0
IsByte b = b < 256

loop_lem : (c : ℕ) (bytes : List ℕ) → All IsByte bytes → crc_loop c bytes ≡ bitwise_loop c bytes
unfolding crc_loop bitwise_loop
loop_lem c [] h = refl
loop_lem c (byte ∷ bytes) (h, hs) =
    rw (step_lem c byte h) (loop_lem (crc_bits 8 (bit_xor c byte)) bytes hs)

-- On every sequence of bytes the loop through the table gives the bitwise CRC-32: the one that
-- divides the polynomial out bit by bit.
pub crc_lem : (bytes : List ℕ) → All IsByte bytes → crc bytes ≡ bitwise_crc bytes
unfolding crc bitwise_crc
crc_lem bytes h = ap (λ t. bit_xor t 0xffffffff) (loop_lem 0xffffffff bytes h)
