-- ===== src/Crc32.antt =====
-- The checksum program software/spmd/crc32/main.c: its table, its data and its loop, and the
-- bitwise CRC-32 it stands for. Words are 32 bits: none of the steps grows one.
pub mod Table
pub mod Data
pub mod Linear
mod Tests
use no_cgbp_rtl.Base.{
  ℕ, zero, suc, ◌/◌, ◌%◌, ◌^◌, bit_xor, bit_and, List, [], ◌∷◌, get_or, if◌then◌else◌, ◌==◌,
}
use no_cgbp_rtl.Crc32.Table.{table}

-- `unsigned int idx = (crc ^ data[i]) & 0xff; crc = (crc >> 8) ^ table[idx];`
unfoldable pub table_index : ℕ → ℕ → ℕ
table_index crc byte = bit_and (bit_xor crc byte) 0xff

unfoldable pub crc_step : ℕ → ℕ → ℕ
crc_step crc byte = bit_xor (crc / 2 ^ 8) (get_or table (table_index crc byte) 0)

unfoldable pub crc_loop : ℕ → List ℕ → ℕ
crc_loop crc [] = crc
crc_loop crc (byte ∷ bytes) = crc_loop (crc_step crc byte) bytes

unfoldable pub crc : List ℕ → ℕ
crc bytes = bit_xor (crc_loop 0xffffffff bytes) 0xffffffff

abbrev pub answer : ℕ
answer = 0x59123cd1

-- The definition: a byte goes into the word, and each of its eight bits is divided out.
unfoldable pub crc_bit : ℕ → ℕ
crc_bit c = if c % 2 == 1 then bit_xor (c / 2) 0xedb88320 else c / 2

unfoldable pub crc_bits : ℕ → ℕ → ℕ
crc_bits zero c = c
crc_bits (suc k) c = crc_bits k (crc_bit c)

unfoldable pub bitwise_loop : ℕ → List ℕ → ℕ
bitwise_loop crc [] = crc
bitwise_loop crc (byte ∷ bytes) = bitwise_loop (crc_bits 8 (bit_xor crc byte)) bytes

unfoldable pub bitwise_crc : List ℕ → ℕ
bitwise_crc bytes = bit_xor (bitwise_loop 0xffffffff bytes) 0xffffffff
