-- ===== src/Crc32/Tests.antt =====
-- The program's run.
use no_cgbp_rtl.Base.{◌≡◌, refl, [], ◌∷◌, arith}
use no_cgbp_rtl.Crc32.Linear.{crc_lem}
use no_cgbp_rtl.Crc32.{crc, bitwise_crc, crc_loop, crc_step, table_index, answer}
use no_cgbp_rtl.Crc32.Table.{table}
use no_cgbp_rtl.Crc32.Data.{data_bytes}

passed : crc data_bytes ≡ answer
unfolding crc crc_loop crc_step table_index table data_bytes
passed = refl

crc_lem_example : crc (0x31 ∷ 0x32 ∷ 0xff ∷ []) ≡ bitwise_crc (0x31 ∷ 0x32 ∷ 0xff ∷ [])
crc_lem_example = crc_lem (0x31 ∷ 0x32 ∷ 0xff ∷ []) (omega arith, (omega arith, (omega arith, tt)))
