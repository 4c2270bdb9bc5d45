-- ===== src/Manycore/Tests.antt =====
-- Small groups and a gather.
use no_cgbp_rtl.Base.{ℕ, ◌/◌, ◌%◌, ◌^◌, ◌≡◌, [], ◌∷◌, arith}
use no_cgbp_rtl.Arch.Layout.{global, place_of}
use no_cgbp_rtl.Manycore.{num_tiles, stat_word, gs_helper}
use no_cgbp_rtl.Manycore.Stat.{stat_word_fields}
use no_cgbp_rtl.Manycore.GatherScatter.{with_bit_one, targets, targets-gs_helper}

eight_tiles : num_tiles 4 2 ≡ 8
unfolding num_tiles
eight_tiles = omega arith

abbrev word_read : ℕ
word_read = stat_word 35 2 9 70 3

stat_word_fields_example :
    (word_read / 2 ^ 30 ≡ 2)
    × (word_read / 2 ^ 24 % 2 ^ 6 ≡ 3 % 2 ^ 6)
    × (word_read / 2 ^ 18 % 2 ^ 6 ≡ 70 % 2 ^ 6)
    × (word_read / 2 ^ 4 % 2 ^ 14 ≡ 9 % 2 ^ 14)
    × (word_read % 2 ^ 4 ≡ 35 % 2 ^ 4)
stat_word_fields_example = stat_word_fields 35 2 9 70 3 (omega arith)

-- Asked of tile (4, 1), the stores go to tile (6, 1).
targets-gs_helper_example :
    targets (gs_helper 4 1 0x2000 8 16 0x100 1)
    ≡ global (with_bit_one 4) 1 4
      ∷ global (with_bit_one 4) 1 8
      ∷ global (with_bit_one 4) 1 12
      ∷ global (with_bit_one 4) 1 0
      ∷ place_of 0x100
      ∷ place_of 0x100
      ∷ []
targets-gs_helper_example = targets-gs_helper 4 1 0x2000 8 16 0x100 1 (omega arith) (omega arith)
