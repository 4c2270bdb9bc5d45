-- ===== src/Manycore/Stat.antt =====
-- The fields of the performance counters' word (bsg_cuda_print_stat_type of bsg_manycore.h).
use no_cgbp_rtl.Base.{ℕ, ◌+◌, ◌*◌, ◌/◌, ◌%◌, ◌^◌, ◌<◌, ◌≡◌, bit_or, arith}
use no_cgbp_rtl.Base.Bits.{bit_or-shift, bit_and-mask}
use no_cgbp_rtl.Manycore.{stat_word}
use no_cgbp_rtl.Arch.{shl}

or_five :
    (a b c d e : ℕ)
    → a < 4
    → b < 64
    → c < 64
    → d < 2 ^ 14
    → e < 16
    → bit_or (bit_or (bit_or (bit_or (a * 2 ^ 30) (b * 2 ^ 24)) (c * 2 ^ 18)) (d * 2 ^ 4)) e
      ≡ a * 2 ^ 30 + b * 2 ^ 24 + c * 2 ^ 18 + d * 2 ^ 4 + e
or_five a b c d e ha hb hc hd he =
    rw
      (
        bit_or-shift 30 a (b * 2 ^ 24) (omega arith),
        first,
        bit_or-shift 24 (a * 64 + b) (c * 2 ^ 18) (omega arith),
        second,
        bit_or-shift 18 ((a * 64 + b) * 64 + c) (d * 2 ^ 4) (omega arith),
        third,
        bit_or-shift 4 (((a * 64 + b) * 64 + c) * 2 ^ 14 + d) e he,
      )
      (omega arith)
  where
    first : a * 2 ^ 30 + b * 2 ^ 24 ≡ (a * 64 + b) * 2 ^ 24
    first = omega arith

    second : (a * 64 + b) * 2 ^ 24 + c * 2 ^ 18 ≡ ((a * 64 + b) * 64 + c) * 2 ^ 18
    second = omega arith

    third :
        ((a * 64 + b) * 64 + c) * 2 ^ 18 + d * 2 ^ 4
        ≡ (((a * 64 + b) * 64 + c) * 2 ^ 14 + d) * 2 ^ 4
    third = omega arith

stat_word-sum :
    (tag stat_type tg x y : ℕ)
    → stat_type < 4
    → stat_word tag stat_type tg x y
      ≡ stat_type * 2 ^ 30 + y % 64 * 2 ^ 24 + x % 64 * 2 ^ 18 + tg % 2 ^ 14 * 2 ^ 4 + tag % 16
unfolding stat_word
stat_word-sum tag stat_type tg x y h =
    rw
      (
        bit_and-mask 6 y,
        bit_and-mask 6 x,
        bit_and-mask 14 tg,
        bit_and-mask 4 tag,
        type_fits,
        y_fits,
        x_fits,
        tg_fits,
        tag_fits,
      )
      (or_five stat_type (y % 64) (x % 64) (tg % 2 ^ 14) (tag % 16) h (omega arith) (omega arith)
        (omega arith) (omega arith))
  where
    type_fits : shl stat_type 30 ≡ stat_type * 2 ^ 30
    type_fits = omega arith

    y_fits : shl (y % 2 ^ 6) 24 ≡ y % 64 * 2 ^ 24
    y_fits = omega arith

    x_fits : shl (x % 2 ^ 6) 18 ≡ x % 64 * 2 ^ 18
    x_fits = omega arith

    tg_fits : shl (tg % 2 ^ 14) 4 ≡ tg % 2 ^ 14 * 2 ^ 4
    tg_fits = omega arith

    tag_fits : shl (tag % 2 ^ 4) 0 ≡ tag % 16
    tag_fits = omega arith

-- Every field of the word is read back modulo its width, whatever the tag, the group and the coordinates, if
-- the type is one of the four.
pub stat_word_fields :
    (tag stat_type tg x y : ℕ)
    → stat_type < 4
    → let w = stat_word tag stat_type tg x y in
      (w / 2 ^ 30 ≡ stat_type)
      × (w / 2 ^ 24 % 2 ^ 6 ≡ y % 2 ^ 6)
      × (w / 2 ^ 18 % 2 ^ 6 ≡ x % 2 ^ 6)
      × (w / 2 ^ 4 % 2 ^ 14 ≡ tg % 2 ^ 14)
      × (w % 2 ^ 4 ≡ tag % 2 ^ 4)
stat_word_fields tag stat_type tg x y h = omega (arith, stat_word-sum tag stat_type tg x y h)
