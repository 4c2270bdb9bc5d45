-- ===== src/Printf/NumberLength.antt =====
-- The layout of a number: what the padding loops write, and where.
use no_cgbp_rtl.Base.{
  ℕ, zero, suc, ◌+◌, ◌-◌, max, Bool, true, false, not, ◌||◌, ◌&&◌, ◌≡◌, refl, ap, List, [], ◌++◌,
  append-nil, if◌then◌else◌, length, length-append, length-replicate, replicate, Option, arith,
}
use no_cgbp_rtl.Base.Int.{ℤ, pos, negsuc, ◌-ℤ◌, ◌+ℤ◌, pos_part}
use mathlib.Core.List.{reverse}
use no_cgbp_rtl.Printf.Number.{Flags, pad_out, pad_to, prep_out, sign_out, spread, raised, layout}

-- A padding loop leaves its counter below zero.
abbrev after : ℤ → ℤ
after (pos n) = negsuc 0
after (negsuc n) = negsuc (suc n)

pub pad_out_lem : (size : ℤ) (c : ℕ) → pad_out size c ≡ (replicate (pos_part size) c, after size)
unfolding pad_out
pad_out_lem (pos zero) c = refl
pad_out_lem (pos (suc n)) c = rw (pad_out_lem (pos n) c)
pad_out_lem (negsuc n) c = refl

minus-parts : (size : ℤ) (len : ℕ) → pos_part (size -ℤ pos len) ≡ pos_part size - len
unfolding ◌-ℤ◌
minus-parts size len = ground arith

pub pad_to_lem :
    (len : ℕ) (size : ℤ) (c : ℕ) → (pad_to len size c).0 ≡ replicate (pos_part size - len) c
unfolding pad_to
pad_to_lem len size c = rw pad_out_lem (ap (λ k. replicate k c) room)
  where
    room : pos_part (size -ℤ pos len) ≡ pos_part size - len
    room = minus-parts size len

-- Without a width, the second of two padding loops has nothing to write either.
pub pad_to_again : (len c : ℕ) → pos_part (pad_to len (negsuc 0) c).1 ≡ 0
unfolding pad_to ◌-ℤ◌ ◌+ℤ◌
pad_to_again len c = rw pad_out_lem (ground arith)

pos_part-after : (size : ℤ) → pos_part (after size) ≡ 0
pos_part-after (pos n) = refl
pos_part-after (negsuc n) = refl

-- The text of a number, as a layout of its parts: `fill` characters of padding stand before the
-- sign, after the prefix or at the end, as the flags say, and `leading` zeros bring the digits to the
-- precision.
abbrev pub arranged :
    (left zeropad : Bool) (fill : ℕ) (sign prefix : List ℕ) (leading : ℕ) (digits : List ℕ) → List ℕ
arranged left zeropad fill sign prefix leading digits =
    (if left || zeropad then [] else replicate fill b' ')
    ++ (sign
        ++ (prefix
            ++ ((if zeropad && not left then replicate fill b'0' else [])
                ++ (replicate leading b'0'
                    ++ (digits ++ (if left then replicate fill b' ' else []))))))

spread_lem :
    (left zeropad : Bool) (sign prefix leading digits : List ℕ) (size : ℤ)
    → spread left zeropad sign prefix leading digits size
      ≡ (if left || zeropad then [] else replicate (pos_part size) b' ')
        ++ (sign
            ++ (prefix
                ++ ((if zeropad && not left then replicate (pos_part size) b'0' else [])
                    ++ (leading
                        ++ (digits ++ (if left then replicate (pos_part size) b' ' else []))))))
unfolding spread
spread_lem true true sign prefix leading digits size = rw pad_out_lem
spread_lem true false sign prefix leading digits size = rw pad_out_lem
spread_lem false true sign prefix leading digits size = simp (pad_out_lem, pos_part-after)
spread_lem false false sign prefix leading digits size = simp (pad_out_lem, pos_part-after)

fill_size :
    (i : ℕ) (size precision : ℤ)
    → pos_part (size -ℤ raised i precision) ≡ pos_part size - max i (pos_part precision)
unfolding raised ◌-ℤ◌
fill_size i size precision = ground arith

zeros_size : (i : ℕ) (precision : ℤ) → pos_part (raised i precision) - i ≡ pos_part precision - i
unfolding raised
zeros_size i precision = ground arith

pub layout_lem :
    (type : Flags) (base : ℕ) (sign : Option ℕ) (tmp : List ℕ) (size precision : ℤ)
    → layout type base sign tmp size precision
      ≡ arranged type.left type.zeropad
          (pos_part size - max (length tmp) (pos_part precision))
          (sign_out sign)
          (prep_out type base)
          (pos_part precision - length tmp)
          (reverse tmp)
unfolding layout
layout_lem type base sign tmp size precision = rw (spread_lem, pad_to_lem, zeros_size, fill_size)

-- With nothing to fill the text is the sign, the prefix and the digits.
pub arranged_bare :
    (left zeropad : Bool) (sign prefix digits : List ℕ)
    → arranged left zeropad 0 sign prefix 0 digits ≡ sign ++ (prefix ++ digits)
arranged_bare true true sign prefix digits = rw append-nil
arranged_bare true false sign prefix digits = rw append-nil
arranged_bare false true sign prefix digits = rw append-nil
arranged_bare false false sign prefix digits = rw append-nil

-- The text's length is the sum of its parts.
pub length-arranged :
    (left zeropad : Bool) (fill : ℕ) (sign prefix : List ℕ) (leading : ℕ) (digits : List ℕ)
    → length (arranged left zeropad fill sign prefix leading digits)
      ≡ fill + length sign + length prefix + leading + length digits
length-arranged true true fill sign prefix leading digits =
    simp (length-append, length-replicate) (omega arith)
length-arranged true false fill sign prefix leading digits =
    simp (length-append, length-replicate) (omega arith)
length-arranged false true fill sign prefix leading digits =
    simp (length-append, length-replicate) (omega arith)
length-arranged false false fill sign prefix leading digits =
    simp (length-append, length-replicate) (omega arith)
