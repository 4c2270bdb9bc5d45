-- ===== src/Printf/NumberText.antt =====
-- The text of a number in full: `number` against its declarative layout.
use no_cgbp_rtl.Base.{
  ℕ, ◌+◌, ◌-◌, ◌^◌, ◌<◌, ◌≤◌, max, Bool, false, not, ◌&&◌, ◌||◌, ◌≡◌, ◌∙◌, List, [], ◌∷◌, ◌++◌,
  Option, none, some, leb, ltb, if◌then◌else◌, length, All, All-reverse_aux, arith,
}
use no_cgbp_rtl.Base.Int.{ℤ, negsuc, ◌-ℤ◌, pos_part}
use mathlib.Core.List.{reverse, reverse_aux}
use no_cgbp_rtl.Printf.Number.{Flags, tmp_size, sign_of, sign_out, prep_size, prep_out, number}
use no_cgbp_rtl.Printf.NumberValue.{IsNumeral, read_base, read_base-reverse, tmp_digits-value}
use no_cgbp_rtl.Printf.NumberLength.{arranged, arranged_bare, length-arranged, layout_lem}

-- A pattern is negative where it is read as signed and its top bit is set.
abbrev pub is_negative : Flags → ℕ → Bool
is_negative type num = type.sign && leb (2 ^ 31) num

abbrev pub magnitude : Flags → ℕ → ℕ
magnitude type num = if is_negative type num then 2 ^ 32 - num else num

abbrev pub sign_text : Flags → ℕ → Option ℕ
sign_text type num =
    if is_negative type num
    then some b'-'
    else if type.sign && type.plus
    then some b'+'
    else if type.sign && type.space
    then some b' '
    else none

sign_of_lem :
    (type : Flags) (num : ℕ) (size : ℤ)
    → num < 2 ^ 32
    → ((sign_of type num size).0 ≡ sign_text type num)
      × ((sign_of type num size).1 ≡ magnitude type num)
      × (pos_part (sign_of type num size).2
          ≡ pos_part size - length (sign_out (sign_text type num)))
unfolding sign_of ◌-ℤ◌
sign_of_lem type num size h = ground arith

prep_size_lem :
    (type : Flags) (base : ℕ) (size : ℤ)
    → pos_part (prep_size type base size) ≡ pos_part size - length (prep_out type base)
unfolding prep_size prep_out ◌-ℤ◌
prep_size_lem type base size = ground arith

-- Number of characters of the sign and the prefix
abbrev pub head_length : Flags → (num base : ℕ) → ℕ
head_length type num base = length (sign_out (sign_text type num)) + length (prep_out type base)

-- The text of a number whose digits are `ds`: the padding that brings it to `size` characters
-- stands before the sign, or as zeros after the prefix (ZEROPAD without LEFT), or at the end (LEFT),
-- and zeros bring the digits to the precision.
abbrev pub number_text : Flags → (num base : ℕ) → (size precision : ℤ) (ds : List ℕ) → List ℕ
number_text type num base size precision ds =
    arranged type.left (type.zeropad && not type.left)
      (pos_part size - (head_length type num base + max (length ds) (pos_part precision)))
      (sign_out (sign_text type num)) (prep_out type base) (pos_part precision - length ds) ds

length-reverse_aux : (xs r : List ℕ) → length (reverse_aux xs r) ≡ length xs + length r
length-reverse_aux [] r = omega arith
length-reverse_aux (x ∷ xs) r = omega (arith, length-reverse_aux xs (x ∷ r))

length-reverse : (xs : List ℕ) → length (reverse xs) ≡ length xs
length-reverse xs = omega (arith, length-reverse_aux xs [])

base_accepted : (base : ℕ) → 2 ≤ base → base ≤ 36 → (ltb base 2 || ltb 36 base) ≡ false
base_accepted base lo hi = ground arith

magnitude-lt : (type : Flags) (num : ℕ) → num < 2 ^ 32 → magnitude type num < 2 ^ 32
magnitude-lt type num h = ground arith

pub number_lem :
    (num base : ℕ) (size precision : ℤ) (type : Flags)
    → 2 ≤ base
    → base ≤ 36
    → num < 2 ^ 32
    → (ds : List ℕ) × (number num base size precision type
        ≡ some (number_text type num base size precision ds))
      × (read_base base 0 ds ≡ magnitude type num)
      × (1 ≤ length ds)
      × (length ds ≤ tmp_size)
      × All (IsNumeral base) ds
unfolding number prep_out
number_lem num base size precision type lo hi small =
    let (r, found, value, one, room, numeral) =
      tmp_digits-value type.uppercase base after_sign.1 lo hi
        (rw facts.1 (magnitude-lt type num small)) in
    (
      reverse r,
      rw (
        base_accepted base lo hi,
        found,
        layout_lem,
        facts.0,
        ← length-reverse r,
        fill (reverse r),
      ),
      rw read_base-reverse (value ∙ facts.1),
      rw length-reverse one,
      rw length-reverse room,
      All-reverse_aux (IsNumeral base) r [] numeral tt,
    )
  where
    type' : Flags
    type' = record type { zeropad = type.zeropad && not type.left }

    after_sign : Option ℕ × ℕ × ℤ
    after_sign = sign_of type' num size

    facts :
        (after_sign.0 ≡ sign_text type num)
        × (after_sign.1 ≡ magnitude type num)
        × (pos_part after_sign.2 ≡ pos_part size - length (sign_out (sign_text type num)))
    facts = sign_of_lem type' num size small

    fill :
        (ds : List ℕ)
        → pos_part (prep_size type' base after_sign.2) - max (length ds) (pos_part precision)
          ≡ pos_part size - (head_length type num base + max (length ds) (pos_part precision))
    fill ds = omega (arith, prep_size_lem type' base after_sign.2, facts.2)

-- The text of a number is as long as the field, or as the sign, the prefix and the digits brought to
-- the precision where that is longer.
pub length-number_text :
    (type : Flags) (num base : ℕ) (size precision : ℤ) (ds : List ℕ)
    → length (number_text type num base size precision ds)
      ≡ max (pos_part size) (head_length type num base + max (length ds) (pos_part precision))
length-number_text type num base size precision ds = omega (
  arith,
  length-arranged type.left (type.zeropad && not type.left)
      (pos_part size - (head_length type num base + max (length ds) (pos_part precision)))
      (sign_out (sign_text type num)) (prep_out type base) (pos_part precision - length ds) ds,
)

-- For a base from 2 to 36 and a 32-bit number, `number` writes at least as many characters as the
-- field width and the precision ask for.
pub number-fills :
    (num base : ℕ) (size precision : ℤ) (type : Flags)
    → 2 ≤ base
    → base ≤ 36
    → num < 2 ^ 32
    → (s : List ℕ) × (number num base size precision type ≡ some s)
      × (pos_part size ≤ length s)
      × (pos_part precision ≤ length s)
number-fills num base size precision type lo hi h =
    let (ds, written, value, some_digit, bounded, numerals) =
      number_lem num base size precision type lo hi h in
    (
      number_text type num base size precision ds,
      written,
      omega (arith, length-number_text type num base size precision ds),
      omega (arith, length-number_text type num base size precision ds),
    )

-- With neither a width nor a precision, a decimal has only its sign and its digits.
pub number_text_decimal :
    (type : Flags) (num : ℕ) (ds : List ℕ)
    → number_text type num 10 (negsuc 0) (negsuc 0) ds ≡ sign_out (sign_text type num) ++ ds
unfolding prep_out
number_text_decimal type num ds =
    rw (no_fill, no_zeros, no_prefix)
      (arranged_bare type.left (type.zeropad && not type.left) (sign_out (sign_text type num)) []
        ds)
  where
    no_fill : 0 - (head_length type num 10 + max (length ds) 0) ≡ 0
    no_fill = omega arith

    no_zeros : 0 - length ds ≡ 0
    no_zeros = omega arith

    no_prefix : prep_out type 10 ≡ []
    no_prefix = ground arith
