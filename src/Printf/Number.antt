-- ===== src/Printf/Number.antt =====
-- Numbers in bsg_printf.c: `strnlen`, `skip_atoi` and `number`. An `int` that may be negative is a
-- mathematical integer, since field widths and precisions stay far from the ends of the type; only the
-- one that `skip_atoi` computes wraps around. `num` is the pattern of a 32-bit `long`.
use no_cgbp_rtl.Base.{
  ℕ, zero, suc, ◌+◌, ◌-◌, ◌*◌, ◌/◌, ◌%◌, ◌^◌, Bool, true, false, not, ◌&&◌, ◌||◌, List, [], ◌∷◌,
  ◌++◌, Option, none, some, ltb, leb, ◌==◌, if◌then◌else◌, length, get_or,
}
use no_cgbp_rtl.Base.Int.{ℤ, pos, negsuc, ◌-ℤ◌, ◌+ℤ◌, ltb_ℤ}
use mathlib.Core.List.{reverse}

-- The bits of `type` and `flags`: ZEROPAD, SIGN, PLUS, SPACE, LEFT, HEX_PREP, UPPERCASE
pub record Flags : Type 0 where
  pub zeropad : Bool
  pub sign : Bool
  pub plus : Bool
  pub space : Bool
  pub left : Bool
  pub hex_prep : Bool
  pub uppercase : Bool

abbrev pub is_digit : ℕ → Bool
is_digit c = leb b'0' c && leb c b'9'

abbrev pub letters : (n c : ℕ) → List ℕ
letters zero c = []
letters (suc n) c = c ∷ letters n (c + 1)

-- `digits` and `upper_digits`: "0123456789abc…xyz" and "0123456789ABC…XYZ"
abbrev pub digits : List ℕ
digits = letters 10 b'0' ++ letters 26 b'a'

abbrev pub upper_digits : List ℕ
upper_digits = letters 10 b'0' ++ letters 26 b'A'

-- `count--` is tested before it falls, so that a negative count stops nothing.
unfoldable pub strnlen : List ℕ → ℤ → ℕ
strnlen [] count = 0
strnlen (c ∷ s) (pos zero) = 0
strnlen (c ∷ s) (pos (suc n)) = suc (strnlen s (pos n))
strnlen (c ∷ s) (negsuc n) = suc (strnlen s (negsuc (suc n)))

-- The `int` of a 32-bit word
abbrev pub int_of : ℕ → ℤ
int_of w = if ltb w (2 ^ 31) then pos w else negsuc (2 ^ 32 - 1 - w)

-- `i * 10 + c - '0'` on an `int`, as its word: it wraps around, as the machine's arithmetic does.
abbrev pub next_digit : (i c : ℕ) → ℕ
next_digit i c = (i * 10 + c + (2 ^ 32 - b'0')) % 2 ^ 32

-- The loop of `skip_atoi`, with the word of `i` and what is left of the string
unfoldable pub skip_digits : ℕ → List ℕ → ℕ × List ℕ
skip_digits i [] = (i, [])
skip_digits i (c ∷ s) = elim (is_digit c) [
  | true ↦ skip_digits (next_digit i c) s
  | false ↦ (i, c ∷ s)
]

unfoldable pub skip_atoi : List ℕ → ℤ × List ℕ
skip_atoi s = let (i, rest) = skip_digits 0 s in (int_of i, rest)

-- `while (size-- > 0) *str++ = c;` with the final value of `size`
unfoldable pub pad_out : ℤ → ℕ → List ℕ × ℤ
pad_out (pos zero) c = ([], negsuc 0)
pad_out (pos (suc n)) c = let (out, size) = pad_out (pos n) c in (c ∷ out, size)
pad_out (negsuc n) c = ([], negsuc (suc n))

-- `while (len < size--) *str++ = c;`, which is the loop above on `size - len`
unfoldable pub pad_to : ℕ → ℤ → ℕ → List ℕ × ℤ
pad_to len size c = let (out, over) = pad_out (size -ℤ pos len) c in (out, over +ℤ pos len)

-- The `while (num != 0)` loop, from index 0 of `tmp` on. The count is the room left in `tmp`; `none`
-- is a write past its end.
unfoldable pub digit_loop : ℕ → (dig : List ℕ) (base num : ℕ) → Option (List ℕ)
digit_loop zero dig base num = if num == 0 then some [] else none
digit_loop (suc room) dig base num = elim (num == 0) [
  | true ↦ some []
  | false ↦ elim (digit_loop room dig base (num / base)) [
    | none ↦ none
    | some r ↦ some (get_or dig (num % base) 0 ∷ r)
  ]
]

abbrev pub tmp_size : ℕ
tmp_size = 66

-- The digits in `tmp`, the lowest first
unfoldable pub tmp_digits : (dig : List ℕ) (base num : ℕ) → Option (List ℕ)
tmp_digits dig base num = if num == 0 then some (b'0' ∷ []) else digit_loop tmp_size dig base num

-- What `if (type & SIGN) …` leaves in `sign` (none for 0), `num` and `size`
unfoldable pub sign_of : Flags → ℕ → ℤ → Option ℕ × ℕ × ℤ
sign_of type num size =
    if type.sign
    then (if leb (2 ^ 31) num
        then (some b'-', (2 ^ 32 - num) % 2 ^ 32, size -ℤ pos 1)
        else if type.plus
        then (some b'+', num, size -ℤ pos 1)
        else if type.space
        then (some b' ', num, size -ℤ pos 1)
        else (none, num, size))
    else (none, num, size)

-- What `if (type & HEX_PREP) …` leaves in `size`, and what it writes
unfoldable pub prep_size : Flags → ℕ → ℤ → ℤ
prep_size type base size =
    if type.hex_prep
    then (if base == 16 then size -ℤ pos 2 else if base == 8 then size -ℤ pos 1 else size)
    else size

unfoldable pub prep_out : Flags → ℕ → List ℕ
prep_out type base =
    if type.hex_prep
    then (if base == 8
        then b'0' ∷ []
        else if base == 16
        then b'0' ∷ get_or digits 33 0 ∷ []
        else [])
    else []

abbrev pub sign_out : Option ℕ → List ℕ
sign_out none = []
sign_out (some c) = c ∷ []

-- The writes of `number` after `size -= precision`, in order; `leading` is what
-- `while (i < precision--)` writes and `digits_out` what `while (i-- > 0)` writes.
unfoldable pub spread :
    (left zeropad : Bool) (sign prefix leading digits_out : List ℕ) (size : ℤ) → List ℕ
spread left zeropad sign prefix leading digits_out size =
    let blank : List ℕ × ℤ = if not (zeropad || left) then pad_out size b' ' else ([], size) in
    let inner : List ℕ × ℤ =
      if not left then pad_out blank.1 (if zeropad then b'0' else b' ') else ([], blank.1) in
    blank.0
    ++ (sign ++ (prefix ++ (inner.0 ++ (leading ++ (digits_out ++ (pad_out inner.1 b' ').0)))))

-- `if (i > precision) precision = i;`
unfoldable pub raised : (i : ℕ) (precision : ℤ) → ℤ
raised i precision = if ltb_ℤ precision (pos i) then pos i else precision

-- `number` from there on: `type` no longer has both LEFT and ZEROPAD, and `tmp` and `sign` are set.
unfoldable pub layout :
    Flags → (base : ℕ) (sign : Option ℕ) (tmp : List ℕ) (size precision : ℤ) → List ℕ
layout type base sign tmp size precision =
    let i = length tmp in
    spread type.left type.zeropad (sign_out sign) (prep_out type base)
      (pad_to i (raised i precision) b'0').0 (reverse tmp) (size -ℤ raised i precision)

-- `none` is the null pointer that a bad base returns.
unfoldable pub number : (num base : ℕ) (size precision : ℤ) → Flags → Option (List ℕ)
number num base size precision type =
    let type' = record type { zeropad = type.zeropad && not type.left } in
    let (sign, num', size') = sign_of type' num size in
    if ltb base 2 || ltb 36 base
    then none
    else elim (tmp_digits (if type.uppercase then upper_digits else digits) base num') [
      | none ↦ none
      | some tmp ↦ some (layout type' base sign tmp (prep_size type' base size') precision)
    ]
