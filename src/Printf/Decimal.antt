-- ===== src/Printf/Decimal.antt =====
-- `skip_atoi` reads what `number` writes in decimal.
use no_cgbp_rtl.Base.{
  ℕ, ◌%◌, ltb, ◌+◌, ◌-◌, ◌*◌, ◌^◌, ◌<◌, true, false, ◌≡◌, ◌∙◌, refl, List, [], ◌∷◌, ◌++◌, some, All,
  arith,
}
use no_cgbp_rtl.Base.Int.{pos, negsuc}
use no_cgbp_rtl.Printf.Number.{
  Flags, is_digit, next_digit, skip_digits, skip_atoi, number, sign_out,
}
use no_cgbp_rtl.Printf.NumberValue.{digit_of, read_base, IsNumeral}
use no_cgbp_rtl.Printf.NumberText.{number_lem, number_text_decimal, magnitude, sign_text}

-- The string goes on with something that is no digit.
abbrev pub StartsNoDigit : List ℕ → Type 0
StartsNoDigit [] = Unit
StartsNoDigit (c ∷ s) = is_digit c ≡ false

is_digit-IsNumeral : (c : ℕ) → IsNumeral 10 c → (is_digit c ≡ true) × (digit_of c ≡ c - b'0')
is_digit-IsNumeral c h = ground arith

skip_digits_stop : (n : ℕ) (rest : List ℕ) → StartsNoDigit rest → skip_digits n rest ≡ (n, rest)
unfolding skip_digits
skip_digits_stop n [] h = refl
skip_digits_stop n (c ∷ s) h = rw (h, skip_digits)

skip_digits_go :
    (n c : ℕ) (s : List ℕ)
    → is_digit c ≡ true
    → skip_digits n (c ∷ s) ≡ skip_digits (next_digit n c) s
unfolding skip_digits
skip_digits_go n c s h = rw (h, skip_digits)

-- The word of what the digits say
skip_digits-append :
    (n : ℕ) (ds rest : List ℕ)
    → All (IsNumeral 10) ds
    → skip_digits (n % 2 ^ 32) (ds ++ rest) ≡ skip_digits (read_base 10 n ds % 2 ^ 32) rest
unfolding read_base
skip_digits-append n [] rest h = refl
skip_digits-append n (c ∷ ds) rest h =
    let (digit, value) = is_digit-IsNumeral c h.0 in
    let next : next_digit (n % 2 ^ 32) c ≡ (n * 10 + digit_of c) % 2 ^ 32 = ground arith in
    skip_digits_go (n % 2 ^ 32) c (ds ++ rest) digit
    ∙ rw next (skip_digits-append (n * 10 + digit_of c) ds rest h.1)

-- Unsigned decimal text of a number below 2^31 - 48, so that no step of the reader overflows an `int`,
-- written with no width and no precision and followed by anything that does not start with a digit, is
-- read by `skip_atoi` as that number, and what follows is left.
pub skip_atoi-number :
    (num : ℕ) (type : Flags) (rest : List ℕ)
    → num < 2 ^ 31 - 48
    → type.sign ≡ false
    → StartsNoDigit rest
    → (s : List ℕ) × (number num 10 (negsuc 0) (negsuc 0) type ≡ some s)
      × (skip_atoi (s ++ rest) ≡ (pos num, rest))
unfolding skip_atoi
skip_atoi-number num type rest small unsigned stop =
    let (ds, text, value, one, room, numeral) =
      number_lem num 10 (negsuc 0) (negsuc 0) type (omega arith) (omega arith) (omega arith) in
    let bare : sign_out (sign_text type num) ≡ [] = ground arith in
    let all : magnitude type num ≡ num = ground arith in
    let word : num % 2 ^ 32 ≡ num = omega arith in
    let fits : ltb num (2 ^ 31) ≡ true = ground arith in
    (
      ds,
      text ∙ rw (number_text_decimal, bare),
      rw
          (
            skip_digits-append 0 ds rest numeral,
            value,
            all,
            word,
            skip_digits_stop num rest stop,
            fits,
          )
          refl,
    )
