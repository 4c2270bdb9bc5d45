-- ===== src/Printf/Pieces/Single.antt =====
-- What one such conversion writes.
use no_cgbp_rtl.Base.{
  ℕ, suc, ◌+◌, ◌-◌, max, ◌%◌, take, append-nil, true, ◌^◌, ◌<◌, ◌≡◌, ◌∙◌, refl, ap, false, List, [],
  ◌∷◌, ◌++◌, some, length, arith,
}
use no_cgbp_rtl.Base.Int.{ℤ, pos, negsuc, pos_part, neg_part, ◌-ℤ◌, ◌+ℤ◌}
use no_cgbp_rtl.Printf.Number.{Flags, sign_out, pad_out, number, strnlen, prep_out}
use no_cgbp_rtl.Printf.Address.{padded}
use no_cgbp_rtl.Printf.NumberLength.{arranged_bare, pad_to_lem, pad_to_again}
use no_cgbp_rtl.Printf.NumberText.{
  number_lem, number_text_decimal, magnitude, sign_text, number_text,
}
use no_cgbp_rtl.Printf.Format.{
  Arg, word, string, int, ok, pattern_of, convert_char, pad_before, no_flags, convert_integer,
  directive, word_arg, string_arg, parse_flags, flag_char, parse_width, parse_precision,
  parse_qualifier, convert, convert_by, convert_string,
}
use no_cgbp_rtl.Printf.Pieces.{
  Letter, octal, decimal, hexadecimal, letter, letter_base, Piece, IsSound, Says, minus,
}

-- One conversion without flags, width and precision
convert_integer_plain :
    (base n : ℕ) (args : List Arg) (ds : List ℕ)
    → number n base (negsuc 0) (negsuc 0) no_flags ≡ some ds
    → n < 2 ^ 32
    → convert_integer base no_flags (negsuc 0) (negsuc 0) (word n ∷ args) ≡ ok (ds, args)
unfolding convert_integer word_arg
convert_integer_plain base n args ds e small =
    let same : n % 2 ^ 32 ≡ n = omega arith in rw (same, e) refl

none_left : (n : ℕ) → 0 - n ≡ 0
none_left n = omega arith

number_text_bare :
    (base n : ℕ) (ds : List ℕ) → number_text no_flags n base (negsuc 0) (negsuc 0) ds ≡ ds
unfolding prep_out
number_text_bare base n ds =
    rw (nothing, none_left (length ds)) (arranged_bare false false [] [] ds)
  where
    nothing : 0 - (0 + max (length ds) 0) ≡ 0
    nothing = omega arith

pub number_plain :
    (l : Letter) (n : ℕ)
    → n < 2 ^ 32
    → (ds : List ℕ) × (number n (letter_base l) (negsuc 0) (negsuc 0) no_flags ≡ some ds)
      × Says (Piece.unsigned l n) ds
unfolding prep_out
number_plain octal n small =
    let (ds, e, value, one, room, numerals) =
      number_lem n 8 (negsuc 0) (negsuc 0) no_flags (omega arith) (omega arith) small in
    (ds, e ∙ ap (λ t. some t) (number_text_bare 8 n ds), (value, one, numerals))
number_plain decimal n small =
    let (ds, e, value, one, room, numerals) =
      number_lem n 10 (negsuc 0) (negsuc 0) no_flags (omega arith) (omega arith) small in
    (ds, e ∙ ap (λ t. some t) (number_text_bare 10 n ds), (value, one, numerals))
number_plain hexadecimal n small =
    let (ds, e, value, one, room, numerals) =
      number_lem n 16 (negsuc 0) (negsuc 0) no_flags (omega arith) (omega arith) small in
    (ds, e ∙ ap (λ t. some t) (number_text_bare 16 n ds), (value, one, numerals))

pub directive_unsigned :
    (l : Letter) (n : ℕ) (fmt : List ℕ) (args : List Arg) (ds : List ℕ)
    → number n (letter_base l) (negsuc 0) (negsuc 0) no_flags ≡ some ds
    → n < 2 ^ 32
    → directive (letter l ∷ fmt) (word n ∷ args) ≡ ok ((ds, args), fmt)
unfolding directive parse_flags flag_char parse_width parse_precision parse_qualifier convert
    convert_by
directive_unsigned octal n fmt args ds e small = rw (convert_integer_plain 8 n args ds e small) refl
directive_unsigned decimal n fmt args ds e small =
    rw (convert_integer_plain 10 n args ds e small) refl
directive_unsigned hexadecimal n fmt args ds e small =
    rw (convert_integer_plain 16 n args ds e small) refl

-- `%d` reads the word of an `int`.
abbrev with_sign : Flags
with_sign = record no_flags { sign = true }

signed_word :
    (z : ℤ)
    → IsSound (Piece.signed z)
    → (pattern_of z % 2 ^ 32 ≡ pattern_of z)
      × (pattern_of z < 2 ^ 32)
      × (magnitude with_sign (pattern_of z) ≡ pos_part z + neg_part z)
      × (sign_out (sign_text with_sign (pattern_of z)) ≡ minus z)
signed_word (pos n) (lt, le) = (omega arith, omega arith, ground arith, ground arith)
signed_word (negsuc n) (lt, le) = (omega arith, omega arith, ground arith, ground arith)

pub directive_signed :
    (z : ℤ) (fmt : List ℕ) (args : List Arg)
    → IsSound (Piece.signed z)
    → (out : List ℕ) × (directive (b'd' ∷ fmt) (int z ∷ args) ≡ ok ((out, args), fmt))
      × Says (Piece.signed z) out
unfolding directive parse_flags flag_char parse_width parse_precision parse_qualifier convert
    convert_by convert_integer word_arg
directive_signed z fmt args sound =
    let (same, small, value_of, sign_of) = signed_word z sound in
    let (ds, e, value, one, room, numerals) =
      number_lem (pattern_of z) 10 (negsuc 0) (negsuc 0) with_sign (omega arith) (omega arith)
        small in
    (
      minus z ++ ds,
      rw (e, number_text_decimal with_sign (pattern_of z) ds, sign_of) refl,
      (ds, refl, value ∙ value_of, one, numerals),
    )

pub directive_character :
    (c : ℕ) (fmt : List ℕ) (args : List Arg)
    → c < 256
    → directive (b'c' ∷ fmt) (word c ∷ args) ≡ ok ((c ∷ [], args), fmt)
unfolding directive parse_flags flag_char parse_width parse_precision parse_qualifier convert
    convert_by convert_char word_arg pad_before pad_out ◌-ℤ◌ ◌+ℤ◌
directive_character c fmt args small = let same : c % 2 ^ 32 % 256 ≡ c = omega arith in rw same refl

pub directive_percent :
    (fmt : List ℕ) (args : List Arg) → directive (b'%' ∷ fmt) args ≡ ok ((b'%' ∷ [], args), fmt)
unfolding directive parse_flags flag_char parse_width parse_precision parse_qualifier convert
    convert_by
directive_percent fmt args = refl

take_whole : (s : List ℕ) (k : ℕ) → take (strnlen s (negsuc k)) s ≡ s
unfolding strnlen
take_whole [] k = refl
take_whole (c ∷ s) k = ap (λ r. c ∷ r) (take_whole s (suc k))

padded_bare : (s : List ℕ) → padded false (negsuc 0) s ≡ s
unfolding padded
padded_bare s = rw (pad_to_lem, pad_to_lem, pad_to_again, none_left (length s)) (append-nil s)

pub directive_text :
    (s fmt : List ℕ) (args : List Arg)
    → directive (b's' ∷ fmt) (string (some s) ∷ args) ≡ ok ((s, args), fmt)
unfolding directive parse_flags flag_char parse_width parse_precision parse_qualifier convert
    convert_by convert_string string_arg
directive_text s fmt args = rw (take_whole s 0, padded_bare s) refl
