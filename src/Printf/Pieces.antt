-- ===== src/Printf/Pieces.antt =====
-- Formats of plain text and the conversions without flags, width and precision, and what they are to
-- write: the description that `ee_vsprintf` of bsg_printf.c is held against.
pub mod Single
pub mod Whole
use no_cgbp_rtl.Base.{
  ℕ, zero, suc, ◌+◌, ◌-◌, max, ◌%◌, take, append-nil, true, ◌*◌, ◌^◌, ◌<◌, ◌≤◌, ◌≡◌, ◌∙◌, refl, ap,
  false, List, [], ◌∷◌, ◌++◌, ◌==◌, some, length, All, arith,
}
use no_cgbp_rtl.Base.Int.{ℤ, pos, negsuc, pos_part, neg_part, ◌-ℤ◌, ◌+ℤ◌}
use no_cgbp_rtl.Printf.Number.{Flags, sign_out, pad_out, number, strnlen, prep_out, pad_to}
use no_cgbp_rtl.Printf.Address.{padded}
use no_cgbp_rtl.Printf.NumberValue.{read_base, IsNumeral}
use no_cgbp_rtl.Printf.NumberLength.{arranged_bare, pad_to_lem, pad_to_again}
use no_cgbp_rtl.Printf.NumberText.{
  number_lem, number_text_decimal, magnitude, sign_text, number_text,
}
use no_cgbp_rtl.Printf.Format.{
  Arg, word, string, int, ok, pattern_of, convert_char, pad_before, no_flags, ◌>>=◌, defined,
  convert_integer, directive, format_loop, word_arg, string_arg, parse_flags, flag_char,
  parse_width, parse_precision, parse_qualifier, convert, convert_by, convert_string, ee_vsprintf,
}

-- `%o`, `%u` and `%x`, by what C says of them
pub data Letter : Type 0 where
  octal decimal hexadecimal : Letter

abbrev pub letter : Letter → ℕ
letter octal = b'o'
letter decimal = b'u'
letter hexadecimal = b'x'

abbrev pub letter_base : Letter → ℕ
letter_base octal = 8
letter_base decimal = 10
letter_base hexadecimal = 16

pub data Piece : Type 0 where
  literal : List ℕ → Piece
  text : List ℕ → Piece
  unsigned : Letter → ℕ → Piece
  signed : ℤ → Piece
  character : ℕ → Piece
  percent : Piece

abbrev pub format_of : List Piece → List ℕ
format_of [] = []
format_of (Piece.literal s ∷ ps) = s ++ format_of ps
format_of (Piece.text s ∷ ps) = b'%' ∷ b's' ∷ format_of ps
format_of (Piece.unsigned l n ∷ ps) = b'%' ∷ letter l ∷ format_of ps
format_of (Piece.signed z ∷ ps) = b'%' ∷ b'd' ∷ format_of ps
format_of (Piece.character c ∷ ps) = b'%' ∷ b'c' ∷ format_of ps
format_of (Piece.percent ∷ ps) = b'%' ∷ b'%' ∷ format_of ps

abbrev pub args_of : List Piece → List Arg
args_of [] = []
args_of (Piece.literal s ∷ ps) = args_of ps
args_of (Piece.text s ∷ ps) = string (some s) ∷ args_of ps
args_of (Piece.unsigned l n ∷ ps) = word n ∷ args_of ps
args_of (Piece.signed z ∷ ps) = int z ∷ args_of ps
args_of (Piece.character c ∷ ps) = word c ∷ args_of ps
args_of (Piece.percent ∷ ps) = args_of ps

abbrev pub IsSound : Piece → Type 0
IsSound (Piece.literal s) = All (λ c. (c == b'%') ≡ false) s
IsSound (Piece.text s) = Unit
IsSound (Piece.unsigned l n) = n < 2 ^ 32
IsSound (Piece.signed z) = (pos_part z < 2 ^ 31) × (neg_part z ≤ 2 ^ 31)
IsSound (Piece.character c) = c < 256
IsSound Piece.percent = Unit

-- The text of a piece
abbrev pub minus : ℤ → List ℕ
minus (pos n) = []
minus (negsuc n) = b'-' ∷ []

abbrev pub Says : Piece → List ℕ → Type 0
Says (Piece.literal s) out = out ≡ s
Says (Piece.text s) out = out ≡ s
Says (Piece.unsigned l n) out =
    (read_base (letter_base l) 0 out ≡ n) × (1 ≤ length out) × All (IsNumeral (letter_base l)) out
Says (Piece.signed z) out =
    (ds : List ℕ) × (out ≡ minus z ++ ds)
    × (read_base 10 0 ds ≡ pos_part z + neg_part z)
    × (1 ≤ length ds)
    × All (IsNumeral 10) ds
Says (Piece.character c) out = out ≡ c ∷ []
Says Piece.percent out = out ≡ b'%' ∷ []

abbrev pub Prints : List Piece → List ℕ → Type 0
Prints [] out = out ≡ []
Prints (p ∷ ps) out =
    (first : List ℕ) × (rest : List ℕ) × (out ≡ first ++ rest) × Says p first × Prints ps rest
