-- ===== src/Printf/Tests.antt =====
-- Runs of the formatted output.
use no_cgbp_rtl.Base.{List, [], ◌∷◌, ◌≡◌, refl, none}
use no_cgbp_rtl.Base.Int.{pos, negsuc, ◌-ℤ◌, ◌+ℤ◌}
use no_cgbp_rtl.Printf.Number.{
  strnlen, skip_digits, skip_atoi, pad_out, pad_to, digit_loop, tmp_digits, sign_of, prep_size,
  prep_out, spread, raised, layout, number,
}
use no_cgbp_rtl.Printf.Address.{ether_text, quad_byte, quad_text, padded, eaddr, iaddr}
use no_cgbp_rtl.Printf.Format.{
  Arg, int, word, string, bytes, Result, ok, int_arg, word_arg, string_arg, bytes_arg, flag_char,
  parse_flags, parse_width, parse_after_dot, parse_precision, parse_qualifier, pad_before,
  convert_char, convert_string, convert_pointer, convert_address, convert_integer, convert_by,
  convert, directive, format_loop, ee_vsprintf,
}
use no_cgbp_rtl.Base.{ℕ, ◌+◌, ◌≢◌, ◌++◌, some, length, if◌then◌else◌, leb, arith}
use mathlib.Core.List.{map}
use no_cgbp_rtl.Printf.Format.{no_flags, undefined, out_of_fuel}
use no_cgbp_rtl.Printf.Print.{lock, send, unlock, buf_size, bsg_printf}
use no_cgbp_rtl.Printf.Decimal.{skip_atoi-number}
use no_cgbp_rtl.Printf.Pieces.{Letter, Piece, format_of, args_of}
use no_cgbp_rtl.Printf.Total.{ee_vsprintf-ends, bsg_printf_lem}
use Prim.Native.String.{String}
use Prim.Native.Char.{code}

abbrev codes : String → List ℕ
codes String.[] = []
codes (String.◌∷◌ c s) = code c ∷ codes s

-- `ee_vsprintf` with all that it calls open
run : List ℕ → List Arg → Result (List ℕ)
unfolding ee_vsprintf format_loop directive flag_char parse_flags parse_width parse_after_dot
    parse_precision parse_qualifier int_arg word_arg string_arg bytes_arg pad_before convert_char
    convert_string convert_pointer convert_address convert_integer convert_by convert strnlen
    skip_digits skip_atoi pad_out pad_to digit_loop tmp_digits sign_of prep_size prep_out spread
    raised layout number ether_text quad_byte quad_text padded eaddr iaddr ◌-ℤ◌ ◌+ℤ◌
run = ee_vsprintf

signed_widths :
    run
      (codes "[%5d|%-5d|%05d|%+d]")
      (int (negsuc 41) ∷ int (pos 42) ∷ int (pos 7) ∷ int (pos 3) ∷ [])
    ≡ ok (codes "[  -42|42   |00007|+3]")
unfolding run
signed_widths = refl

hexadecimal :
    run (codes "%x %X %#x %08x %o %%") (word 255 ∷ word 255 ∷ word 255 ∷ word 48879 ∷ word 8 ∷ [])
    ≡ ok (codes "ff FF 0xff 0000beef 10 %")
unfolding run
hexadecimal = refl

texts :
    run (codes "%s|%6s|%-6s|%.2s|%c") (
      string (some (codes "ab"))
      ∷ string (some (codes "ab"))
      ∷ string (some (codes "ab"))
      ∷ string none
      ∷ int (pos 33)
      ∷ [])
    ≡ ok (codes "ab|    ab|ab    |<N|!")
unfolding run
texts = refl

addresses :
    run
      (codes "%a %lA %")
      (bytes (10 ∷ 0 ∷ 255 ∷ 7 ∷ []) ∷ bytes (0 ∷ 17 ∷ 34 ∷ 171 ∷ 205 ∷ 239 ∷ []) ∷ [])
    ≡ ok (codes "10.0.255.7 00:11:22:AB:CD:EF %")
unfolding run
addresses = refl

skip_atoi-number_example :
    (s : List ℕ) × (number 4096 10 (negsuc 0) (negsuc 0) no_flags ≡ some s)
    × (skip_atoi (s ++ (b'.' ∷ b'7' ∷ [])) ≡ (pos 4096, b'.' ∷ b'7' ∷ []))
skip_atoi-number_example = skip_atoi-number 4096 no_flags (b'.' ∷ b'7' ∷ []) (omega arith) refl refl

abbrev short : List ℕ
short = b'%' ∷ b'd' ∷ b'!' ∷ []

ee_vsprintf-ends_example : ee_vsprintf short (int (pos 42) ∷ []) ≢ out_of_fuel
ee_vsprintf-ends_example = ee_vsprintf-ends short (int (pos 42) ∷ [])

abbrev answer : List ℕ
answer = b'4' ∷ b'2' ∷ b'!' ∷ []

ran : run short (int (pos 42) ∷ []) ≡ ok answer
unfolding run
ran = refl

formatted : ee_vsprintf short (int (pos 42) ∷ []) ≡ ok answer
unfolding run
formatted = ran

bsg_printf_lem_example : bsg_printf short (int (pos 42) ∷ []) ≡ (
    if leb (length answer + 1) buf_size
    then ok (lock ∷ (map send answer ++ (unlock ∷ [])), length answer)
    else undefined)
bsg_printf_lem_example =
    bsg_printf_lem short (int (pos 42) ∷ []) answer formatted (refl, (refl, (refl, tt)))

abbrev sample : List Piece
sample =
    Piece.literal (codes "id ")
    ∷ Piece.unsigned Letter.hexadecimal 48879
    ∷ Piece.text (codes " is ")
    ∷ Piece.signed (negsuc 41)
    ∷ Piece.percent
    ∷ Piece.character b'!'
    ∷ []

sample_format : format_of sample ≡ codes "id %x%s%d%%%c"
sample_format = refl

sample_output : run (format_of sample) (args_of sample) ≡ ok (codes "id beef is -42%!")
unfolding run
sample_output = refl
