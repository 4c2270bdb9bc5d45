-- ===== src/Printf/Format.antt =====
-- `ee_vsprintf` of bsg_printf.c: a directive's parts, its conversion, and the loop over the format.
use no_cgbp_rtl.Base.{
  ℕ, zero, suc, ◌-◌, ◌*◌, ◌%◌, ◌^◌, Bool, true, false, ◌||◌, List, [], ◌∷◌, ◌++◌, Option, none,
  some, ◌==◌, if◌then◌else◌, length, take,
}
use no_cgbp_rtl.Base.Int.{ℤ, pos, negsuc, ◌-ℤ◌, ◌+ℤ◌, ltb_ℤ}
use no_cgbp_rtl.Printf.Number.{Flags, is_digit, strnlen, skip_atoi, pad_out, number}
use no_cgbp_rtl.Printf.Address.{padded, eaddr, iaddr}

-- A variable argument: a signed `int`, a 32-bit word (unsigned, long or `void *`), a string or a
-- null pointer, or a pointer to address bytes. Int and word are the same register.
pub data Arg : Type 0 where
  int : ℤ → Arg
  word : ℕ → Arg
  string : Option (List ℕ) → Arg
  bytes : List ℕ → Arg

-- `undefined` is a call that C does not define: an argument that is missing or of another kind, a
-- read past the end of an address.
pub data Result {ℓ} (A : Type ℓ) : Type ℓ where
  ok : A → Result A
  undefined : Result A
  out_of_fuel : Result A

infixl 5 ◌>>=◌
abbrev pub ◌>>=◌ {ℓ κ} : {A : Type ℓ} {B : Type κ} → Result A → (A → Result B) → Result B
ok a >>= f = f a
undefined >>= f = undefined
out_of_fuel >>= f = out_of_fuel

abbrev pub defined {ℓ} : {A : Type ℓ} → Option A → Result A
defined none = undefined
defined (some a) = ok a

-- The 32-bit pattern of an argument
abbrev pub pattern_of : ℤ → ℕ
pattern_of (pos n) = n % 2 ^ 32
pattern_of (negsuc n) = (2 ^ 32 - 1 - n % 2 ^ 32) % 2 ^ 32

-- `va_arg` at the types that the code asks for
unfoldable pub int_arg : List Arg → Result (ℤ × List Arg)
int_arg (int z ∷ args) = ok (z, args)
int_arg _ = undefined

unfoldable pub word_arg : List Arg → Result (ℕ × List Arg)
word_arg (int z ∷ args) = ok (pattern_of z, args)
word_arg (word n ∷ args) = ok (n % 2 ^ 32, args)
word_arg _ = undefined

unfoldable pub string_arg : List Arg → Result (Option (List ℕ) × List Arg)
string_arg (string s ∷ args) = ok (s, args)
string_arg _ = undefined

unfoldable pub bytes_arg : List Arg → Result (List ℕ × List Arg)
bytes_arg (bytes b ∷ args) = ok (b, args)
bytes_arg _ = undefined

abbrev pub no_flags : Flags
no_flags = record {
  zeropad = false;
  sign = false;
  plus = false;
  space = false;
  left = false;
  hex_prep = false;
  uppercase = false;
}

-- The cases of the first `switch`; none of them applies at the end of the flags.
unfoldable pub flag_char : Flags → ℕ → Option Flags
flag_char flags c =
    if c == b'-'
    then some (record flags { left = true })
    else if c == b'+'
    then some (record flags { plus = true })
    else if c == b' '
    then some (record flags { space = true })
    else if c == b'#'
    then some (record flags { hex_prep = true })
    else if c == b'0'
    then some (record flags { zeropad = true })
    else none

-- The `repeat:` loop
unfoldable pub parse_flags : Flags → List ℕ → Flags × List ℕ
parse_flags flags [] = (flags, [])
parse_flags flags (c ∷ fmt) = elim (flag_char flags c) [
  | none ↦ (flags, c ∷ fmt)
  | some flags' ↦ parse_flags flags' fmt
]

-- Field width: a number, a star, or -1. A negative argument turns LEFT on.
unfoldable pub parse_width : Flags → List ℕ → List Arg → Result (ℤ × Flags × List ℕ × List Arg)
parse_width flags [] args = ok (negsuc 0, flags, [], args)
parse_width flags (c ∷ fmt) args =
    if is_digit c
    then (let (n, rest) = skip_atoi (c ∷ fmt) in ok (n, flags, rest, args))
    else if c == b'*'
    then int_arg args >>= (λ r.
      if ltb_ℤ r.0 (pos 0)
      then ok (pos 0 -ℤ r.0, record flags { left = true }, fmt, r.1)
      else ok (r.0, flags, fmt, r.1))
    else ok (negsuc 0, flags, c ∷ fmt, args)

-- After the dot: `precision` is still -1 where neither a digit nor a star follows.
unfoldable pub parse_after_dot : List ℕ → List Arg → Result (ℤ × List ℕ × List Arg)
parse_after_dot [] args = ok (negsuc 0, [], args)
parse_after_dot (c ∷ fmt) args =
    if is_digit c
    then (let (n, rest) = skip_atoi (c ∷ fmt) in ok (n, rest, args))
    else if c == b'*'
    then int_arg args >>= (λ r. ok (r.0, fmt, r.1))
    else ok (negsuc 0, c ∷ fmt, args)

unfoldable pub parse_precision : List ℕ → List Arg → Result (ℤ × List ℕ × List Arg)
parse_precision [] args = ok (negsuc 0, [], args)
parse_precision (c ∷ fmt) args =
    if c == b'.'
    then parse_after_dot fmt args >>= (λ r. ok (if ltb_ℤ r.0 (pos 0) then pos 0 else r.0, r.1, r.2))
    else ok (negsuc 0, c ∷ fmt, args)

-- The qualifier, of which only 'l' is ever asked for
unfoldable pub parse_qualifier : List ℕ → Option ℕ × List ℕ
parse_qualifier [] = (none, [])
parse_qualifier (c ∷ fmt) = if c == b'l' || c == b'L' then (some c, fmt) else (none, c ∷ fmt)

abbrev pub is_long : Option ℕ → Bool
is_long none = false
is_long (some q) = q == b'l'

-- `while (--field_width > 0) *str++ = ' ';`
unfoldable pub pad_before : ℤ → List ℕ × ℤ
pad_before width = let (out, size) = pad_out (width -ℤ pos 1) b' ' in (out, size +ℤ pos 1)

unfoldable pub convert_char : Flags → ℤ → List Arg → Result (List ℕ × List Arg)
convert_char flags width args =
    let before : List ℕ × ℤ = if flags.left then ([], width) else pad_before width in
    word_arg args >>= (λ r. ok (before.0 ++ (r.0 % 256 ∷ (pad_before before.1).0), r.1))

abbrev pub null_text : List ℕ
null_text = b'<' ∷ b'N' ∷ b'U' ∷ b'L' ∷ b'L' ∷ b'>' ∷ []

abbrev pub text_of : Option (List ℕ) → List ℕ
text_of none = null_text
text_of (some s) = s

unfoldable pub convert_string :
    Flags → (width precision : ℤ) → List Arg → Result (List ℕ × List Arg)
convert_string flags width precision args = string_arg args >>= (λ r.
    let s = text_of r.0 in ok (padded flags.left width (take (strnlen s precision) s), r.1))

abbrev pub is_minus_one : ℤ → Bool
is_minus_one (pos n) = false
is_minus_one (negsuc zero) = true
is_minus_one (negsuc (suc n)) = false

-- `sizeof(void *)` is 4.
unfoldable pub convert_pointer :
    Flags → (width precision : ℤ) → List Arg → Result (List ℕ × List Arg)
convert_pointer flags width precision args = word_arg args >>= (λ r.
    defined (
      if is_minus_one width
      then number r.0 16 (pos (2 * 4)) precision (record flags { zeropad = true })
      else number r.0 16 width precision flags)
    >>= (λ out. ok (out, r.1)))

unfoldable pub convert_address :
    Flags → (width : ℤ) → (qualifier : Option ℕ) → List Arg → Result (List ℕ × List Arg)
convert_address flags width qualifier args = bytes_arg args >>= (λ r.
    defined (if is_long qualifier then eaddr r.0 width flags else iaddr r.0 width flags)
    >>= (λ out. ok (out, r.1)))

-- The integer conversions. `unsigned long`, `int` and `unsigned int` are one 32-bit register, so
-- that the three reads of `num` are one.
unfoldable pub convert_integer :
    (base : ℕ) → Flags → (width precision : ℤ) → List Arg → Result (List ℕ × List Arg)
convert_integer base flags width precision args =
    word_arg args
    >>= (λ r. defined (number r.0 base width precision flags) >>= (λ out. ok (out, r.1)))

-- The cases of `switch (*fmt)` on a character
unfoldable pub convert_by :
    (c : ℕ)
    → Flags
    → (width precision : ℤ) (qualifier : Option ℕ) → List Arg
    → Result (List ℕ × List Arg)
convert_by c flags width precision qualifier args =
    if c == b'c'
    then convert_char flags width args
    else if c == b's'
    then convert_string flags width precision args
    else if c == b'p'
    then convert_pointer flags width precision args
    else if c == b'A'
    then convert_address (record flags { uppercase = true }) width qualifier args
    else if c == b'a'
    then convert_address flags width qualifier args
    else if c == b'o'
    then convert_integer 8 flags width precision args
    else if c == b'X'
    then convert_integer 16 (record flags { uppercase = true }) width precision args
    else if c == b'x'
    then convert_integer 16 flags width precision args
    else if c == b'd' || c == b'i'
    then convert_integer 10 (record flags { sign = true }) width precision args
    else if c == b'u'
    then convert_integer 10 flags width precision args
    else ok ((if c == b'%' then [] else b'%' ∷ []) ++ (c ∷ []), args)

-- At the end of the format, `--fmt` leaves the loop nothing to read.
unfoldable pub convert :
    Flags
    → (width precision : ℤ) (qualifier : Option ℕ) (fmt : List ℕ) → List Arg
    → Result ((List ℕ × List Arg) × List ℕ)
convert flags width precision qualifier [] args = ok ((b'%' ∷ [], args), [])
convert flags width precision qualifier (c ∷ fmt) args =
    convert_by c flags width precision qualifier args >>= (λ r. ok (r, fmt))

-- What the loop does from a '%' on, `fmt` standing behind it: the text, and the arguments and the
-- format that are left.
unfoldable pub directive : List ℕ → List Arg → Result ((List ℕ × List Arg) × List ℕ)
directive fmt args =
    let (flags0, fmt1) = parse_flags no_flags fmt in
    parse_width flags0 fmt1 args >>= (λ w. parse_precision w.2 w.3 >>= (λ p.
      let (qualifier, fmt4) = parse_qualifier p.1 in convert w.1 w.0 p.0 qualifier fmt4 p.2))

-- The loop over the format. A round reads a character at least, so that the fuel of `ee_vsprintf`
-- is enough.
unfoldable pub format_loop : ℕ → List ℕ → List Arg → Result (List ℕ)
format_loop zero fmt args = out_of_fuel
format_loop (suc fuel) [] args = ok []
format_loop (suc fuel) (c ∷ fmt) args = elim (c == b'%') [
  | true ↦ directive fmt args >>= (λ r. format_loop fuel r.1 r.0.1 >>= (λ out. ok (r.0.0 ++ out)))
  | false ↦ format_loop fuel fmt args >>= (λ out. ok (c ∷ out))
]

unfoldable pub ee_vsprintf : List ℕ → List Arg → Result (List ℕ)
ee_vsprintf fmt args = format_loop (suc (length fmt)) fmt args
