-- ===== src/Printf/Directives.antt =====
-- The conversions of bsg_printf.c never lack fuel, and a directive leaves no more format than it got.
use no_cgbp_rtl.Base.{
  ℕ, ◌≤◌, Bool, true, false, ◌||◌, List, [], ◌∷◌, Option, none, some, ◌*◌, ◌==◌, if◌then◌else◌,
  length, arith,
}
use no_cgbp_rtl.Base.Int.{ℤ, pos}
use no_cgbp_rtl.Printf.Number.{Flags, number}
use no_cgbp_rtl.Printf.Address.{eaddr, iaddr}
use no_cgbp_rtl.Printf.Format.{
  Arg, Result, ok, undefined, out_of_fuel, ◌>>=◌, defined, is_minus_one, is_long, no_flags,
  word_arg, string_arg, bytes_arg, parse_flags, parse_width, parse_precision, parse_qualifier,
  convert_char, convert_string, convert_pointer, convert_address, convert_integer, convert_by,
  convert, directive,
}
use no_cgbp_rtl.Printf.Parsing.{
  Returns, Returns->>=, word_arg-Returns, string_arg-Returns, bytes_arg-Returns,
  parse_flags-shorter, parse_width-shorter, parse_precision-shorter, parse_qualifier-shorter,
}

abbrev Any {ℓ} : {A : Type ℓ} → A → Type 0
Any a = Unit

Returns-if :
    {A : Type 0} (P : A → Type 0) (b : Bool) (x y : Result A)
    → Returns x P
    → Returns y P
    → Returns (if b then x else y) P
Returns-if P true x y h k = h
Returns-if P false x y h k = k

emitted-Returns :
    (o : Option (List ℕ)) (args : List Arg)
    → Returns {A = List ℕ × List Arg} (defined o >>= (λ out. ok (out, args))) Any
emitted-Returns none args = tt
emitted-Returns (some out) args = tt

convert_integer-Returns :
    (base : ℕ) (flags : Flags) (w p : ℤ) (args : List Arg)
    → Returns (convert_integer base flags w p args) Any
unfolding convert_integer
convert_integer-Returns base flags w p args =
    Returns->>= Any Any (word_arg args) _ (word_arg-Returns args)
      (λ r h. emitted-Returns (number r.0 base w p flags) r.1)

convert_char-Returns :
    (flags : Flags) (w : ℤ) (args : List Arg) → Returns (convert_char flags w args) Any
unfolding convert_char
convert_char-Returns flags w args =
    Returns->>= Any Any (word_arg args) _ (word_arg-Returns args) (λ r h. tt)

convert_string-Returns :
    (flags : Flags) (w p : ℤ) (args : List Arg) → Returns (convert_string flags w p args) Any
unfolding convert_string
convert_string-Returns flags w p args =
    Returns->>= Any Any (string_arg args) _ (string_arg-Returns args) (λ r h. tt)

convert_pointer-Returns :
    (flags : Flags) (w p : ℤ) (args : List Arg) → Returns (convert_pointer flags w p args) Any
unfolding convert_pointer
convert_pointer-Returns flags w p args =
    Returns->>= Any Any (word_arg args) _ (word_arg-Returns args) (λ r h.
      emitted-Returns
        (if is_minus_one w
          then number r.0 16 (pos (2 * 4)) p (record flags { zeropad = true })
          else number r.0 16 w p flags)
        r.1)

convert_address-Returns :
    (flags : Flags) (w : ℤ) (q : Option ℕ) (args : List Arg)
    → Returns (convert_address flags w q args) Any
unfolding convert_address
convert_address-Returns flags w q args =
    Returns->>= Any Any (bytes_arg args) _ (bytes_arg-Returns args)
      (λ r h. emitted-Returns (if is_long q then eaddr r.0 w flags else iaddr r.0 w flags) r.1)

convert_by-Returns :
    (c : ℕ) (flags : Flags) (w p : ℤ) (q : Option ℕ) (args : List Arg)
    → Returns (convert_by c flags w p q args) Any
unfolding convert_by
convert_by-Returns c flags w p q args =
    Returns-if Any (c == b'c') _ _ (convert_char-Returns flags w args) (
      Returns-if Any (c == b's') _ _ (convert_string-Returns flags w p args) (
        Returns-if Any (c == b'p') _ _ (convert_pointer-Returns flags w p args) (
          Returns-if Any (c == b'A') _ _ (convert_address-Returns _ w q args) (
            Returns-if Any (c == b'a') _ _ (convert_address-Returns flags w q args) (
              Returns-if Any (c == b'o') _ _ (convert_integer-Returns 8 flags w p args) (
                Returns-if Any (c == b'X') _ _ (convert_integer-Returns 16 _ w p args) (
                  Returns-if Any (c == b'x') _ _ (convert_integer-Returns 16 flags w p args) (
                    Returns-if Any (c == b'd' || c == b'i') _ _
                      (convert_integer-Returns 10 _ w p args)
                      (Returns-if Any (c == b'u') _ _ (convert_integer-Returns 10 flags w p args)
                        tt)))))))))

convert-shorter :
    (flags : Flags) (w p : ℤ) (q : Option ℕ) (fmt : List ℕ) (args : List Arg)
    → Returns (convert flags w p q fmt args) (λ r. length r.1 ≤ length fmt)
unfolding convert
convert-shorter flags w p q [] args = omega arith
convert-shorter flags w p q (c ∷ fmt) args =
    Returns->>= Any (λ r. length r.1 ≤ length (c ∷ fmt)) (convert_by c flags w p q args) _
      (convert_by-Returns c flags w p q args) (λ r h. omega arith)

Returns-le :
    {A : Type 0} (n : ℕ) (fmt : List ℕ) (m : Result (A × List ℕ))
    → length fmt ≤ n
    → Returns m (λ r. length r.1 ≤ length fmt)
    → Returns m (λ r. length r.1 ≤ n)
Returns-le n fmt (ok r) h k = omega arith
Returns-le n fmt undefined h k = tt
Returns-le n fmt out_of_fuel h k = k

pub directive-shorter :
    (fmt : List ℕ) (args : List Arg) → Returns (directive fmt args) (λ r. length r.1 ≤ length fmt)
unfolding directive
directive-shorter fmt args =
    Returns->>= (λ w. length w.2 ≤ length fmt1) (λ r. length r.1 ≤ length fmt)
      (parse_width (parse_flags no_flags fmt).0 fmt1 args) _
      (parse_width-shorter (parse_flags no_flags fmt).0 fmt1 args)
      (λ w hw.
        Returns->>= (λ p. length p.1 ≤ length w.2) (λ r. length r.1 ≤ length fmt)
          (parse_precision w.2 w.3) _ (parse_precision-shorter w.2 w.3)
          (λ p hp.
            Returns-le (length fmt) (parse_qualifier p.1).1 _
              (omega (arith, parse_qualifier-shorter p.1, parse_flags-shorter no_flags fmt))
              (convert-shorter w.1 w.0 p.0 (parse_qualifier p.1).0 (parse_qualifier p.1).1 p.2)))
  where
    fmt1 : List ℕ
    fmt1 = (parse_flags no_flags fmt).1
