-- ===== src/Printf/Parsing.antt =====
-- The parts of a directive in bsg_printf.c: reading one never lengthens the format.
use no_cgbp_rtl.Base.{
  ℕ, ◌≤◌, List, [], ◌∷◌, Option, none, some, ◌==◌, length, Bool-cases, Option-cases, inl, inr,
  arith,
}
use no_cgbp_rtl.Printf.Number.{Flags, next_digit, skip_digits, skip_atoi}
use no_cgbp_rtl.Printf.Format.{
  Arg, int, Result, ok, undefined, out_of_fuel, ◌>>=◌, defined, flag_char, int_arg, word_arg,
  string_arg, bytes_arg, parse_flags, parse_width, parse_after_dot, parse_precision,
  parse_qualifier,
}

-- A result that does not lack fuel, and where it is `ok` satisfies a predicate
abbrev pub Returns : {A : Type 0} → Result A → (A → Type 0) → Type 0
Returns (ok a) P = P a
Returns undefined P = Unit
Returns out_of_fuel P = ⊥

pub Returns->>= :
    {A B : Type 0} (P : A → Type 0) (Q : B → Type 0) (m : Result A) (f : A → Result B)
    → Returns m P
    → ((a : A) → P a → Returns (f a) Q)
    → Returns (m >>= f) Q
Returns->>= P Q (ok a) f h k = k a h
Returns->>= P Q undefined f h k = tt
Returns->>= P Q out_of_fuel f h k = elim h [ ]

-- An argument read never lacks fuel.
int_arg-Returns : (args : List Arg) → Returns (int_arg args) (λ r. Unit)
unfolding int_arg
int_arg-Returns [] = tt
int_arg-Returns (int z ∷ args) = tt
int_arg-Returns (_ ∷ args) = tt

pub word_arg-Returns : (args : List Arg) → Returns (word_arg args) (λ r. Unit)
unfolding word_arg
word_arg-Returns [] = tt
word_arg-Returns (int z ∷ args) = tt
word_arg-Returns (_ ∷ args) = tt

pub string_arg-Returns : (args : List Arg) → Returns (string_arg args) (λ r. Unit)
unfolding string_arg
string_arg-Returns [] = tt
string_arg-Returns (int z ∷ args) = tt
string_arg-Returns (_ ∷ args) = tt

pub bytes_arg-Returns : (args : List Arg) → Returns (bytes_arg args) (λ r. Unit)
unfolding bytes_arg
bytes_arg-Returns [] = tt
bytes_arg-Returns (int z ∷ args) = tt
bytes_arg-Returns (_ ∷ args) = tt

pub defined-Returns : {A : Type 0} (o : Option A) → Returns (defined o) (λ r. Unit)
defined-Returns none = tt
defined-Returns (some a) = tt

skip_digits-shorter : (n : ℕ) (s : List ℕ) → length (skip_digits n s).1 ≤ length s
unfolding skip_digits
skip_digits-shorter n [] = omega arith
skip_digits-shorter n (c ∷ s) = ground (arith, skip_digits-shorter (next_digit n c) s)

pub parse_flags-shorter : (f : Flags) (fmt : List ℕ) → length (parse_flags f fmt).1 ≤ length fmt
unfolding parse_flags
parse_flags-shorter f [] = omega arith
parse_flags-shorter f (c ∷ fmt) = elim (Option-cases (flag_char f c)) [
  | inl stop ↦ rw (stop, parse_flags) (omega arith)
  | inr (f', more) ↦ rw (more, parse_flags) (omega (arith, parse_flags-shorter f' fmt))
]

pub parse_width-shorter :
    (f : Flags) (fmt : List ℕ) (args : List Arg)
    → Returns (parse_width f fmt args) (λ r. length r.2 ≤ length fmt)
unfolding parse_width skip_atoi int_arg
parse_width-shorter f [] args = omega arith
parse_width-shorter f (c ∷ fmt) [] = ground (arith, skip_digits-shorter 0 (c ∷ fmt))
parse_width-shorter f (c ∷ fmt) (int z ∷ args) = ground (arith, skip_digits-shorter 0 (c ∷ fmt))
parse_width-shorter f (c ∷ fmt) (_ ∷ args) = ground (arith, skip_digits-shorter 0 (c ∷ fmt))

parse_after_dot-shorter :
    (fmt : List ℕ) (args : List Arg)
    → Returns (parse_after_dot fmt args) (λ r. length r.1 ≤ length fmt)
unfolding parse_after_dot skip_atoi int_arg
parse_after_dot-shorter [] args = omega arith
parse_after_dot-shorter (c ∷ fmt) [] = ground (arith, skip_digits-shorter 0 (c ∷ fmt))
parse_after_dot-shorter (c ∷ fmt) (int z ∷ args) = ground (arith, skip_digits-shorter 0 (c ∷ fmt))
parse_after_dot-shorter (c ∷ fmt) (_ ∷ args) = ground (arith, skip_digits-shorter 0 (c ∷ fmt))

pub parse_precision-shorter :
    (fmt : List ℕ) (args : List Arg)
    → Returns (parse_precision fmt args) (λ r. length r.1 ≤ length fmt)
unfolding parse_precision
parse_precision-shorter [] args = omega arith
parse_precision-shorter (c ∷ fmt) args = elim (Bool-cases (c == b'.')) [
  | inl dot ↦ rw dot (
      Returns->>= (λ r. length r.1 ≤ length fmt) (λ r. length r.1 ≤ length (c ∷ fmt))
        (parse_after_dot fmt args) _ (parse_after_dot-shorter fmt args) (λ r h. omega arith))
  | inr other ↦ rw other (omega arith)
]

pub parse_qualifier-shorter : (fmt : List ℕ) → length (parse_qualifier fmt).1 ≤ length fmt
unfolding parse_qualifier
parse_qualifier-shorter [] = omega arith
parse_qualifier-shorter (c ∷ fmt) = ground arith
