-- ===== src/Printf/Address.antt =====
-- Addresses in bsg_printf.c: `eaddr`, six bytes in hexadecimal, and `iaddr`, four in decimal. The
-- bytes at `addr` are a list; `none` is a read past its end.
use no_cgbp_rtl.Base.{
  ℕ, zero, suc, ◌/◌, ◌%◌, Bool, true, false, List, [], ◌∷◌, ◌++◌, Option, none, some, leb, ◌==◌,
  if◌then◌else◌, length, get_or,
}
use no_cgbp_rtl.Base.Int.{ℤ}
use no_cgbp_rtl.Printf.Number.{Flags, digits, upper_digits, pad_to}

-- `if (i != 0) tmp[len++] = sep;`
abbrev pub separator : (first : Bool) → ℕ → List ℕ
separator first sep = if first then [] else sep ∷ []

-- The rounds left of the loops that fill `tmp`
unfoldable pub ether_text : ℕ → (first : Bool) (dig addr : List ℕ) → Option (List ℕ)
ether_text zero first dig addr = some []
ether_text (suc k) first dig [] = none
ether_text (suc k) first dig (b ∷ addr) = elim (ether_text k false dig addr) [
  | none ↦ none
  | some r ↦ some (separator first b':' ++ (get_or dig (b / 16) 0 ∷ get_or dig (b % 16) 0 ∷ r))
]

unfoldable pub quad_byte : ℕ → List ℕ
quad_byte n =
    if n == 0
    then get_or digits 0 0 ∷ []
    else if leb 100 n
    then get_or digits (n / 100) 0
      ∷ get_or digits (n % 100 / 10) 0
      ∷ get_or digits (n % 100 % 10) 0
      ∷ []
    else if leb 10 n
    then get_or digits (n / 10) 0 ∷ get_or digits (n % 10) 0 ∷ []
    else get_or digits n 0 ∷ []

unfoldable pub quad_text : ℕ → (first : Bool) (addr : List ℕ) → Option (List ℕ)
quad_text zero first addr = some []
quad_text (suc k) first [] = none
quad_text (suc k) first (b ∷ addr) = elim (quad_text k false addr) [
  | none ↦ none
  | some r ↦ some (separator first b'.' ++ (quad_byte b ++ r))
]

-- The padding that ends both functions and the conversion of a string
unfoldable pub padded : (left : Bool) (size : ℤ) (text : List ℕ) → List ℕ
padded left size text =
    let before : List ℕ × ℤ = if left then ([], size) else pad_to (length text) size b' ' in
    before.0 ++ (text ++ (pad_to (length text) before.1 b' ').0)

unfoldable pub eaddr : (addr : List ℕ) (size : ℤ) → Flags → Option (List ℕ)
eaddr addr size type =
    elim (ether_text 6 true (if type.uppercase then upper_digits else digits) addr) [
      | none ↦ none
      | some tmp ↦ some (padded type.left size tmp)
    ]

unfoldable pub iaddr : (addr : List ℕ) (size : ℤ) → Flags → Option (List ℕ)
iaddr addr size type = elim (quad_text 4 true addr) [
  | none ↦ none
  | some tmp ↦ some (padded type.left size tmp)
]
