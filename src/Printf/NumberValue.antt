-- ===== src/Printf/NumberValue.antt =====
-- What `number` writes reads back as the number: `tmp`, its reversal, and `skip_atoi`.
use no_cgbp_rtl.Base.{
  ℕ, zero, suc, ◌+◌, ◌-◌, ◌*◌, ◌/◌, ◌%◌, ◌^◌, ◌<◌, ◌≤◌, Bool, true, false, ◌||◌, ◌≡◌, ◌≢◌, refl,
  List, [], ◌∷◌, ◌++◌, some, leb, ◌==◌, if◌then◌else◌, length, get_or, All, holds_below,
  holds_below→, Bool-cases, inl, inr, ==_iff, arith,
}
use mathlib.Core.List.{reverse, reverse-append}
use native.Mathlib.Nat.{pow-suc, div-add-mod'}
use no_cgbp_rtl.Printf.Number.{is_digit, digits, upper_digits, digit_loop, tmp_digits, tmp_size}

-- The value of a digit in either case
abbrev pub digit_of : ℕ → ℕ
digit_of c = if is_digit c then c - b'0' else if leb b'a' c then c - b'a' + 10 else c - b'A' + 10

-- A numeral, the highest digit first
unfoldable pub read_base : (base acc : ℕ) → List ℕ → ℕ
read_base base acc [] = acc
read_base base acc (c ∷ s) = read_base base (acc * base + digit_of c) s

read_base-snoc :
    (base acc c : ℕ) (s : List ℕ)
    → read_base base acc (s ++ (c ∷ [])) ≡ read_base base acc s * base + digit_of c
unfolding read_base
read_base-snoc base acc c [] = refl
read_base-snoc base acc c (d ∷ s) = read_base-snoc base (acc * base + digit_of d) c s

-- A digit of a base: '0' to '9' below ten, a letter from ten on
abbrev pub IsNumeral : ℕ → ℕ → Type 0
IsNumeral base c = (digit_of c < base) × ((is_digit c || leb 10 (digit_of c)) ≡ true)

-- A numeral read from the lowest digit on, as it stands in `tmp`
abbrev low_value : (base : ℕ) → List ℕ → ℕ
low_value base [] = 0
low_value base (c ∷ r) = low_value base r * base + digit_of c

pub read_base-reverse : (base : ℕ) (r : List ℕ) → read_base base 0 (reverse r) ≡ low_value base r
unfolding read_base
read_base-reverse base [] = refl
read_base-reverse base (c ∷ r) =
    rw (reverse-append (c ∷ []) r, read_base-snoc, read_base-reverse base r)

abbrev table : Bool → List ℕ
table upper = if upper then upper_digits else digits

digit_table : (upper : Bool) → holds_below (λ k. digit_of (get_or (table upper) k 0) == k) 36 ≡ true
unfolding holds_below
digit_table true = refl
digit_table false = refl

digit_of-table : (upper : Bool) (k : ℕ) → k < 36 → digit_of (get_or (table upper) k 0) ≡ k
digit_of-table upper k h = (==_iff _ k).0 (holds_below→ _ 36 k (digit_table upper) h)

decimal_table :
    (upper : Bool)
    → holds_below
        (λ k. is_digit (get_or (table upper) k 0) || leb 10 (digit_of (get_or (table upper) k 0)))
        36
      ≡ true
unfolding holds_below
decimal_table true = refl
decimal_table false = refl

IsNumeral-table :
    (upper : Bool) (base k : ℕ) → base ≤ 36 → k < base → IsNumeral base (get_or (table upper) k 0)
IsNumeral-table upper base k hi h = (
  rw (digit_of-table upper k (omega arith)) h,
  holds_below→ _ 36 k (decimal_table upper) (omega arith),
)

halved : (base num room : ℕ) → 2 ≤ base → num < 2 ^ suc room → num / base < 2 ^ room
halved base num room lo small = grind (arith, pow-suc 2 room)

-- The loop ends within the room, and `tmp` holds the number.
digit_loop-value :
    (room : ℕ) (upper : Bool) (base num : ℕ)
    → 2 ≤ base
    → base ≤ 36
    → num < 2 ^ room
    → (r : List ℕ) × (digit_loop room (table upper) base num ≡ some r)
      × (low_value base r ≡ num)
      × (length r ≤ room)
      × All (IsNumeral base) r
unfolding digit_loop
digit_loop-value zero upper base num lo hi small = ([], ground arith, omega arith, omega arith, tt)
digit_loop-value (suc room) upper base num lo hi small = elim (Bool-cases (num == 0)) [
  | inl done ↦ ([], rw (done, digit_loop), omega (arith, (==_iff num 0).0 done), omega arith, tt)
  | inr more ↦
      let (r, found, value, short, numeral) =
        digit_loop-value room upper base (num / base) lo hi (halved base num room lo small) in
      (
        get_or (table upper) (num % base) 0 ∷ r,
        rw (more, digit_loop, found),
        rw (value, digit_of-table upper (num % base) (omega arith)) (div-add-mod' num base),
        omega arith,
        (IsNumeral-table upper base (num % base) hi (omega arith), numeral),
      )
]

low_value-pos : (base : ℕ) (r : List ℕ) → low_value base r ≢ 0 → 1 ≤ length r
low_value-pos base [] h = absurd (h refl)
low_value-pos base (c ∷ r) h = omega arith

-- `tmp` holds the number, with a digit at least, and with room to spare.
pub tmp_digits-value :
    (upper : Bool) (base num : ℕ)
    → 2 ≤ base
    → base ≤ 36
    → num < 2 ^ 32
    → (r : List ℕ) × (tmp_digits (if upper then upper_digits else digits) base num ≡ some r)
      × (low_value base r ≡ num)
      × (1 ≤ length r)
      × (length r ≤ tmp_size)
      × All (IsNumeral base) r
unfolding tmp_digits
tmp_digits-value upper base num lo hi small = elim (Bool-cases (num == 0)) [
  | inl none_left ↦ (
    b'0' ∷ [],
    rw none_left,
    omega (arith, (==_iff num 0).0 none_left),
    omega arith,
    omega arith,
    ((omega arith, refl), tt),
  )
  | inr some_left ↦
      let (r, found, value, short, numeral) =
        digit_loop-value tmp_size upper base num lo hi (omega arith) in
      (
        r,
        rw (some_left, found),
        value,
        low_value-pos base r (rw value (λ e. zero_test num e some_left)),
        short,
        numeral,
      )
]
  where
    zero_test : (n : ℕ) → n ≡ 0 → (n == 0) ≡ false → ⊥
    zero_test n e t = ground arith
