-- ===== src/HwBarrier/Table.antt =====
-- The configuration array, as the loops leave it.
use no_cgbp_rtl.Base.{
  ℕ, zero, suc, ◌+◌, ◌*◌, ◌<◌, ◌≤◌, ◌≡◌, ◌≢◌, ◌∙◌, refl, List, length, get_or, length-set,
  get_or-set_self, get_or-set_ne, arith,
}
use no_cgbp_rtl.Base.Digits.{digits_eq, digits_in_range}
use native.Mathlib.Decide.{ℕ_discrete}
use no_cgbp_rtl.HwBarrier.{config_word, init_column, init_columns, config_init}

-- Distinct tiles of the group have distinct elements.
row_ne : (tx x x' y y' : ℕ) → x < tx → x' < tx → y' < y → x + y * tx ≡ x' + y' * tx → ⊥
row_ne tx x x' y y' hx hx' lt e = omega (arith, (digits_eq tx y y' x x' hx hx' (omega arith)).0)

column_ne : (tx x x' y y' : ℕ) → x < tx → x' < tx → x < x' → x' + y' * tx ≡ x + y * tx → ⊥
column_ne tx x x' y y' hx hx' lt e = omega (arith, (digits_eq tx y' y x' x hx' hx (omega arith)).1)

module _ (factor tx ty : ℕ) where
  length-init_column :
      (k x y : ℕ) (arr : List ℕ) → length (init_column factor tx ty k x y arr) ≡ length arr
  unfolding init_column
  length-init_column zero x y arr = refl
  length-init_column (suc k) x y arr =
      length-init_column k x (y + 1) _ ∙ length-set arr (x + y * tx) _

  -- A column of the loop leaves the other elements alone.
  column_miss :
      (k x y : ℕ) (arr : List ℕ) (j : ℕ)
      → ((r : ℕ) → y ≤ r → r < y + k → x + r * tx ≢ j)
      → get_or (init_column factor tx ty k x y arr) j 0 ≡ get_or arr j 0
  unfolding init_column
  column_miss zero x y arr j other = refl
  column_miss (suc k) x y arr j other =
      column_miss k x (y + 1) _ j (λ r lo hi. other r (omega arith) (omega arith))
      ∙ get_or-set_ne arr (x + y * tx) j _ 0 (other y (omega arith) (omega arith))

  column_hit :
      (k x y : ℕ) (arr : List ℕ) (r : ℕ)
      → x < tx
      → y ≤ r
      → r < y + k
      → x + r * tx < length arr
      → get_or (init_column factor tx ty k x y arr) (x + r * tx) 0 ≡ config_word factor tx ty x r
  unfolding init_column
  column_hit zero x y arr r hx lo hi room = absurd (omega arith)
  column_hit (suc k) x y arr r hx lo hi room = elim (ℕ_discrete y r) [
    | yes here ↦
        let room' : x + y * tx < length arr = rw here room in
        rw (← here) (
          column_miss k x (y + 1) _ (x + y * tx)
            (λ q lo' hi' e. row_ne tx x x q y hx hx (omega arith) e)
          ∙ get_or-set_self arr (x + y * tx) _ 0 room')
    | no later ↦
        column_hit k x (y + 1) _ r hx (omega arith) (omega arith)
          (omega (arith, length-set arr (x + y * tx) (config_word factor tx ty x y)))
  ]

  length-init_columns :
      (k x : ℕ) (arr : List ℕ) → length (init_columns factor tx ty k x arr) ≡ length arr
  unfolding init_columns
  length-init_columns zero x arr = refl
  length-init_columns (suc k) x arr =
      length-init_columns k (x + 1) _ ∙ length-init_column ty x 0 arr

  columns_miss :
      (k x : ℕ) (arr : List ℕ) (j : ℕ)
      → ((c r : ℕ) → x ≤ c → c < x + k → r < ty → c + r * tx ≢ j)
      → get_or (init_columns factor tx ty k x arr) j 0 ≡ get_or arr j 0
  unfolding init_columns
  columns_miss zero x arr j other = refl
  columns_miss (suc k) x arr j other =
      columns_miss k (x + 1) _ j (λ c r lo hi. other c r (omega arith) (omega arith))
      ∙ column_miss ty x 0 arr j (λ r lo hi. other x r (omega arith) (omega arith) (omega arith))

  columns_hit :
      (k x : ℕ) (arr : List ℕ) (c r : ℕ)
      → x ≤ c
      → c < x + k
      → x + k ≤ tx
      → r < ty
      → c + r * tx < length arr
      → get_or (init_columns factor tx ty k x arr) (c + r * tx) 0 ≡ config_word factor tx ty c r
  unfolding init_columns
  columns_hit zero x arr c r lo hi top hr room = absurd (omega arith)
  columns_hit (suc k) x arr c r lo hi top hr room = elim (ℕ_discrete x c) [
    | yes here ↦
        let room' : x + r * tx < length arr = rw here room in
        rw (← here) (
          columns_miss k (x + 1) _ (x + r * tx) (λ c' r' lo' hi' hr' e.
            column_ne tx x c' r r' (omega arith) (omega arith) (omega arith) e)
          ∙ column_hit ty x 0 arr r (omega arith) (omega arith) (omega arith) room')
    | no later ↦
        columns_hit k (x + 1) _ c r (omega arith) (omega arith) (omega arith) hr
          (omega (arith, length-init_column ty x 0 arr))
  ]

  -- For an array with room for the group, the initialisation keeps its length, stores each tile's
  -- word at the tile's number, and leaves every element from the number of tiles on alone.
  pub config_init_lem :
      (arr : List ℕ)
      → tx * ty ≤ length arr
      → (length (config_init factor tx ty arr) ≡ length arr)
        × ((x y : ℕ)
            → x < tx
            → y < ty
            → get_or (config_init factor tx ty arr) (x + y * tx) 0 ≡ config_word factor tx ty x y)
        × ((j : ℕ) → tx * ty ≤ j → get_or (config_init factor tx ty arr) j 0 ≡ get_or arr j 0)
  unfolding config_init
  config_init_lem arr room = (
    length-init_columns tx 0 arr,
    λ x y hx hy.
        columns_hit tx 0 arr x y (omega arith) (omega arith) (omega arith) hy
          (omega (arith, digits_in_range tx ty y x hx hy)),
    λ j past.
        columns_miss tx 0 arr j
          (λ c r lo hi hr e. absurd (omega (arith, digits_in_range tx ty r c (omega arith) hr))),
  )
