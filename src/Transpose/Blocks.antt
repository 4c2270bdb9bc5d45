-- ===== src/Transpose/Blocks.antt =====
-- What the blocks hold after each phase, and so what is printed.
use no_cgbp_rtl.Base.{
  ℕ, zero, suc, ◌+◌, ◌*◌, ◌/◌, ◌%◌, ◌^◌, ◌<◌, ◌≤◌, ◌≡◌, ◌≢◌, ◌⊎◌, inl, inr, refl, ap, ◌∙◌, bit_or,
  List, [], ◌∷◌, ◌++◌, ltb, ◌==◌, ◌&&◌, if◌then◌else◌, lt→ltb, Bool-cases, true, false, arith,
}
use mathlib.Core.Path.{ap₂}
use native.Mathlib.Nat.{mul-le-mul}
use no_cgbp_rtl.Base.Bits.{bit_or-shift}
use no_cgbp_rtl.Base.Loops.{
  for, for_each, put2, put2_self, put2_ne, pair-cases, Visits, for_keep, for_set, for_each_set,
}
use no_cgbp_rtl.Arch.{shl}
use no_cgbp_rtl.Manycore.{x_y_to_id}
use no_cgbp_rtl.Transpose.{
  tile_dim, matrix_rows, matrix_cols, Array, Tiles, init_source, transpose, result_at, outputs,
  print_result, first_phase, second_phase, printed, transposed,
}

word_sum : (i j : ℕ) → i < 2 ^ 16 → j < 2 ^ 16 → bit_or (shl i 16) j ≡ i * 65536 + j
word_sum i j hi hj = rw small (bit_or-shift 16 i j hj)
  where
    small : shl i 16 ≡ i * 2 ^ 16
    small = omega arith

put2_row : (f : Array) (i j v i' j' : ℕ) → i ≢ i' → put2 f i j v i' j' ≡ f i' j'
put2_row f i j v i' j' h = put2_ne f i j v i' j' (inl h)

put2_col : (f : Array) (i j v i' j' : ℕ) → j ≢ j' → put2 f i j v i' j' ≡ f i' j'
put2_col f i j v i' j' h = put2_ne f i j v i' j' (inr h)

-- Two loops that store `g i j` at the place of `i` and `j`
fill :
    (m n : ℕ) (g : Array) (p : Array) (i j : ℕ)
    → i < m
    → j < n
    → for m (λ i. for n (λ j p. put2 p i j (g i j))) p i j ≡ g i j
fill m n g p i j hi hj =
    for_set (λ (q : Array). q i j) m i (λ i. for n (λ j p. put2 p i j (g i j))) (g i j) p hi
      (λ t.
        for_set (λ (q : Array). q i j) n j (λ j p. put2 p i j (g i j)) (g i j) t hj
          (λ q. put2_self q i j (g i j)) (λ k q ne. put2_col q i k (g i k) i j ne))
      (λ k t ne.
        for_keep (λ (q : Array). q i j) n (λ j p. put2 p k j (g k j)) t
          (λ l q lt. put2_row q k l (g k l) i j ne))

fill_flipped :
    (m n : ℕ) (g : Array) (p : Array) (i j : ℕ)
    → i < m
    → j < n
    → for m (λ i. for n (λ j p. put2 p j i (g i j))) p j i ≡ g i j
fill_flipped m n g p i j hi hj =
    for_set (λ (q : Array). q j i) m i (λ i. for n (λ j p. put2 p j i (g i j))) (g i j) p hi
      (λ t.
        for_set (λ (q : Array). q j i) n j (λ j p. put2 p j i (g i j)) (g i j) t hj
          (λ q. put2_self q j i (g i j)) (λ k q ne. put2_row q k i (g i k) j i ne))
      (λ k t ne.
        for_keep (λ (q : Array). q j i) n (λ j p. put2 p j k (g k j)) t
          (λ l q lt. put2_col q l k (g k l) j i ne))

init_source_lem :
    (x y : ℕ) (p : Array) (i j : ℕ)
    → x < 4
    → y < 4
    → i < 2
    → j < 3
    → init_source x y p i j ≡ (i + y * 2) * 65536 + (j + x * 3)
unfolding init_source
init_source_lem x y p i j hx hy hi hj =
    fill 2 3 (λ i j. bit_or (shl (i + y * 2) 16) (j + x * 3)) p i j hi hj
    ∙ word_sum (i + y * 2) (j + x * 3) (omega arith) (omega arith)

transpose_lem :
    (source dest : Array) (i j : ℕ) → i < 2 → j < 3 → transpose source dest j i ≡ source i j
unfolding transpose
transpose_lem source dest i j hi hj = fill_flipped 2 3 source dest i j hi hj

-- Each order has every tile of the group.
abbrev pub Complete : List (ℕ × ℕ) → Type 0
Complete order = (x y : ℕ) → x < tile_dim → y < tile_dim → Visits (x, y) order

abbrev label : (x y i j : ℕ) → ℕ
label x y i j = (i + y * 2) * 65536 + (j + x * 3)

first_self :
    (x y i j : ℕ) (t : Tiles)
    → x < 4
    → y < 4
    → i < 2
    → j < 3
    → (first_phase (x, y) t).local_source x y i j ≡ label x y i j
unfolding first_phase
first_self x y i j t hx hy hi hj =
    rw
      (
        lt→ltb x 4 hx,
        lt→ltb y 4 hy,
        put2_self t.local_source x y (init_source x y (t.local_source x y)),
      )
      (init_source_lem x y (t.local_source x y) i j hx hy hi hj)

first_other :
    (x' y' x y i j : ℕ) (t : Tiles)
    → (x' ≢ x) ⊎ (y' ≢ y)
    → (first_phase (x', y') t).local_source x y i j ≡ t.local_source x y i j
unfolding first_phase
first_other x' y' x y i j t h = elim (Bool-cases (ltb x' 4 && ltb y' 4)) [
  | inl e ↦
      rw (e, put2_ne t.local_source x' y' (init_source x' y' (t.local_source x' y')) x y h) refl
  | inr e ↦ rw e refl
]

first_phase_lem :
    (order : List (ℕ × ℕ)) (tiles : Tiles) (x y i j : ℕ)
    → Complete order
    → x < 4
    → y < 4
    → i < 2
    → j < 3
    → (for_each order first_phase tiles).local_source x y i j ≡ label x y i j
first_phase_lem order tiles x y i j c hx hy hi hj =
    for_each_set (λ (t : Tiles). t.local_source x y i j) order first_phase _ tiles (c x y hx hy)
      (λ t. first_self x y i j t hx hy hi hj) other
  where
    other :
        (b : ℕ × ℕ)
        → ((t : Tiles) → (first_phase b t).local_source x y i j ≡ label x y i j)
          ⊎ ((t : Tiles) → (first_phase b t).local_source x y i j ≡ t.local_source x y i j)
    other (x', y') = elim (pair-cases x' y' x y) [
      | inl (e, f) ↦ inl (λ t. rw (e, f) (first_self x y i j t hx hy hi hj))
      | inr h ↦ inr (λ t. first_other x' y' x y i j t h)
    ]

-- The second phase on the destinations alone, since it never changes a source.
abbrev fetch : (sources : (x y : ℕ) → Array) → ℕ × ℕ → ((x y : ℕ) → Array) → (x y : ℕ) → Array
fetch sources (x, y) dests =
    if ltb x 4 && ltb y 4 then put2 dests x y (transpose (sources y x) (dests x y)) else dests

second_phase-fetch :
    (b : ℕ × ℕ) (t : Tiles)
    → second_phase b t
      ≡ record { local_source = t.local_source; local_dest = fetch t.local_source b t.local_dest }
unfolding second_phase
second_phase-fetch (x, y) t = elim (Bool-cases (ltb x 4 && ltb y 4)) [
  | inl e ↦ rw e refl
  | inr e ↦ rw e refl
]

second_phases-fetch :
    (order : List (ℕ × ℕ)) (t : Tiles)
    → for_each order second_phase t ≡ record {
      local_source = t.local_source;
      local_dest = for_each order (fetch t.local_source) t.local_dest;
    }
second_phases-fetch [] t = refl
second_phases-fetch (b ∷ order) t =
    ap (for_each order second_phase) (second_phase-fetch b t) ∙ second_phases-fetch order _

module _ (sources : (x y : ℕ) → Array) where
  fetch_self :
      (x y i j : ℕ) (d : (x y : ℕ) → Array)
      → x < 4
      → y < 4
      → i < 2
      → j < 3
      → fetch sources (x, y) d x y j i ≡ sources y x i j
  fetch_self x y i j d hx hy hi hj =
      rw (lt→ltb x 4 hx, lt→ltb y 4 hy, put2_self d x y (transpose (sources y x) (d x y)))
        (transpose_lem (sources y x) (d x y) i j hi hj)

  fetch_other :
      (x' y' x y : ℕ) (d : (x y : ℕ) → Array)
      → (x' ≢ x) ⊎ (y' ≢ y)
      → fetch sources (x', y') d x y ≡ d x y
  fetch_other x' y' x y d h = elim (Bool-cases (ltb x' 4 && ltb y' 4)) [
    | inl e ↦ rw (e, put2_ne d x' y' (transpose (sources y' x') (d x' y')) x y h) refl
    | inr e ↦ rw e refl
  ]

  fetch_lem :
      (order : List (ℕ × ℕ)) (dests : (x y : ℕ) → Array) (x y i j : ℕ)
      → Complete order
      → x < 4
      → y < 4
      → i < 2
      → j < 3
      → for_each order (fetch sources) dests x y j i ≡ sources y x i j
  fetch_lem order dests x y i j c hx hy hi hj =
      for_each_set (λ (d : (x y : ℕ) → Array). d x y j i) order (fetch sources) _ dests
        (c x y hx hy) (λ d. fetch_self x y i j d hx hy hi hj) other
    where
      other :
          (b : ℕ × ℕ)
          → ((d : (x y : ℕ) → Array) → fetch sources b d x y j i ≡ sources y x i j)
            ⊎ ((d : (x y : ℕ) → Array) → fetch sources b d x y j i ≡ d x y j i)
      other (x', y') = elim (pair-cases x' y' x y) [
        | inl (e, f) ↦ inl (λ d. rw (e, f) (fetch_self x y i j d hx hy hi hj))
        | inr h ↦ inr (λ d. ap (λ (a : Array). a j i) (fetch_other x' y' x y d h))
      ]

result_at_lem :
    (first second : List (ℕ × ℕ)) (tiles : Tiles) (i j : ℕ)
    → Complete first
    → Complete second
    → i < matrix_rows
    → j < matrix_cols
    → result_at (transposed first second tiles) i j ≡ i * 65536 + j
unfolding result_at transposed
result_at_lem first second tiles i j c d hi hj =
    ap (λ (t : Tiles). t.local_dest (i / 2) (j / 3) (j % 3) (i % 2))
      (second_phases-fetch second (for_each first first_phase tiles))
    ∙ fetch_lem _ second _ (i / 2) (j / 3) (i % 2) (j % 3) d (omega arith) (omega arith)
        (omega arith) (omega arith)
    ∙ first_phase_lem first tiles (j / 3) (i / 2) (i % 2) (j % 3) c (omega arith) (omega arith)
        (omega arith) (omega arith)
    ∙ omega arith

outputs-ext : (n : ℕ) (f g : ℕ → List ℕ) → ((i : ℕ) → i < n → f i ≡ g i) → outputs n f ≡ outputs n g
outputs-ext zero f g h = refl
outputs-ext (suc n) f g h =
    ap₂ ◌++◌ (outputs-ext n f g (λ i lt. h i (omega arith))) (h n (omega arith))

product : (a b : ℕ) → 1 ≤ a → 1 ≤ b → 1 ≤ a * b
product a b ha hb = mul-le-mul ha hb

-- Whatever the memories hold at first and in whatever orders that have every tile the tiles run:
-- after the second barrier, tile (0, 0) prints the marker 0xcab1 and then, column by column, the
-- transposed matrix, whose element in column `i` and row `j` is `i * 65536 + j`; no other tile prints.
pub printed-transposed :
    (tiles_x : ℕ) (first second : List (ℕ × ℕ)) (tiles : Tiles) (x y : ℕ)
    → 1 ≤ tiles_x
    → Complete first
    → Complete second
    → printed tiles_x (x, y) (transposed first second tiles) ≡ (
        if x == 0 && y == 0
        then 0xcab1 ∷ outputs 8 (λ i. outputs 12 (λ j. (i * 65536 + j) ∷ []))
        else [])
unfolding printed print_result x_y_to_id
printed-transposed tiles_x first second tiles x y some c d = elim (pair-cases x y 0 0) [
  | inl (e, f) ↦
      rw (e, f, origin)
        (ap (◌∷◌ 0xcab1) (
          outputs-ext 8 _ _ (λ i hi.
            outputs-ext 12 _ _
              (λ j hj. ap (λ (n : ℕ). n ∷ []) (result_at_lem first second tiles i j c d hi hj)))))
  | inr h ↦ rw (silent h, elsewhere h) refl
]
  where
    origin : (tiles_x * 0 + 0 == 0) ≡ true
    origin = ground arith

    silent : (x ≢ 0) ⊎ (y ≢ 0) → (ltb x 4 && ltb y 4 && tiles_x * y + x == 0) ≡ false
    silent (inl h) = ground arith
    silent (inr h) = ground (arith, product tiles_x y some (omega arith))

    elsewhere : (x ≢ 0) ⊎ (y ≢ 0) → (x == 0 && y == 0) ≡ false
    elsewhere (inl h) = ground arith
    elsewhere (inr h) = ground arith
