-- ===== src/TileConfig/Steps.antt =====
-- What a step does to the coordinates.
use no_cgbp_rtl.Base.{
  ℕ, ◌≡◌, ◌⊎◌, inl, inr, refl, sym, ap, ◌∙◌, Bool, true, false, ltb, if◌then◌else◌, Bool-cases,
}
use mathlib.Core.Path.{ap₂}
use mathlib.Core.Bool.{true≢false}
use no_cgbp_rtl.Base.Int.{ℤ, pos, negsuc, ltb_ℤ}
use no_cgbp_rtl.Base.Loops.{put2, put2_self, put2_ne, pair-cases}
use no_cgbp_rtl.TileConfig.{
  Vars, Pc, storing_x, storing_y, waiting_x, waiting_y, testing, configuring, finished, filling_x,
  filling_y, move,
}

-- A variable that holds a coordinate, or nothing yet
abbrev pub Known : (ℕ → ℕ → ℤ) → (own : ℕ → ℕ → ℕ) → Type 0
Known f own = (x y : ℕ) → (f x y ≡ negsuc 0) ⊎ (f x y ≡ pos (own x y))

-- A store of the right coordinate
module _ (f : ℕ → ℕ → ℤ) (own : ℕ → ℕ → ℕ) (i j : ℕ) where
  put2-pos : (x y : ℕ) → f x y ≡ pos (own x y) → put2 f i j (pos (own i j)) x y ≡ pos (own x y)
  put2-pos x y e = elim (pair-cases i j x y) [
    | inl (p, q) ↦
        ap₂ (put2 f i j (pos (own i j))) (sym p) (sym q)
        ∙ put2_self f i j (pos (own i j))
        ∙ ap (λ (n : ℕ). pos n) (ap₂ own p q)
    | inr ne ↦ put2_ne f i j (pos (own i j)) x y ne ∙ e
  ]

  put2-Known : Known f own → Known (put2 f i j (pos (own i j))) own
  put2-Known h x y = elim (pair-cases i j x y) [
    | inl (p, q) ↦ inr (
        ap₂ (put2 f i j (pos (own i j))) (sym p) (sym q)
        ∙ put2_self f i j (pos (own i j))
        ∙ ap (λ (n : ℕ). pos n) (ap₂ own p q))
    | inr ne ↦ elim (h x y) [
      | inl e ↦ inl (put2_ne f i j (pos (own i j)) x y ne ∙ e)
      | inr e ↦ inr (put2_ne f i j (pos (own i j)) x y ne ∙ e)
    ]
  ]

abbrev pub own_x : (x y : ℕ) → ℕ
own_x x y = x

abbrev pub own_y : (x y : ℕ) → ℕ
own_y x y = y

-- Past the wait for each coordinate
abbrev pub past_x : Pc → Bool
past_x storing_x = false
past_x storing_y = false
past_x waiting_x = false
past_x _ = true

abbrev pub past_y : Pc → Bool
past_y storing_x = false
past_y storing_y = false
past_y waiting_x = false
past_y waiting_y = false
past_y _ = true

-- A step stores no coordinate but that of the tile that it goes to.
abbrev pub Keeps : Vars → Vars → Type 0
Keeps v w =
    (Known v.bsg_x own_x → Known w.bsg_x own_x)
    × (Known v.bsg_y own_y → Known w.bsg_y own_y)
    × ((x y : ℕ) → v.bsg_x x y ≡ pos x → w.bsg_x x y ≡ pos x)
    × ((x y : ℕ) → v.bsg_y x y ≡ pos y → w.bsg_y x y ≡ pos y)

Keeps-same : (v : Vars) → Keeps v v
Keeps-same v = (λ h. h, λ h. h, λ x y h. h, λ x y h. h)

Keeps-bsg_x : (v : Vars) (i j : ℕ) → Keeps v (record v { bsg_x = put2 v.bsg_x i j (pos i) })
Keeps-bsg_x v i j = (put2-Known v.bsg_x own_x i j, λ h. h, put2-pos v.bsg_x own_x i j, λ x y h. h)

Keeps-bsg_y : (v : Vars) (i j : ℕ) → Keeps v (record v { bsg_y = put2 v.bsg_y i j (pos j) })
Keeps-bsg_y v i j = (λ h. h, put2-Known v.bsg_y own_y i j, λ x y h. h, put2-pos v.bsg_y own_y i j)

module _ (tiles_x tiles_y : ℕ) where
  pub Keeps-move : (x y : ℕ) (v : Vars) (p : Pc) → Keeps v (move tiles_x tiles_y x y v p).0
  unfolding move
  Keeps-move x y v storing_x = Keeps-bsg_x v 0 0
  Keeps-move x y v storing_y = Keeps-bsg_y v 0 0
  Keeps-move x y v waiting_x = Keeps-same v
  Keeps-move x y v waiting_y = Keeps-same v
  Keeps-move x y v testing = Keeps-same v
  Keeps-move x y v configuring = Keeps-same v
  Keeps-move x y v finished = Keeps-same v
  Keeps-move x y v (filling_x i j) = elim (Bool-cases (ltb i tiles_x)) [
    | inl e ↦ elim (Bool-cases (ltb j tiles_y)) [
      | inl f ↦ rw (e, f) (Keeps-bsg_x v i j)
      | inr f ↦ rw (e, f) (Keeps-same v)
    ]
    | inr e ↦ rw e (Keeps-same v)
  ]
  Keeps-move x y v (filling_y i j) = Keeps-bsg_y v i j

  -- A wait ends at a coordinate.
  pub step_x :
      (x y : ℕ) (v : Vars) (p : Pc)
      → (v.bsg_x x y ≡ negsuc 0) ⊎ (v.bsg_x x y ≡ pos x)
      → (past_x p ≡ true → v.bsg_x x y ≡ pos x)
      → past_x (move tiles_x tiles_y x y v p).1 ≡ true
      → v.bsg_x x y ≡ pos x
  unfolding move
  step_x x y v storing_x k h e = absurd (true≢false (sym e))
  step_x x y v storing_y k h e = absurd (true≢false (sym e))
  step_x x y v waiting_x (inr k) h e = k
  step_x x y v waiting_x (inl k) h e = absurd (true≢false (sym (sym (stays k) ∙ e)))
    where
      stays :
          v.bsg_x x y ≡ negsuc 0
          → past_x (if ltb_ℤ (v.bsg_x x y) (pos 0) then waiting_x else waiting_y) ≡ false
      stays k = rw k refl
  step_x x y v waiting_y k h e = h refl
  step_x x y v testing k h e = h refl
  step_x x y v configuring k h e = h refl
  step_x x y v finished k h e = h refl
  step_x x y v (filling_x i j) k h e = h refl
  step_x x y v (filling_y i j) k h e = h refl

  pub step_y :
      (x y : ℕ) (v : Vars) (p : Pc)
      → (v.bsg_y x y ≡ negsuc 0) ⊎ (v.bsg_y x y ≡ pos y)
      → (past_y p ≡ true → v.bsg_y x y ≡ pos y)
      → past_y (move tiles_x tiles_y x y v p).1 ≡ true
      → v.bsg_y x y ≡ pos y
  unfolding move
  step_y x y v storing_x k h e = absurd (true≢false (sym e))
  step_y x y v storing_y k h e = absurd (true≢false (sym e))
  step_y x y v waiting_x (inr k) h e = k
  step_y x y v waiting_x (inl k) h e = elim (Bool-cases (ltb_ℤ (v.bsg_x x y) (pos 0))) [
    | inl t ↦ absurd (true≢false (sym (sym (early t) ∙ e)))
    | inr t ↦ absurd (true≢false (sym (sym (late t) ∙ e)))
  ]
    where
      early :
          ltb_ℤ (v.bsg_x x y) (pos 0) ≡ true
          → past_y (if ltb_ℤ (v.bsg_x x y) (pos 0) then waiting_x else waiting_y) ≡ false
      early t = rw t refl

      late :
          ltb_ℤ (v.bsg_x x y) (pos 0) ≡ false
          → past_y (if ltb_ℤ (v.bsg_x x y) (pos 0) then waiting_x else waiting_y) ≡ false
      late t = rw t refl
  step_y x y v waiting_y (inr k) h e = k
  step_y x y v waiting_y (inl k) h e = absurd (true≢false (sym (sym (stays k) ∙ e)))
    where
      stays :
          v.bsg_y x y ≡ negsuc 0
          → past_y (if ltb_ℤ (v.bsg_y x y) (pos 0) then waiting_y else testing) ≡ false
      stays k = rw k refl
  step_y x y v testing k h e = h refl
  step_y x y v configuring k h e = h refl
  step_y x y v finished k h e = h refl
  step_y x y v (filling_x i j) k h e = h refl
  step_y x y v (filling_y i j) k h e = h refl
