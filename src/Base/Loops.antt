-- ===== src/Base/Loops.antt =====
-- Counting loops over a state, and maps with one changed entry.
use Prim.Native.Nat.{ℕ, zero, suc, ◌<◌}
use mathlib.Core.Path.{◌≡◌, refl, sym, ap, ◌∙◌}
use mathlib.Core.Logic.{◌≢◌, ◌⊎◌, inl, inr}
use mathlib.Core.Bool.{◌&&◌}
use mathlib.Core.List.{List, [], ◌∷◌}
use native.Mathlib.Omega.{arith}
use no_cgbp_rtl.Base.Tests.{◌==◌, if◌then◌else◌}
use native.Mathlib.Decide.{ℕ_discrete}

-- Whether a list has an element somewhere
abbrev pub Visits : {A : Type 0} → A → List A → Type 0
Visits a [] = ⊥
Visits a (b ∷ list) = (a ≡ b) ⊎ Visits a list

-- A table with one entry changed
abbrev pub put {ℓ} : {A : Type ℓ} → (ℕ → A) → ℕ → A → ℕ → A
put f i v j = if i == j then v else f j

abbrev pub put2 {ℓ} : {A : Type ℓ} → (ℕ → ℕ → A) → (i j : ℕ) → A → ℕ → ℕ → A
put2 f i j v i' j' = if i == i' && j == j' then v else f i' j'

pub put2_self {ℓ} : {A : Type ℓ} (f : ℕ → ℕ → A) (i j : ℕ) (v : A) → put2 f i j v i j ≡ v
put2_self f i j v = ground arith

pub put2_ne {ℓ} :
    {A : Type ℓ} (f : ℕ → ℕ → A) (i j : ℕ) (v : A) (i' j' : ℕ)
    → (i ≢ i') ⊎ (j ≢ j')
    → put2 f i j v i' j' ≡ f i' j'
put2_ne f i j v i' j' (inl h) = ground arith
put2_ne f i j v i' j' (inr h) = ground arith

pub pair-cases : (i j i' j' : ℕ) → ((i ≡ i') × (j ≡ j')) ⊎ ((i ≢ i') ⊎ (j ≢ j'))
pair-cases i j i' j' = elim (ℕ_discrete i i') [
  | yes e ↦ elim (ℕ_discrete j j') [ yes f ↦ inl (e, f) | no h ↦ inr (inr h) ]
  | no h ↦ inr (inl h)
]

module _ {ℓ} {S : Type ℓ} where
  -- `for (i = 0; i < n; i++) body`
  abbrev pub for : (n : ℕ) → (body : ℕ → S → S) → S → S
  for zero body s = s
  for (suc n) body s = body n (for n body s)

  -- The body for each of a list, in its order
  abbrev pub for_each : {A : Type 0} → List A → (body : A → S → S) → S → S
  for_each [] body s = s
  for_each (a ∷ list) body s = for_each list body (body a s)

  module _ {κ} {B : Type κ} (read : S → B) where
    -- A loop of which no round changes what is read
    pub for_keep :
        (n : ℕ) (body : ℕ → S → S) (s : S)
        → ((i : ℕ) (t : S) → i < n → read (body i t) ≡ read t)
        → read (for n body s) ≡ read s
    for_keep zero body s h = refl
    for_keep (suc n) body s h =
        h n (for n body s) (omega arith) ∙ for_keep n body s (λ i t lt. h i t (omega arith))

    -- A loop of which one round alone sets what is read
    pub for_set :
        (n k : ℕ) (body : ℕ → S → S) (v : B) (s : S)
        → k < n
        → ((t : S) → read (body k t) ≡ v)
        → ((i : ℕ) (t : S) → i ≢ k → read (body i t) ≡ read t)
        → read (for n body s) ≡ v
    for_set zero k body v s lt here other = absurd (omega arith)
    for_set (suc n) k body v s lt here other = elim (ℕ_discrete n k) [
      | yes e ↦ ap (λ (m : ℕ). read (body m (for n body s))) e ∙ here (for n body s)
      | no ne ↦ other n (for n body s) ne ∙ for_set n k body v s (omega arith) here other
    ]

    for_each_keep :
        {A : Type 0} (list : List A) (body : A → S → S) (v : B) (s : S)
        → ((b : A) → ((t : S) → read (body b t) ≡ v) ⊎ ((t : S) → read (body b t) ≡ read t))
        → read s ≡ v
        → read (for_each list body s) ≡ v
    for_each_keep [] body v s h e = e
    for_each_keep (b ∷ list) body v s h e = for_each_keep list body v (body b s) h (next (h b))
      where
        next :
            ((t : S) → read (body b t) ≡ v) ⊎ ((t : S) → read (body b t) ≡ read t)
            → read (body b s) ≡ v
        next (inl sets) = sets s
        next (inr keeps) = keeps s ∙ e

    -- Each round sets what is read or keeps it, and one of the list sets it.
    pub for_each_set :
        {A : Type 0} {a : A} (list : List A) (body : A → S → S) (v : B) (s : S)
        → Visits a list
        → ((t : S) → read (body a t) ≡ v)
        → ((b : A) → ((t : S) → read (body b t) ≡ v) ⊎ ((t : S) → read (body b t) ≡ read t))
        → read (for_each list body s) ≡ v
    for_each_set [] body v s m here h = elim m [ ]
    for_each_set (b ∷ list) body v s (inl e) here h =
        for_each_keep list body v (body b s) h (ap (λ c. read (body c s)) (sym e) ∙ here s)
    for_each_set (b ∷ list) body v s (inr m) here h = for_each_set list body v (body b s) m here h
