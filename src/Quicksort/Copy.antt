-- ===== src/Quicksort/Copy.antt =====
-- The loop that copies the scratch array back.
use no_cgbp_rtl.Base.{ℕ, zero, suc, ◌+◌, ◌<◌, ◌≤◌, ◌≡◌, ◌⊎◌, inl, refl, sym, ap, ◌∙◌, ◌∷◌, arith}
use mathlib.Core.Path.{ap₂}
use native.Mathlib.Decide.{ℕ_discrete}
use no_cgbp_rtl.Quicksort.{Array, update, copy}
use no_cgbp_rtl.Quicksort.Arrays.{update_self, update_ne, slice}

pub copy_out :
    (base k i : ℕ) (lst local_lst : Array) (j : ℕ)
    → (j < base + i) ⊎ (base + i + k ≤ j)
    → copy base k i lst local_lst j ≡ lst j
unfolding copy
copy_out base zero i lst local_lst j out = refl
copy_out base (suc k) i lst local_lst j out =
    copy_out base k (i + 1) (update lst (base + i) (local_lst i)) local_lst j (ground arith)
    ∙ update_ne lst (base + i) j (local_lst i) (λ e. ground arith)

pub copy_in :
    (base k i : ℕ) (lst local_lst : Array) (m : ℕ)
    → i ≤ m
    → m < i + k
    → copy base k i lst local_lst (base + m) ≡ local_lst m
unfolding copy
copy_in base zero i lst local_lst m lo hi = absurd (omega arith)
copy_in base (suc k) i lst local_lst m lo hi = elim (ℕ_discrete i m) [
  | yes e ↦
      copy_out base k (i + 1) (update lst (base + i) (local_lst i)) local_lst (base + m)
        (inl (omega arith))
      ∙ ap (λ (t : ℕ). update lst (base + i) (local_lst i) (base + t)) (sym e)
      ∙ update_self lst (base + i) (local_lst i)
      ∙ ap local_lst e
  | no ne ↦
      copy_in base k (i + 1) (update lst (base + i) (local_lst i)) local_lst m (omega arith)
        (omega arith)
]

pub slice-shift :
    (a b : Array) (i j k : ℕ)
    → ((m : ℕ) → m < k → a (i + m) ≡ b (j + m))
    → slice a i k ≡ slice b j k
unfolding slice
slice-shift a b i j zero h = refl
slice-shift a b i j (suc k) h =
    ap₂ ◌∷◌ (ap a (omega arith) ∙ h 0 (omega arith) ∙ ap b (omega arith)) (
      slice-shift a b (i + 1) (j + 1) k
        (λ m p. ap a (omega arith) ∙ h (m + 1) (omega arith) ∙ ap b (omega arith)))

pub slice-copy :
    (base n : ℕ) (lst local_lst : Array) (m l : ℕ)
    → m + l ≤ n
    → slice (copy base n 0 lst local_lst) (base + m) l ≡ slice local_lst m l
slice-copy base n lst local_lst m l h = slice-shift _ _ (base + m) m l (λ t p.
    ap (copy base n 0 lst local_lst) (omega arith)
    ∙ copy_in base n 0 lst local_lst (m + t) (omega arith) (omega arith))
