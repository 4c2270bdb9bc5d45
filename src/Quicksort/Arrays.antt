-- ===== src/Quicksort/Arrays.antt =====
-- Parts of an array as lists.
use no_cgbp_rtl.Base.{
  ℕ, zero, suc, ◌+◌, ◌<◌, ◌≤◌, ◌≡◌, ◌≢◌, refl, sym, ap, ◌∙◌, List, [], ◌∷◌, ◌++◌, arith,
}
use mathlib.Core.Path.{ap₂}
use no_cgbp_rtl.Base.Int.{ℤ}
use no_cgbp_rtl.Quicksort.{Array, update}

pub update_self : (a : Array) (i : ℕ) (v : ℤ) → update a i v i ≡ v
unfolding update
update_self a i v = ground arith

pub update_ne : (a : Array) (i j : ℕ) (v : ℤ) → i ≢ j → update a i v j ≡ a j
unfolding update
update_ne a i j v h = ground arith

-- The `k` elements from `i` on
unfoldable pub slice : Array → (i k : ℕ) → List ℤ
slice a i zero = []
slice a i (suc k) = a i ∷ slice a (i + 1) k

pub slice-ext :
    (a b : Array) (i k : ℕ) → ((j : ℕ) → i ≤ j → j < i + k → a j ≡ b j) → slice a i k ≡ slice b i k
unfolding slice
slice-ext a b i zero h = refl
slice-ext a b i (suc k) h =
    ap₂ ◌∷◌ (h i (omega arith) (omega arith))
      (slice-ext a b (i + 1) k (λ j p q. h j (omega arith) (omega arith)))

pub slice-append : (a : Array) (i k l : ℕ) → slice a i (k + l) ≡ slice a i k ++ slice a (i + k) l
unfolding slice
slice-append a i zero l = ap₂ (slice a) (omega arith) (omega arith)
slice-append a i (suc k) l =
    ap (slice a i) (suc_add k l)
    ∙ ap (◌∷◌ (a i)) (slice-append a (i + 1) k l)
    ∙ ap (λ (m : ℕ). slice a i (suc k) ++ slice a m l) (omega arith)
  where
    suc_add : (k l : ℕ) → suc k + l ≡ suc (k + l)
    suc_add k l = omega arith

-- A write outside of the part
pub slice-update_out :
    (a : Array) (i k n : ℕ) (v : ℤ)
    → ((j : ℕ) → i ≤ j → j < i + k → n ≢ j)
    → slice (update a n v) i k ≡ slice a i k
slice-update_out a i k n v h = slice-ext _ a i k (λ j p q. update_ne a n j v (h j p q))

pub slice-update_next :
    (a : Array) (i k n : ℕ) (v : ℤ)
    → n ≡ i + k
    → slice (update a n v) i (k + 1) ≡ slice a i k ++ v ∷ []
unfolding slice
slice-update_next a i k n v e =
    slice-append (update a n v) i k 1
    ∙ ap₂ ◌++◌ (slice-update_out a i k n v (λ j p q d. omega arith))
        (ap (λ (t : ℤ). t ∷ []) (ap (update a n v) (sym e) ∙ update_self a n v))

pub slice-update_first :
    (a : Array) (i k : ℕ) (v : ℤ) → slice (update a i v) i (suc k) ≡ v ∷ slice a (i + 1) k
unfolding slice
slice-update_first a i k v =
    ap₂ ◌∷◌ (update_self a i v) (slice-update_out a (i + 1) k i v (λ j p q e. omega arith))
