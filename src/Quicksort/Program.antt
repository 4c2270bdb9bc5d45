-- ===== src/Quicksort/Program.antt =====
-- What the tile's program says of its data.
use no_cgbp_rtl.Base.{
  refl, ℕ, zero, suc, ◌^◌, ◌<◌, Bool, some, ◌+◌, ◌-◌, ◌≤◌, ◌≡◌, ◌↔◌, sym, ap, ◌∙◌, List, true,
  false, ◌&&◌, not, arith,
}
use mathlib.Core.List.{foldr, Perm, Pairwise, mem-cons_self}
use mathlib.Core.List.Perm
use native.Mathlib.Decide.{ℕ_discrete}
use no_cgbp_rtl.Base.Int.{
  ℤ, pos, negsuc, pos_part, neg_part, ◌+ℤ◌, ◌≤ℤ◌, ltb_ℤ, +ℤ_assoc, +ℤ_comm, +ℤ-zero, ℤ-discrete,
}
use no_cgbp_rtl.Quicksort.{Array, in_int, checked_sum, judge, passes}
use no_cgbp_rtl.Quicksort.Arrays.{slice}
use no_cgbp_rtl.Quicksort.Split.{IsSorted}
use no_cgbp_rtl.Quicksort.Sort.{quicksort_lem}

abbrev pub total : List ℤ → ℤ
total = foldr ◌+ℤ◌ (pos 0)

total-perm : {xs ys : List ℤ} → Perm xs ys → total xs ≡ total ys
total-perm p = Perm.foldr-eq (hlevel ℤ-discrete) ◌+ℤ◌ swap p (pos 0)
  where
    swap : (a b c : ℤ) → a +ℤ (b +ℤ c) ≡ b +ℤ (a +ℤ c)
    swap a b c = sym (+ℤ_assoc a b c) ∙ ap (λ (t : ℤ). t +ℤ c) (+ℤ_comm a b) ∙ +ℤ_assoc b a c

ordered : (a b : ℤ) → a ≤ℤ b → ltb_ℤ b a ≡ false
ordered a b h = ground arith

equal_iff : (a b : ℤ) → ((true && not (ltb_ℤ a b) && not (ltb_ℤ b a)) ≡ true) ↔ (a ≡ b)
equal_iff a b = (λ h. ground arith, λ h. ground arith)

-- The values without their signs, and their sum
abbrev magnitude : ℤ → ℕ
magnitude z = pos_part z + neg_part z

abbrev pub magnitudes : List ℤ → ℕ
magnitudes = foldr (λ z n. magnitude z + n) 0

magnitudes-perm : {xs ys : List ℤ} → Perm xs ys → magnitudes xs ≡ magnitudes ys
magnitudes-perm p = Perm.foldr-eq (hlevel ℕ_discrete) (λ z n. magnitude z + n) swap p 0
  where
    swap : (a b : ℤ) (c : ℕ) → magnitude a + (magnitude b + c) ≡ magnitude b + (magnitude a + c)
    swap a b c = omega arith

in_int-small : (z : ℤ) → magnitude z < 2 ^ 31 → in_int z ≡ true
in_int-small (pos n) h = ground arith
in_int-small (negsuc n) h = ground arith

magnitude-+ℤ : (a b : ℤ) → magnitude (a +ℤ b) ≤ magnitude a + magnitude b
unfolding ◌+ℤ◌
magnitude-+ℤ a b = ground arith

checked_sum_lem :
    (k i : ℕ) (sum : ℤ) (a : Array)
    → magnitude sum + magnitudes (slice a (i + 1) k) < 2 ^ 31
    → IsSorted (slice a i (suc k))
    → checked_sum k i sum a ≡ some (true, sum +ℤ total (slice a (i + 1) k))
unfolding checked_sum slice
checked_sum_lem zero i sum a small s = rw +ℤ-zero
checked_sum_lem (suc k) i sum a small (Pairwise.cons below s) =
    let less = magnitude-+ℤ sum (a (i + 1)) in
    rw
      (
        in_int-small (sum +ℤ a (i + 1)) (omega (arith, less)),
        ordered (a i) (a (i + 1)) (below (a (i + 1)) mem-cons_self),
      )
      (checked_sum_lem k (i + 1) (sum +ℤ a (i + 1)) a (omega (arith, less)) s
        ∙ ap (λ t. some (true, t)) (+ℤ_assoc sum (a (i + 1)) (total (slice a (i + 1 + 1) k))))

-- With at least one element, elements whose magnitudes add up to less than 2^31, so that no sum
-- overflows, and whatever the scratch array holds: the tile comes to a verdict, and passes exactly when
-- the elements add up to the answer; so it never fails for their order.
pub passes_iff :
    (num_data : ℕ) (data_copy local_lst : Array) (answer : ℤ)
    → 1 ≤ num_data
    → magnitudes (slice data_copy 0 num_data) < 2 ^ 31
    → (b : Bool) × (passes num_data data_copy local_lst answer ≡ some b)
      × ((b ≡ true) ↔ (total (slice data_copy 0 num_data) ≡ answer))
unfolding passes judge slice
passes_iff zero data_copy local_lst answer some_data small = absurd (omega arith)
passes_iff (suc m) data_copy local_lst answer some_data small =
    let (sorted, local', e, s) =
      quicksort_lem (suc m) 0 (suc m) data_copy local_lst some_data (omega arith) in
    let less : suc m - 1 ≡ m = omega arith in
    let sum = total (slice data_copy 0 (suc m)) in
    (
      true && not (ltb_ℤ sum answer) && not (ltb_ℤ answer sum),
      rw
          (
            e,
            judge,
            less,
            checked_sum_lem m 0 (sorted 0) sorted (omega (arith, magnitudes-perm s.perm, small))
                s.sorted,
            total-perm s.perm,
          )
          refl,
      equal_iff sum answer,
    )
