-- ===== src/Quicksort/Split.antt =====
-- An array split about its first element, and sorted by parts.
use no_cgbp_rtl.Base.{
  ℕ, suc, ◌+◌, ◌-◌, ◌<◌, ◌≤◌, ◌≡◌, ◌⊎◌, inl, inr, refl, ap, ◌∙◌, List, ◌∷◌, ◌++◌, arith,
}
use mathlib.Core.Path.{ap₂}
use mathlib.Core.Logic.Or
use mathlib.Core.List.{Perm, Pairwise, Pairwise-append, mem-cons}
use mathlib.Core.List.Perm
use native.Mathlib.Bridge.{le_prop}
use no_cgbp_rtl.Base.Int.{ℤ, ◌≤ℤ◌}
use no_cgbp_rtl.Quicksort.{Array}
use no_cgbp_rtl.Quicksort.Arrays.{slice, slice-ext, slice-append}
use no_cgbp_rtl.Quicksort.Partition.{Below, Above}

abbrev pub IsSorted : List ℤ → Type 0
IsSorted = Pairwise ◌≤ℤ◌

-- `n` elements from `base` on are sorted; the rest of the array, and the scratch array from `n` on,
-- are as they were.
pub record Sorts (base n : ℕ) (lst local_lst lst' local' : Array) : Type 0 where
  pub sorted : IsSorted (slice lst' base n)
  pub perm : Perm (slice lst' base n) (slice lst base n)
  pub frame : (j : ℕ) → (j < base) ⊎ (base + n ≤ j) → lst' j ≡ lst j
  pub scratch : (j : ℕ) → n ≤ j → local' j ≡ local_lst j

-- The array is split about `center`, which stands at `front`.
pub record Split (base n front : ℕ) (center : ℤ) (lst local_lst copied placed : Array)
    : Type 0 where
  pub inside : front < n
  pub at : copied (base + front) ≡ center
  pub lows : Below center (slice copied base front)
  pub highs : Above center (slice copied (base + (front + 1)) (n - 1 - front))
  pub perm : Perm (slice copied base n) (slice lst base n)
  pub frame : (j : ℕ) → (j < base) ⊎ (base + n ≤ j) → copied j ≡ lst j
  pub scratch : (j : ℕ) → n ≤ j → placed j ≡ local_lst j

-- The three parts of the split array
pub slice_about :
    (a : Array) (base n front : ℕ)
    → front < n
    → slice a base n
      ≡ slice a base front ++ a (base + front) ∷ slice a (base + (front + 1)) (n - 1 - front)
unfolding slice
slice_about a base n front h =
    ap (slice a base) count
    ∙ slice-append a base front (suc (n - 1 - front))
    ∙ ap (λ (t : ℕ). slice a base front ++ a (base + front) ∷ slice a t (n - 1 - front)) next
  where
    count : n ≡ front + suc (n - 1 - front)
    count = omega arith

    next : base + front + 1 ≡ base + (front + 1)
    next = omega arith

pub IsSorted-append :
    (center : ℤ) (lows highs : List ℤ)
    → IsSorted lows
    → IsSorted highs
    → Below center lows
    → Above center highs
    → IsSorted (lows ++ center ∷ highs)
IsSorted-append center lows highs sl sh below above = (Pairwise-append (λ a b. le_prop)).1 (
  sl,
  Pairwise.cons above sh,
  λ a ma b mb.
      Or.elim le_prop (mem-cons.0 mb) (λ e. rw e (below a ma))
        (λ m. omega (arith, below a ma, above b m)),
)

pub Sorts-Split :
    {base n front : ℕ} {center : ℤ} {lst local_lst copied placed lst1 local1 lst2 local2 : Array}
    → Split base n front center lst local_lst copied placed
    → Sorts base front copied placed lst1 local1
    → Sorts (base + (front + 1)) (n - 1 - front) lst1 local1 lst2 local2
    → Sorts base n lst local_lst lst2 local2
Sorts-Split {base} {n} {front} {center} {lst} {local_lst} {copied} {placed} {lst1} {local1} {lst2}
      {local2} s c d =
    record {
      sorted = rw whole (
          IsSorted-append center lows highs c.sorted d.sorted
            (λ x m. s.lows x ((Perm.mem_iff c.perm).0 m))
            (λ x m. s.highs x ((Perm.mem_iff highs_perm).0 m)));
      perm =
          rw whole
            (Perm.trans (Perm.append c.perm (Perm.cons center highs_perm)) (rw before at s.perm));
      frame = λ j out.
          d.frame j (ground (arith, s.inside))
          ∙ c.frame j (ground (arith, s.inside))
          ∙ s.frame j out;
      scratch =
          λ j h. d.scratch j (omega arith) ∙ c.scratch j (omega (arith, s.inside)) ∙ s.scratch j h;
    }
  where
    lows : List ℤ
    lows = slice lst1 base front

    highs : List ℤ
    highs = slice lst2 (base + (front + 1)) (n - 1 - front)

    whole :
        slice lst2 base n
        ≡ slice lst1 base front ++ center ∷ slice lst2 (base + (front + 1)) (n - 1 - front)
    whole =
        slice_about lst2 base n front s.inside
        ∙ ap₂ (λ l (v : ℤ). l ++ v ∷ slice lst2 (base + (front + 1)) (n - 1 - front))
            (slice-ext lst2 lst1 base front (λ j p q. d.frame j (inl (omega arith))))
            (d.frame (base + front) (inl (omega arith))
              ∙ c.frame (base + front) (inr (omega arith))
              ∙ s.at)

    before :
        slice copied base n
        ≡ slice copied base front ++ center ∷ slice copied (base + (front + 1)) (n - 1 - front)
    before =
        slice_about copied base n front s.inside
        ∙ ap
            (λ (v : ℤ).
              slice copied base front ++ v ∷ slice copied (base + (front + 1)) (n - 1 - front))
            s.at

    highs_perm :
        Perm
          (slice lst2 (base + (front + 1)) (n - 1 - front))
          (slice copied (base + (front + 1)) (n - 1 - front))
    highs_perm =
        rw
          (slice-ext lst1 copied (base + (front + 1)) (n - 1 - front)
            (λ j p q. c.frame j (inr (omega arith))))
          at d.perm

-- Nothing to sort
pub Sorts-empty : (base : ℕ) (lst local_lst : Array) → Sorts base 0 lst local_lst lst local_lst
unfolding slice
Sorts-empty base lst local_lst = record {
  sorted = Pairwise.nil;
  perm = Perm.rfl;
  frame = λ j h. refl;
  scratch = λ j h. refl;
}
