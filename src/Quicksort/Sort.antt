-- ===== src/Quicksort/Sort.antt =====
-- The array after the call is a sorted rearrangement, and nothing else has changed.
use no_cgbp_rtl.Base.{
  ℕ, zero, suc, ◌+◌, ◌-◌, ◌≤◌, ◌≡◌, inl, inr, refl, sym, ap, ◌∙◌, List, [], ◌∷◌, ◌++◌, ◌==◌,
  if◌then◌else◌, not, append-nil, Bool, Bool-cases, true, false, arith,
}
use mathlib.Core.Path.{subst}
use mathlib.Core.List.{Perm, Pairwise-singleton, not-mem-nil, perm_middle}
use mathlib.Core.List.Perm
use no_cgbp_rtl.Base.Int.{ℤ}
use no_cgbp_rtl.Quicksort.{Array, update, partition, copy, Outcome, ◌>>=◌, sort_body, quicksort}
use no_cgbp_rtl.Quicksort.Arrays.{update_self, update_ne, slice, slice-update_out}
use no_cgbp_rtl.Quicksort.Partition.{Parted, partition_lem}
use no_cgbp_rtl.Quicksort.Copy.{copy_out, copy_in, slice-copy}
use no_cgbp_rtl.Quicksort.Split.{Sorts, Split, slice_about, Sorts-Split, Sorts-empty}

-- What the call returns, if it is right
abbrev pub Returns : (base n : ℕ) (lst local_lst : Array) → Outcome → Type 0
Returns base n lst local_lst r =
    (lst' local' : Array) × (r ≡ Outcome.done lst' local') × Sorts base n lst local_lst lst' local'

module _ (base n front : ℕ) (lst local_lst parted : Array) (some : 1 ≤ n)
    (p : Parted (lst base) n (slice lst (base + 1) (n - 1)) local_lst (front, front, parted)) where
  abbrev placed : Array
  placed = update parted front (lst base)

  abbrev copied : Array
  copied = copy base n 0 lst placed

  copied_center : copied (base + front) ≡ lst base
  copied_center =
      copy_in base n 0 lst placed front (omega arith) (omega (arith, p.bound))
      ∙ update_self parted front (lst base)

  copied_lows : slice copied base front ≡ slice parted 0 front
  copied_lows =
      ap (λ (b : ℕ). slice copied b front) (omega arith)
      ∙ slice-copy base n lst placed 0 front (omega (arith, p.bound))
      ∙ slice-update_out parted 0 front front (lst base) (λ j q r e. omega arith)

  copied_highs :
      slice copied (base + (front + 1)) (n - 1 - front) ≡ slice parted (front + 1) (n - 1 - front)
  copied_highs =
      slice-copy base n lst placed (front + 1) (n - 1 - front) (omega (arith, p.bound))
      ∙ slice-update_out parted (front + 1) (n - 1 - front) front (lst base)
          (λ j q r e. omega arith)

  copied_perm : Perm (slice copied base n) (slice lst base n)
  unfolding slice
  copied_perm =
      rw (slice_about copied base n front p.bound, copied_center, copied_lows, copied_highs, count)
        (Perm.trans (perm_middle (slice parted 0 front) (slice parted (front + 1) (n - 1 - front)))
          (Perm.cons (lst base) p.perm))
    where
      count : slice lst base n ≡ lst base ∷ slice lst (base + 1) (n - 1)
      count = ap (slice lst base) (number some)
        where
          number : 1 ≤ n → n ≡ suc (n - 1)
          number h = omega arith

  Split-partition : Split base n front (lst base) lst local_lst copied placed
  Split-partition = record {
    inside = p.bound;
    at = copied_center;
    lows = rw copied_lows p.lows;
    highs = rw copied_highs p.highs;
    perm = copied_perm;
    frame = λ j out. copy_out base n 0 lst placed j (ground arith);
    scratch =
        λ j h. update_ne parted front j (lst base) (λ e. omega (arith, p.bound)) ∙ p.frame j h;
  }

-- A call that is made only where there is something to sort
part_lem :
    (test : Bool) (base k : ℕ) (lst local_lst : Array) (r : Outcome)
    → (test ≡ true → Returns base k lst local_lst r)
    → (test ≡ false → k ≡ 0)
    → Returns base k lst local_lst (if test then r else Outcome.done lst local_lst)
part_lem true base k lst local_lst r some none = some refl
part_lem false base k lst local_lst r some none =
    (lst, local_lst, refl, rw (none refl) (Sorts-empty base lst local_lst))

bind_lem :
    {base n front : ℕ} {center : ℤ} {lst local_lst copied placed : Array} (r : Outcome)
    (rest : Array → Array → Outcome)
    → Split base n front center lst local_lst copied placed
    → Returns base front copied placed r
    → ((lst1 local1 : Array)
        → Returns (base + (front + 1)) (n - 1 - front) lst1 local1 (rest lst1 local1))
    → Returns base n lst local_lst (r >>= rest)
bind_lem r rest s (lst1, local1, e, c) after =
    let (lst2, local2, e', d) = after lst1 local1 in
    (lst2, local2, rw (e, ◌>>=◌) e', Sorts-Split s c d)

Sorts-singleton :
    (base n : ℕ) (lst local_lst : Array) → n ≡ 1 → Sorts base n lst local_lst lst local_lst
unfolding slice
Sorts-singleton base n lst local_lst e = rw e (record {
  sorted = Pairwise-singleton _ (lst base);
  perm = Perm.rfl;
  frame = λ j h. refl;
  scratch = λ j h. refl;
})

parted_lem :
    (base n : ℕ) (lst local_lst : Array)
    → 1 ≤ n
    → let r = partition lst (lst base) (n - 1) (base + 1) 0 (n - 1) local_lst in
      (r.0 ≡ r.1) × Parted (lst base) n (slice lst (base + 1) (n - 1)) local_lst (r.0, r.0, r.2)
unfolding slice
parted_lem base n lst local_lst some =
    let r = partition lst (lst base) (n - 1) (base + 1) 0 (n - 1) local_lst in
    let p : Parted (lst base) n (slice lst (base + 1) (n - 1)) local_lst r =
      subst (λ (items : List ℤ). Parted (lst base) n items local_lst r) nothing
        (partition_lem lst (lst base) n (n - 1) (base + 1) 0 (n - 1) local_lst (omega arith)
          (omega arith) (λ x m. absurd (not-mem-nil m)) (rw gap (λ x m. absurd (not-mem-nil m)))) in
    (
      p.met,
      subst (λ (b : ℕ). Parted (lst base) n (slice lst (base + 1) (n - 1)) local_lst (r.0, b, r.2))
          (sym p.met) p,
    )
  where
    gap : slice local_lst (n - 1 + 1) (n - 1 - (n - 1)) ≡ []
    gap = ap (slice local_lst (n - 1 + 1)) less
      where
        less : n - 1 - (n - 1) ≡ 0
        less = omega arith

    nothing :
        slice lst (base + 1) (n - 1) ++ ([] ++ slice local_lst (n - 1 + 1) (n - 1 - (n - 1)))
        ≡ slice lst (base + 1) (n - 1)
    nothing =
        ap (λ l. slice lst (base + 1) (n - 1) ++ l) gap ∙ append-nil (slice lst (base + 1) (n - 1))

sort_body_lem :
    (sort : (base n : ℕ) (lst local_lst : Array) → Outcome) (base n : ℕ) (lst local_lst : Array)
    → 2 ≤ n
    → let r = partition lst (lst base) (n - 1) (base + 1) 0 (n - 1) local_lst in
      let placed = update r.2 r.0 (lst base) in
      let copied = copy base n 0 lst placed in
      r.0 ≡ r.1
      → sort_body sort base n lst local_lst ≡ (
          (if not (r.0 == 0) then sort base r.0 copied placed else Outcome.done copied placed)
          >>= (λ lst' local'.
              if not (r.0 == n - 1)
              then sort (base + (r.0 + 1)) (n - 1 - r.0) lst' local'
              else Outcome.done lst' local'))
unfolding sort_body
sort_body_lem sort base n lst local_lst h met =
    rw
      (one, none, sym met, same (partition lst (lst base) (n - 1) (base + 1) 0 (n - 1) local_lst).0)
  where
    one : (n == 1) ≡ false
    one = ground arith

    none : (n == 0) ≡ false
    none = ground arith

    same : (k : ℕ) → (k == k) ≡ true
    same k = ground arith

-- For any array and any scratch array, with at least one element and as much fuel as elements: the
-- call returns, the elements are sorted and a rearrangement of what they were, and nothing outside of
-- them and of the first `n` elements of the scratch array has changed.
pub quicksort_lem :
    (fuel base n : ℕ) (lst local_lst : Array)
    → 1 ≤ n
    → n ≤ fuel
    → Returns base n lst local_lst (quicksort fuel base n lst local_lst)
unfolding quicksort sort_body
quicksort_lem zero base n lst local_lst some enough = absurd (omega arith)
quicksort_lem (suc fuel) base n lst local_lst some enough = elim (Bool-cases (n == 1)) [
  | inl one ↦
      rw (one, sort_body)
        (lst, local_lst, refl, Sorts-singleton base n lst local_lst (ground arith))
  | inr more ↦
      let r = partition lst (lst base) (n - 1) (base + 1) 0 (n - 1) local_lst in
      let p = parted_lem base n lst local_lst some in
      let split = Split-partition base n r.0 lst local_lst r.2 some p.1 in
      rw (sort_body_lem (quicksort fuel) base n lst local_lst (ground arith) p.0) (
        bind_lem _ _ split
          (part_lem (not (r.0 == 0)) base r.0 _ _ _
            (λ t. quicksort_lem fuel base r.0 _ _ (ground arith) (omega (arith, split.inside)))
            (λ t. ground arith))
          (λ lst1 local1.
            part_lem (not (r.0 == n - 1)) (base + (r.0 + 1)) (n - 1 - r.0) lst1 local1 _
              (λ t.
                quicksort_lem fuel (base + (r.0 + 1)) (n - 1 - r.0) lst1 local1
                  (ground (arith, split.inside)) (omega arith))
              (λ t. ground arith)))
]
