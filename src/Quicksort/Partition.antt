-- ===== src/Quicksort/Partition.antt =====
-- The loop that splits an array: what `local_lst` holds when it ends.
use no_cgbp_rtl.Base.{
  ℕ, zero, suc, ◌+◌, ◌-◌, ◌<◌, ◌≤◌, ◌≡◌, refl, sym, ◌∙◌, List, [], ◌∷◌, ◌++◌, append_assoc,
  Bool-cases, inl, inr, true, false, arith,
}
use mathlib.Core.Path.{ap₂}
use mathlib.Core.Logic.Or
use mathlib.Core.List.{Mem, Perm, mem-append, mem-cons, not-mem-nil, perm_middle}
use mathlib.Core.List.Perm
use native.Mathlib.Bridge.{le_prop}
use no_cgbp_rtl.Base.Int.{ℤ, ltb_ℤ, ◌≤ℤ◌}
use no_cgbp_rtl.Quicksort.{Array, update, partition}
use no_cgbp_rtl.Quicksort.Arrays.{
  update_ne, slice, slice-update_out, slice-update_next, slice-update_first,
}

abbrev pub Below : ℤ → List ℤ → Type 0
Below c items = (x : ℤ) → Mem x items → x ≤ℤ c

abbrev pub Above : ℤ → List ℤ → Type 0
Above c items = (x : ℤ) → Mem x items → c ≤ℤ x

-- `n` elements of `local_lst` with a gap at `back`, about `center`
pub record Parted (center : ℤ) (n : ℕ) (items : List ℤ) (before : Array) (r : ℕ × ℕ × Array)
    : Type 0 where
  pub met : r.0 ≡ r.1
  pub bound : r.1 < n
  pub lows : Below center (slice r.2 0 r.0)
  pub highs : Above center (slice r.2 (r.1 + 1) (n - 1 - r.1))
  pub perm : Perm (slice r.2 0 r.0 ++ slice r.2 (r.1 + 1) (n - 1 - r.1)) items
  pub frame : (j : ℕ) → n ≤ j → r.2 j ≡ before j

Parted-partition :
    {center : ℤ} {n : ℕ} {items items' : List ℤ} {before before' : Array} {r : ℕ × ℕ × Array}
    → Perm items' items
    → ((j : ℕ) → n ≤ j → before' j ≡ before j)
    → Parted center n items' before' r
    → Parted center n items before r
Parted-partition p f q = record {
  met = q.met;
  bound = q.bound;
  lows = q.lows;
  highs = q.highs;
  perm = Perm.trans q.perm p;
  frame = λ j h. q.frame j h ∙ f j h;
}

Below-append : (c v : ℤ) (items : List ℤ) → v ≤ℤ c → Below c items → Below c (items ++ v ∷ [])
Below-append c v items le h x m =
    Or.elim le_prop (mem-append.0 m) (h x)
      (λ one. Or.elim le_prop (mem-cons.0 one) (λ e. rw e le) (λ none. absurd (not-mem-nil none)))

Above-cons : (c v : ℤ) (items : List ℤ) → c ≤ℤ v → Above c items → Above c (v ∷ items)
Above-cons c v items le h x m = Or.elim le_prop (mem-cons.0 m) (λ e. rw e le) (h x)

high_perm :
    (v : ℤ) (items lows highs : List ℤ)
    → Perm (items ++ (lows ++ v ∷ highs)) (v ∷ (items ++ (lows ++ highs)))
high_perm v items lows highs =
    rw (sym (append_assoc items lows (v ∷ highs)), sym (append_assoc items lows highs))
      (perm_middle (items ++ lows) highs)

low_perm :
    (v : ℤ) (items lows highs : List ℤ)
    → Perm (items ++ ((lows ++ v ∷ []) ++ highs)) (v ∷ (items ++ (lows ++ highs)))
low_perm v items lows highs = rw (append_assoc lows (v ∷ []) highs) (high_perm v items lows highs)

module _ (lst : Array) (center : ℤ) (n : ℕ) where
  abbrev pub remaining : (k i front back : ℕ) (local_lst : Array) → List ℤ
  remaining k i front back local_lst =
      slice lst i k ++ (slice local_lst 0 front ++ slice local_lst (back + 1) (n - 1 - back))

  -- What the loop does after one more round holds of the whole, with an element put in front,
  low_step :
      (k i front back : ℕ) (local_lst : Array) {r : ℕ × ℕ × Array}
      → back ≡ front + suc k
      → back < n
      → ltb_ℤ (lst i) center ≡ true
      → Below center (slice local_lst 0 front)
      → Above center (slice local_lst (back + 1) (n - 1 - back))
      → (Below center (slice (update local_lst front (lst i)) 0 (front + 1))
          → Above center (slice (update local_lst front (lst i)) (back + 1) (n - 1 - back))
          → Parted center n
              (remaining k (i + 1) (front + 1) back (update local_lst front (lst i)))
              (update local_lst front (lst i))
              r)
      → Parted center n (remaining (suc k) i front back local_lst) local_lst r
  unfolding slice
  low_step k i front back local_lst gap bound below lows highs rest =
      let v = lst i in
      let front' = slice-update_next local_lst 0 front front v (omega arith) in
      let back' =
        slice-update_out local_lst (back + 1) (n - 1 - back) front v (λ j p q e. omega arith) in
      Parted-partition
        (rw (front', back')
          (low_perm v (slice lst (i + 1) k) (slice local_lst 0 front)
            (slice local_lst (back + 1) (n - 1 - back))))
        (λ j h. update_ne local_lst front j v (λ e. omega arith))
        (rest (rw front' (Below-append center v (slice local_lst 0 front) (ground arith) lows))
          (rw back' highs))

  -- or at the back.
  high_step :
      (k i front back : ℕ) (local_lst : Array) {r : ℕ × ℕ × Array}
      → back ≡ front + suc k
      → back < n
      → ltb_ℤ (lst i) center ≡ false
      → Below center (slice local_lst 0 front)
      → Above center (slice local_lst (back + 1) (n - 1 - back))
      → (Below center (slice (update local_lst back (lst i)) 0 front)
          → Above center (slice (update local_lst back (lst i)) (back - 1 + 1) (n - 1 - (back - 1)))
          → Parted center n
              (remaining k (i + 1) front (back - 1) (update local_lst back (lst i)))
              (update local_lst back (lst i))
              r)
      → Parted center n (remaining (suc k) i front back local_lst) local_lst r
  unfolding slice
  high_step k i front back local_lst gap bound above lows highs rest =
      let v = lst i in
      let front' = slice-update_out local_lst 0 front back v (λ j p q e. omega arith) in
      Parted-partition
        (rw (front', back')
          (high_perm v (slice lst (i + 1) k) (slice local_lst 0 front)
            (slice local_lst (back + 1) (n - 1 - back))))
        (λ j h. update_ne local_lst back j v (λ e. omega arith))
        (rest (rw front' lows) (
          rw back'
            (Above-cons center v (slice local_lst (back + 1) (n - 1 - back)) (ground arith) highs)))
    where
      back_before : back - 1 + 1 ≡ back
      back_before = omega arith

      more : n - 1 - (back - 1) ≡ suc (n - 1 - back)
      more = omega arith

      back' :
          slice (update local_lst back (lst i)) (back - 1 + 1) (n - 1 - (back - 1))
          ≡ lst i ∷ slice local_lst (back + 1) (n - 1 - back)
      back' =
          ap₂ (slice (update local_lst back (lst i))) back_before more
          ∙ slice-update_first local_lst back (n - 1 - back) (lst i)

  pub partition_lem :
      (k i front back : ℕ) (local_lst : Array)
      → back ≡ front + k
      → back < n
      → Below center (slice local_lst 0 front)
      → Above center (slice local_lst (back + 1) (n - 1 - back))
      → Parted center n
          (remaining k i front back local_lst)
          local_lst
          (partition lst center k i front back local_lst)
  unfolding partition slice
  partition_lem zero i front back local_lst gap bound lows highs = record {
    met = omega arith;
    bound = bound;
    lows = lows;
    highs = highs;
    perm = Perm.rfl;
    frame = λ j h. refl;
  }
  partition_lem (suc k) i front back local_lst gap bound lows highs =
      elim (Bool-cases (ltb_ℤ (lst i) center)) [
        | inl below ↦
            rw (below, partition)
              (low_step k i front back local_lst gap bound below lows highs (
                partition_lem k (i + 1) (front + 1) back (update local_lst front (lst i))
                  (omega arith) bound))
        | inr above ↦
            rw (above, partition)
              (high_step k i front back local_lst gap bound above lows highs (
                partition_lem k (i + 1) front (back - 1) (update local_lst back (lst i))
                  (omega arith) (omega arith)))
      ]
