-- ===== src/Histogram/Invariant.antt =====
-- What every interleaving keeps: the lock's word counts the tiles inside, and the histogram holds what
-- the tiles have brought.
use no_cgbp_rtl.Base.{
  ℕ, ◌+◌, ◌%◌, ◌^◌, ◌<◌, ◌≤◌, ◌≡◌, ◌≢◌, refl, sym, ◌∙◌, List, [], ◌∷◌, ltb, inl, inr, Bool-cases,
  ltb→lt, ◌==◌, ==_iff, arith,
}
use mathlib.Core.Path.{subst}
use mathlib.Core.Bool.{true≢false}
use no_cgbp_rtl.Base.Loops.{put}
use no_cgbp_rtl.Base.Sums.{sum, sum-put, sum_term, sum-two, sum-const}
use no_cgbp_rtl.Histogram.{Place, Machine, begin, work, start_idx, step, turn, run}
use no_cgbp_rtl.Histogram.Shares.{count, merged, inside}
use no_cgbp_rtl.Histogram.Steps.{
  Known, Known-keep, step-lock, step-histogram, step-Known, histogram-outside,
}

abbrev pub total : (tiles : ℕ) → (ℕ → Place → ℕ) → Machine → ℕ
total tiles f s = sum tiles (λ t. f t (s.place t))

-- The sum after one tile has moved
pub total-put :
    (tiles : ℕ) (f : ℕ → Place → ℕ) (s : Machine) (t : ℕ) (p : Place)
    → t < tiles
    → sum tiles (λ u. f u (put s.place t p u)) + f t (s.place t) ≡ total tiles f s + f t p
total-put tiles f s t p lt = ground (arith, sum-put {A = Place} f s.place t p tiles)

module _ (values : ℕ → ℕ) (tiles : ℕ) where
  pub record Inv (s : Machine) : Type 0 where
    pub lock_le : s.memory.lock ≤ 1
    pub owner : s.memory.lock ≡ total tiles (λ t. inside) s
    pub small : (j : ℕ) → j < 32 → s.memory.histogram j < 2 ^ 32
    pub held :
        (j : ℕ)
        → j < 32
        → s.memory.histogram j % 2 ^ 32 ≡ total tiles (λ t. merged values tiles t j) s % 2 ^ 32
    pub knows : (t : ℕ) → t < tiles → Known values tiles t s.memory (s.place t)

  module _ (s : Machine) (inv : Inv s) (t : ℕ) (t_lt : t < tiles) where
    turn_inside : inside (s.place t) ≤ s.memory.lock
    turn_inside = omega (arith, inv.owner, sum_term tiles (λ u. inside (s.place u)) t t_lt)

    turn-lock :
        ((turn values tiles s t).memory.lock ≤ 1)
        × ((turn values tiles s t).memory.lock ≡ total tiles (λ u. inside) (turn values tiles s t))
    unfolding turn
    turn-lock =
        let (le, e) = step-lock values tiles t s.memory (s.place t) inv.lock_le turn_inside in
        (
          le,
          omega (
            arith,
            e,
            inv.owner,
            total-put tiles (λ u. inside) s t (step values tiles t s.memory (s.place t)).1 t_lt,
          ),
        )

    turn-held :
        (j : ℕ)
        → j < 32
        → ((turn values tiles s t).memory.histogram j < 2 ^ 32)
          × ((turn values tiles s t).memory.histogram j % 2 ^ 32
              ≡ total tiles (λ u. merged values tiles u j) (turn values tiles s t) % 2 ^ 32)
    unfolding turn
    turn-held j j_lt =
        let (lt, e) =
          step-histogram values tiles t s.memory (s.place t) j (inv.knows t t_lt) j_lt
            (inv.small j j_lt) in
        (
          lt,
          omega (
            arith,
            e,
            inv.held j j_lt,
            total-put tiles (λ u. merged values tiles u j) s t
                (step values tiles t s.memory (s.place t)).1 t_lt,
          ),
        )

    turn-knows :
        ((i : ℕ) → i < work values tiles → values (start_idx values tiles t + i) < 32)
        → (u : ℕ) → u < tiles
        → Known values tiles u (turn values tiles s t).memory ((turn values tiles s t).place u)
    unfolding turn
    turn-knows small u u_lt =
        let m = s.memory in
        let next = step values tiles t m (s.place t) in
        elim (Bool-cases (t == u)) [
          | inl e ↦ rw e (
              subst (λ (v : ℕ). Known values tiles v next.0 next.1) ((==_iff t u).0 e)
                (step-Known values tiles t m (s.place t) small (inv.knows t t_lt)))
          | inr e ↦
              let ne : t ≢ u = λ same. true≢false (sym ((==_iff t u).1 same) ∙ e) in
              rw e (
                Known-keep values tiles u m next.0 (s.place u)
                  (λ within j. histogram-outside values tiles t m (s.place t) j (
                    omega (
                      arith,
                      sum-two tiles (λ v. inside (s.place v)) t u t_lt u_lt ne,
                      inv.owner,
                      inv.lock_le,
                      within,
                    )))
                  (inv.knows u u_lt))
        ]

  pub turn-Inv :
      (s : Machine) (t : ℕ)
      → ((i : ℕ) → i < work values tiles → values (start_idx values tiles t + i) < 32)
      → t < tiles
      → Inv s
      → Inv (turn values tiles s t)
  turn-Inv s t small t_lt inv = record {
    lock_le = (turn-lock s inv t t_lt).0;
    owner = (turn-lock s inv t t_lt).1;
    small = λ j lt. (turn-held s inv t t_lt j lt).0;
    held = λ j lt. (turn-held s inv t t_lt j lt).1;
    knows = λ u lt. turn-knows s inv t t_lt small u lt;
  }

  module _
      (small : (t : ℕ)
        → t < tiles
        → (i : ℕ) → i < work values tiles
        → values (start_idx values tiles t + i) < 32) where
    run_from : (s : Machine) (order : List ℕ) → Inv s → Inv (run values tiles s order)
    unfolding run
    run_from s [] inv = inv
    run_from s (t ∷ order) inv = elim (Bool-cases (ltb t tiles)) [
      | inl e ↦
          let lt = ltb→lt t tiles e in
          rw e (run_from (turn values tiles s t) order (turn-Inv s t (small t lt) lt inv))
      | inr e ↦ rw e (run_from s order inv)
    ]

    begin-Inv : Inv begin
    unfolding count
    begin-Inv = record {
      lock_le = omega arith;
      owner = omega (arith, sum-const tiles 0 (λ t. 0) (λ t lt. refl));
      small = λ j lt. omega arith;
      held = λ j lt. omega (arith, sum-const tiles 0 (λ t. 0) (λ t lt. refl));
      knows = λ t lt. (omega arith, λ j. refl);
    }

    pub run-Inv : (order : List ℕ) → Inv (run values tiles begin order)
    run-Inv order = run_from begin order begin-Inv
