-- ===== src/Histogram/Progress.antt =====
-- From every state that is reached, an order of steps brings all tiles to the barrier.
use no_cgbp_rtl.Base.{
  ℕ, zero, suc, ◌+◌, ◌-◌, ◌*◌, ◌<◌, ◌≤◌, ◌≡◌, ◌⊎◌, inl, inr, refl, sym, ap, ◌∙◌, List, [], ◌∷◌,
  ◌++◌, ltb, Bool-cases, ltb→lt, lt→ltb, if◌then◌else◌, arith,
}
use mathlib.Core.Path.{subst}
use native.Mathlib.Decide.{ℕ_discrete, dec_lt}
use no_cgbp_rtl.Base.Sums.{sum_term, sum-some}
use no_cgbp_rtl.Histogram.{
  Memory, Place, counting, trying, merging, adding, waiting, undefined, Machine, begin, work,
  start_idx, size, step, turn, run,
}
use no_cgbp_rtl.Histogram.Shares.{inside}
use no_cgbp_rtl.Histogram.Steps.{Known}
use no_cgbp_rtl.Histogram.Invariant.{Inv, total, total-put, turn-Inv, run-Inv}
use no_cgbp_rtl.Histogram.Results.{own_share}

module _ (values : ℕ → ℕ) (tiles : ℕ) where
  -- The steps that a tile has before it, when no swap fails
  abbrev left : Place → ℕ
  left (counting i local) = (work values tiles - i) + 67
  left (trying local) = 66
  left (merging i local) = 2 * (32 - i) + 1
  left (adding i v local) = 2 * (32 - i)
  left waiting = 0
  left undefined = 0

  step-left :
      (t : ℕ) (m : Memory) (p : Place)
      → ((i : ℕ) → i < work values tiles → values (start_idx values tiles t + i) < 32)
      → Known values tiles t m p
      → (m.lock ≡ 0) ⊎ (inside p ≡ 1)
      → 0 < left p
      → left (step values tiles t m p).1 < left p
  unfolding step
  step-left t m (counting i local) small known free some =
      let v = values (start_idx values tiles t + i) in
      elim (Bool-cases (ltb i (work values tiles))) [
        | inl e ↦
            let lt = ltb→lt i (work values tiles) e in
            rw (e, lt→ltb v 32 (small i lt)) (omega arith)
        | inr e ↦ rw e (omega arith)
      ]
  step-left t m (trying local) small known (inl free) some = rw free (omega arith)
  step-left t m (trying local) small known (inr within) some = absurd (omega arith)
  step-left t m (merging i local) small known free some = ground arith
  step-left t m (adding i v local) small known free some = omega arith
  step-left t m waiting small known free some = absurd (omega arith)
  step-left t m undefined small known free some = absurd known

  inside-left :
      (t : ℕ) (m : Memory) (p : Place)
      → Known values tiles t m p
      → 0 < inside p
      → (inside p ≡ 1) × (0 < left p)
  inside-left t m (counting i local) known within = absurd (omega arith)
  inside-left t m (trying local) known within = absurd (omega arith)
  inside-left t m (merging i local) known within = (refl, omega arith)
  inside-left t m (adding i v local) known within = (refl, omega (arith, known.0))
  inside-left t m waiting known within = absurd (omega arith)
  inside-left t m undefined known within = absurd (omega arith)

  none_left : (t : ℕ) (m : Memory) (p : Place) → Known values tiles t m p → left p ≡ 0 → p ≡ waiting
  none_left t m (counting i local) known none = absurd (omega arith)
  none_left t m (trying local) known none = absurd (omega arith)
  none_left t m (merging i local) known none = absurd (omega arith)
  none_left t m (adding i v local) known none = absurd (omega (arith, known.0))
  none_left t m waiting known none = refl
  none_left t m undefined known none = absurd known

  -- A tile that can go on: the owner of the lock, or any when it is free
  abbrev Ready : Machine → ℕ → Type 0
  Ready s t =
      (t < tiles) × ((s.memory.lock ≡ 0) ⊎ (inside (s.place t) ≡ 1)) × (0 < left (s.place t))

  find-Ready :
      (s : Machine) → Inv values tiles s → 0 < total tiles (λ t. left) s → (t : ℕ) × Ready s t
  find-Ready s inv some = elim (ℕ_discrete s.memory.lock 0) [
    | yes free ↦
        let (t, lt, most) = sum-some tiles (λ t. left (s.place t)) some in (t, (lt, inl free, most))
    | no taken ↦
        let (t, lt, within) = sum-some tiles (λ t. inside (s.place t)) (omega (arith, inv.owner)) in
        let (one, most) = inside-left t s.memory (s.place t) (inv.knows t lt) within in
        (t, (lt, inr one, most))
  ]

  run-append :
      (order more : List ℕ) (s : Machine)
      → run values tiles s (order ++ more) ≡ run values tiles (run values tiles s order) more
  unfolding run
  run-append [] more s = refl
  run-append (t ∷ order) more s =
      run-append order more (if ltb t tiles then turn values tiles s t else s)

  module _ (small : (i : ℕ) → i < size → values i < 32) where
    finish_from :
        (n : ℕ) (s : Machine)
        → Inv values tiles s
        → total tiles (λ t. left) s ≤ n
        → (more : List ℕ) × ((t : ℕ) → t < tiles → (run values tiles s more).place t ≡ waiting)
    unfolding run turn
    finish_from zero s inv le = (
      [],
      λ t lt.
          none_left t s.memory (s.place t) (inv.knows t lt)
            (omega (arith, sum_term tiles (λ u. left (s.place u)) t lt)),
    )
    finish_from (suc n) s inv le = elim (dec_lt 0 (total tiles (λ t. left) s)) [
      | yes some ↦
          let (t, (lt, free, most)) = find-Ready s inv some in
          let own = own_share values tiles small t lt in
          let fewer = step-left t s.memory (s.place t) own (inv.knows t lt) free most in
          let (more, done) =
            finish_from n (turn values tiles s t) (turn-Inv values tiles s t own lt inv) (
              omega (
                arith,
                fewer,
                total-put tiles (λ u. left) s t (step values tiles t s.memory (s.place t)).1 lt,
              )) in
          (
            t ∷ more,
            λ u u_lt.
                subst (λ (first : Machine). (run values tiles first more).place u ≡ waiting)
                  (sym (chosen s t lt)) (done u u_lt),
          )
      | no none ↦ finish_from n s inv (omega arith)
    ]
      where
        chosen :
            (s : Machine) (t : ℕ)
            → t < tiles
            → (if ltb t tiles then turn values tiles s t else s) ≡ turn values tiles s t
        chosen s t lt = rw (lt→ltb t tiles lt) refl

    -- For values below 32: from every state that some order of steps reaches, a further order brings
    -- every tile to the barrier. So the lock is never stuck, and no value is out of range.
    pub run-finishes :
        (order : List ℕ)
        → (more : List ℕ) × ((t : ℕ)
            → t < tiles
            → (run values tiles begin (order ++ more)).place t ≡ waiting)
    run-finishes order =
        let s = run values tiles begin order in
        let (more, done) =
          finish_from (total tiles (λ t. left) s) s
            (run-Inv values tiles (own_share values tiles small) order) (omega arith) in
        (
          more,
          λ t lt. ap (λ (last : Machine). last.place t) (run-append order more begin) ∙ done t lt,
        )
