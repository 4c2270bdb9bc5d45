-- ===== src/SimpleBarrier/Count.antt =====
-- The count of the joined tiles under a step.
use no_cgbp_rtl.Base.{
  ℕ, ◌+◌, ◌*◌, ◌^◌, ◌<◌, ◌≤◌, ◌≡◌, ◌≢◌, inl, inr, refl, sym, ap, ◌∙◌, ltb, ◌==◌, if◌then◌else◌,
  true, Bool-cases, arith,
}
use mathlib.Core.Path.{subst}
use native.Mathlib.Decide.{ℕ_discrete}
use no_cgbp_rtl.Base.Loops.{put}
use no_cgbp_rtl.Mutex.{outside, trying, locked, loaded, added, stored, try_lock, unlock, move}
use no_cgbp_rtl.SimpleBarrier.{
  Place, joining, waiting_count, locking, unlocking, waiting_alert, clearing, alerting, advance,
  Barrier, returns,
}
use no_cgbp_rtl.Base.Sums.{sum, sum-one, sum-const}
use no_cgbp_rtl.SimpleBarrier.Counters.{joined, reset, committed, joins, resets}
use no_cgbp_rtl.SimpleBarrier.Turn.{
  total, total_at, put_self, put_ne, next, moved, total-moved, calls-moved, joined_step, reset_step,
}
use no_cgbp_rtl.SimpleBarrier.Invariant.{View, Inv, is_chief, value_le, all_joined, quiet}

module _ (threads chief : ℕ) (s : Barrier) (inv : Inv threads chief s) (t : ℕ) (t_lt : t < threads)
    (chief_lt : chief < threads) (few : threads ≤ 2 ^ 16) where
  abbrev after : Place → Barrier
  after = moved threads chief s t

  joined-after :
      (p : Place) (u : ℕ)
      → s.place t ≡ p
      → total joined (after p) u ≡ total joined s u + (if t == u then joins p else 0)
  joined-after p u at =
      total-moved threads chief s t joined (joins p) p u at (λ e. joined_step threads chief s t p)

  reset-after :
      (p : Place)
      → s.place t ≡ p
      → total reset (after p) chief
        ≡ total reset s chief + (if t == chief then resets threads p else 0)
  reset-after p at =
      total-moved threads chief s t reset (resets threads p) p chief at
        (λ e. reset_step threads chief s t p e)

  sum-after :
      (p : Place)
      → s.place t ≡ p
      → sum threads (λ u. total joined (after p) u) ≡ sum threads (λ u. total joined s u) + joins p
  sum-after p at = ground (
    arith,
    sum-one threads t (joins p) (λ u. total joined s u) (λ u. total joined (after p) u)
        (λ u. joined-after p u at),
  )

  balance :
      (p : Place)
      → s.place t ≡ p
      → (after p).memory.shared.value
          + threads * (total reset s chief + (if t == chief then resets threads p else 0))
        ≡ sum threads (λ u. total joined s u) + joins p
  unfolding advance move try_lock unlock
  balance (joining outside) at = ground (arith, inv.count)
  balance (joining trying) at = ground (arith, inv.count)
  balance (joining locked) at = ground (arith, inv.count)
  balance (joining stored) at = ground (arith, inv.count)
  balance (joining (loaded v)) at = ground (arith, inv.count)
  balance (joining (added v)) at = ground (
    arith,
    inv.count,
    value_le threads chief s inv,
    subst (λ (q : Place). View s.memory.shared q) at (inv.view t),
  )
  balance waiting_count at = ground (arith, inv.count)
  balance locking at = ground (arith, inv.count)
  balance unlocking at = ground (arith, inv.count)
  balance waiting_alert at = ground (arith, inv.count)
  balance clearing at = ground (arith, inv.count)
  balance (alerting i) at = elim (Bool-cases (ltb i threads)) [
    | inl e ↦ rw e (ground (arith, inv.count))
    | inr e ↦ rw (e, test) (omega (arith, inv.count, counted, before))
  ]
    where
      here : s.place chief ≡ alerting i
      here = ap s.place (sym (is_chief threads chief s inv t (alerting i) at refl)) ∙ at

      test : (t == chief) ≡ true
      test = let r = is_chief threads chief s inv t (alerting i) at refl in ground (arith, r)

      before : threads * (total reset s chief) ≡ threads * s.calls chief
      before = ap (λ (n : ℕ). threads * n) (total_at reset s chief (alerting i) here ∙ omega arith)

      counted : sum threads (λ u. total joined s u) ≡ threads * (s.calls chief + 1)
      counted =
          sum-const threads (s.calls chief + 1) (λ u. total joined s u)
            (λ u lt. inv.full u lt (ap (λ (q : Place). committed q) here))

  pub count-keep :
      (p : Place)
      → s.place t ≡ p
      → (after p).memory.shared.value + threads * total reset (after p) chief
        ≡ sum threads (λ u. total joined (after p) u)
  count-keep p at =
      ap (λ (n : ℕ). (after p).memory.shared.value + threads * n) (reset-after p at)
      ∙ balance p at
      ∙ sym (sum-after p at)

  low_step :
      (p : Place) (u : ℕ)
      → s.place t ≡ p
      → u < threads
      → total reset s chief + (if t == chief then resets threads p else 0) ≤ total joined s u
  low_step (joining outside) u at lt = ground (arith, inv.low u lt)
  low_step (joining trying) u at lt = ground (arith, inv.low u lt)
  low_step (joining locked) u at lt = ground (arith, inv.low u lt)
  low_step (joining stored) u at lt = ground (arith, inv.low u lt)
  low_step (joining (loaded v)) u at lt = ground (arith, inv.low u lt)
  low_step (joining (added v)) u at lt = ground (arith, inv.low u lt)
  low_step waiting_count u at lt = ground (arith, inv.low u lt)
  low_step locking u at lt = ground (arith, inv.low u lt)
  low_step unlocking u at lt = ground (arith, inv.low u lt)
  low_step waiting_alert u at lt = ground (arith, inv.low u lt)
  low_step clearing u at lt = ground (arith, inv.low u lt)
  low_step (alerting i) u at lt =
      let r = is_chief threads chief s inv t (alerting i) at refl in
      let here : s.place chief ≡ alerting i = ap s.place (sym r) ∙ at in
      ground (
        arith,
        inv.full u lt (ap (λ (q : Place). committed q) here),
        total_at reset s chief (alerting i) here,
      )

  pub low-keep :
      (p : Place) (u : ℕ)
      → s.place t ≡ p
      → u < threads
      → total reset (after p) chief ≤ total joined (after p) u
  low-keep p u at lt = omega (arith, reset-after p at, joined-after p u at, low_step p u at lt)

  -- The chief's own steps
  full_self :
      (p : Place) (u : ℕ)
      → s.place t ≡ p
      → t ≡ chief
      → u < threads
      → committed (next threads chief s t p).1 ≡ 1
      → (total joined s u ≡ s.calls chief + 1) × (returns p ≡ 0) × (joins p ≡ 0)
  unfolding advance move try_lock unlock
  full_self (joining outside) u at e lt c = absurd (ground arith)
  full_self (joining trying) u at e lt c = absurd (ground arith)
  full_self (joining locked) u at e lt c = absurd (ground arith)
  full_self (joining stored) u at e lt c = absurd (ground (arith, e))
  full_self (joining (loaded v)) u at e lt c = absurd (ground arith)
  full_self (joining (added v)) u at e lt c = absurd (ground arith)
  full_self waiting_count u at e lt c = elim (ℕ_discrete s.memory.shared.value threads) [
    | yes all ↦ (all_joined threads chief s inv u lt (ap s.place (sym e) ∙ at) all, refl, refl)
    | no ne ↦ absurd (ground (arith, ne))
  ]
  full_self locking u at e lt c =
      (inv.full u lt (ap (λ (q : Place). committed q) (ap s.place (sym e) ∙ at)), refl, refl)
  full_self unlocking u at e lt c = absurd (ground arith)
  full_self waiting_alert u at e lt c = absurd (ground arith)
  full_self clearing u at e lt c = absurd (ground arith)
  full_self (alerting i) u at e lt c =
      (inv.full u lt (ap (λ (q : Place). committed q) (ap s.place (sym e) ∙ at)), refl, refl)

  no_join : (p : Place) → s.place t ≡ p → t ≢ chief → committed (s.place chief) ≡ 1 → joins p ≡ 0
  no_join (joining outside) at ne c = refl
  no_join (joining trying) at ne c = refl
  no_join (joining locked) at ne c = refl
  no_join (joining stored) at ne c = refl
  no_join (joining (loaded v)) at ne c = refl
  no_join (joining (added v)) at ne c = absurd (quiet threads chief s inv t v c t_lt ne at)
  no_join waiting_count at ne c = refl
  no_join locking at ne c = refl
  no_join unlocking at ne c = refl
  no_join waiting_alert at ne c = refl
  no_join clearing at ne c = refl
  no_join (alerting i) at ne c = refl

  pub full-keep :
      (p : Place) (u : ℕ)
      → s.place t ≡ p
      → u < threads
      → committed ((after p).place chief) ≡ 1
      → total joined (after p) u ≡ (after p).calls chief + 1
  full-keep p u at lt c = elim (ℕ_discrete t chief) [
    | yes e ↦
        let place' =
          ap (put s.place t (next threads chief s t p).1) (sym e)
          ∙ put_self s.place t (next threads chief s t p).1 in
        let (counted, stays, none_joins) =
          full_self p u at e lt (ap (λ (q : Place). committed q) (sym place') ∙ c) in
        ground (
          arith,
          joined-after p u at,
          calls-moved threads chief s t p chief,
          counted,
          stays,
          none_joins,
        )
    | no ne ↦
        let c' =
          ap (λ (q : Place). committed q)
            (sym (put_ne s.place t (next threads chief s t p).1 chief ne))
          ∙ c in
        ground (
          arith,
          joined-after p u at,
          calls-moved threads chief s t p chief,
          inv.full u lt c',
          no_join p at ne c',
          ne,
        )
  ]
