-- ===== src/SimpleBarrier/Views.antt =====
-- What a tile inside the lock has read stays what it was.
use no_cgbp_rtl.Base.{
  ℕ, ◌+◌, ◌%◌, ◌^◌, ◌<◌, ◌≤◌, ◌≡◌, ◌≢◌, inl, inr, refl, sym, ap, ◌∙◌, ltb, ◌==◌, true, false,
  Bool-cases, arith,
}
use mathlib.Core.Path.{subst}
use native.Mathlib.Decide.{ℕ_discrete}
use no_cgbp_rtl.Base.Loops.{put}
use no_cgbp_rtl.Mutex.{
  Shared, outside, trying, locked, loaded, added, stored, try_lock, unlock, move, lock_fail,
}
use no_cgbp_rtl.SimpleBarrier.{
  Place, joining, waiting_count, locking, unlocking, waiting_alert, clearing, alerting, advance,
  Barrier,
}
use no_cgbp_rtl.SimpleBarrier.Counters.{inside}
use no_cgbp_rtl.SimpleBarrier.Turn.{put_self, put_ne, next, moved}
use no_cgbp_rtl.SimpleBarrier.Invariant.{View, inside-cases, Inv}
use no_cgbp_rtl.SimpleBarrier.Lock.{value_same, out_of}

module _ (threads chief : ℕ) (s : Barrier) (inv : Inv threads chief s) (t : ℕ) (t_lt : t < threads)
    (chief_lt : chief < threads) (few : threads ≤ 2 ^ 16) where
  abbrev after : Place → Barrier
  after = moved threads chief s t

  View-self :
      (p : Place)
      → View s.memory.shared p
      → View (after p).memory.shared (next threads chief s t p).1
  unfolding advance move try_lock unlock
  View-self (joining outside) old = tt
  View-self (joining trying) old = elim (ℕ_discrete s.memory.shared.mutex 1) [
    | yes e ↦ rw e tt
    | no ne ↦ rw (free ne) tt
  ]
    where
      free : s.memory.shared.mutex ≢ 1 → s.memory.shared.mutex ≡ 0
      free ne = omega (arith, inv.mutex_le)
  View-self (joining locked) old = refl
  View-self (joining stored) old = elim (ℕ_discrete t chief) [
    | yes e ↦ rw (same e) tt
    | no ne ↦ rw (differs ne) tt
  ]
    where
      same : t ≡ chief → (t == chief) ≡ true
      same e = ground arith

      differs : t ≢ chief → (t == chief) ≡ false
      differs ne = ground arith
  View-self (joining (loaded v)) old = ground arith
  View-self (joining (added v)) old = tt
  View-self waiting_count old = elim (Bool-cases (s.memory.shared.value == threads)) [
    | inl e ↦ rw e tt
    | inr e ↦ rw e tt
  ]
  View-self locking old = elim (Bool-cases (s.memory.shared.mutex == lock_fail)) [
    | inl e ↦ rw e tt
    | inr e ↦ rw e tt
  ]
  View-self unlocking old = tt
  View-self waiting_alert old = elim (Bool-cases (s.memory.local_alert t == 1)) [
    | inl e ↦ rw e tt
    | inr e ↦ rw e tt
  ]
  View-self clearing old = tt
  View-self (alerting i) old = elim (Bool-cases (ltb i threads)) [
    | inl e ↦ rw e tt
    | inr e ↦ rw e tt
  ]

  View-out : (m : Shared) (q : Place) → inside q ≡ 0 → View m q
  View-out m (joining outside) out = tt
  View-out m (joining trying) out = tt
  View-out m (joining locked) out = tt
  View-out m (joining stored) out = tt
  View-out m (joining (loaded v)) out = absurd (omega arith)
  View-out m (joining (added v)) out = absurd (omega arith)
  View-out m waiting_count out = tt
  View-out m locking out = tt
  View-out m unlocking out = tt
  View-out m waiting_alert out = tt
  View-out m clearing out = tt
  View-out m (alerting i) out = tt

  View-value : (m k : Shared) (q : Place) → k.value ≡ m.value → View m q → View k q
  View-value m k (joining outside) e w = tt
  View-value m k (joining trying) e w = tt
  View-value m k (joining locked) e w = tt
  View-value m k (joining stored) e w = tt
  View-value m k (joining (loaded v)) e w = w ∙ sym e
  View-value m k (joining (added v)) e w = w ∙ ap (λ (n : ℕ). (n + 1) % 2 ^ 32) (sym e)
  View-value m k waiting_count e w = tt
  View-value m k locking e w = tt
  View-value m k unlocking e w = tt
  View-value m k waiting_alert e w = tt
  View-value m k clearing e w = tt
  View-value m k (alerting i) e w = tt

  pub View-keep :
      (p : Place) (u : ℕ) → s.place t ≡ p → View (after p).memory.shared ((after p).place u)
  View-keep p u at = elim (ℕ_discrete t u) [
    | yes e ↦
        subst (λ (q : Place). View (after p).memory.shared q)
          (sym (
            ap (put s.place t (next threads chief s t p).1) (sym e)
            ∙ put_self s.place t (next threads chief s t p).1))
          (View-self p (subst (λ (q : Place). View s.memory.shared q) at (inv.view t)))
    | no ne ↦
        subst (λ (q : Place). View (after p).memory.shared q)
          (sym (put_ne s.place t (next threads chief s t p).1 u ne))
          (elim (inside-cases (s.place u)) [
            | inl out ↦ View-out (after p).memory.shared (s.place u) out
            | inr i ↦
                View-value s.memory.shared (after p).memory.shared (s.place u)
                  (value_same threads chief s inv t t_lt chief_lt few p
                    (out_of threads chief s inv t t_lt chief_lt few p u at i ne))
                  (inv.view u)
          ])
  ]
