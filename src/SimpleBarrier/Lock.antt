-- ===== src/SimpleBarrier/Lock.antt =====
-- The lock under a step.
use no_cgbp_rtl.Base.{ℕ, ◌^◌, ◌<◌, ◌≤◌, ◌≡◌, ◌≢◌, inl, inr, sym, ap, ◌∙◌, arith}
use mathlib.Core.Path.{subst}
use native.Mathlib.Decide.{ℕ_discrete}
use no_cgbp_rtl.Base.Loops.{put}
use no_cgbp_rtl.Mutex.{outside, trying, locked, loaded, added, stored, try_lock, unlock, move}
use no_cgbp_rtl.SimpleBarrier.{
  Place, joining, waiting_count, locking, unlocking, waiting_alert, clearing, alerting, advance,
  Barrier,
}
use no_cgbp_rtl.SimpleBarrier.Counters.{inside}
use no_cgbp_rtl.SimpleBarrier.Turn.{put_self, put_ne, next, moved}
use no_cgbp_rtl.SimpleBarrier.Invariant.{inside-cases, Inv}

module _ (threads chief : ℕ) (s : Barrier) (inv : Inv threads chief s) (t : ℕ) (t_lt : t < threads)
    (chief_lt : chief < threads) (few : threads ≤ 2 ^ 16) where
  abbrev after : Place → Barrier
  after = moved threads chief s t

  pub mutex_le-keep : (p : Place) → (after p).memory.shared.mutex ≤ 1
  unfolding advance move try_lock unlock
  mutex_le-keep (joining outside) = ground (arith, inv.mutex_le)
  mutex_le-keep (joining trying) = ground (arith, inv.mutex_le)
  mutex_le-keep (joining locked) = ground (arith, inv.mutex_le)
  mutex_le-keep (joining stored) = ground (arith, inv.mutex_le)
  mutex_le-keep (joining (loaded v)) = ground (arith, inv.mutex_le)
  mutex_le-keep (joining (added v)) = ground (arith, inv.mutex_le)
  mutex_le-keep waiting_count = ground (arith, inv.mutex_le)
  mutex_le-keep locking = ground (arith, inv.mutex_le)
  mutex_le-keep unlocking = ground (arith, inv.mutex_le)
  mutex_le-keep waiting_alert = ground (arith, inv.mutex_le)
  mutex_le-keep clearing = ground (arith, inv.mutex_le)
  mutex_le-keep (alerting i) = ground (arith, inv.mutex_le)

  inside_self :
      (p : Place)
      → inside p ≤ s.memory.shared.mutex
      → inside (next threads chief s t p).1 ≤ (after p).memory.shared.mutex
  unfolding advance move try_lock unlock
  inside_self (joining outside) old = ground (arith, inv.mutex_le)
  inside_self (joining trying) old = ground (arith, inv.mutex_le)
  inside_self (joining locked) old = ground (arith, inv.mutex_le)
  inside_self (joining stored) old = ground (arith, inv.mutex_le)
  inside_self (joining (loaded v)) old = ground (arith, inv.mutex_le)
  inside_self (joining (added v)) old = ground (arith, inv.mutex_le)
  inside_self waiting_count old = ground (arith, inv.mutex_le)
  inside_self locking old = ground (arith, inv.mutex_le)
  inside_self unlocking old = ground (arith, inv.mutex_le)
  inside_self waiting_alert old = ground (arith, inv.mutex_le)
  inside_self clearing old = ground (arith, inv.mutex_le)
  inside_self (alerting i) old = ground (arith, inv.mutex_le)

  -- Only who holds the lock clears it, and a lock that is taken was free.
  held : (p : Place) → inside p ≡ 0 → s.memory.shared.mutex ≤ (after p).memory.shared.mutex
  unfolding advance move try_lock unlock
  held (joining outside) out = ground (arith, inv.mutex_le)
  held (joining trying) out = ground (arith, inv.mutex_le)
  held (joining locked) out = ground (arith, inv.mutex_le)
  held (joining stored) out = ground (arith, inv.mutex_le)
  held (joining (loaded v)) out = ground (arith, inv.mutex_le)
  held (joining (added v)) out = ground (arith, inv.mutex_le)
  held waiting_count out = ground (arith, inv.mutex_le)
  held locking out = ground (arith, inv.mutex_le)
  held unlocking out = ground (arith, inv.mutex_le)
  held waiting_alert out = ground (arith, inv.mutex_le)
  held clearing out = ground (arith, inv.mutex_le)
  held (alerting i) out = ground (arith, inv.mutex_le)

  enters :
      (p : Place)
      → inside p ≡ 0
      → inside (next threads chief s t p).1 ≡ 1
      → s.memory.shared.mutex ≡ 0
  unfolding advance move try_lock unlock
  enters (joining outside) out e = ground (arith, inv.mutex_le)
  enters (joining trying) out e = ground (arith, inv.mutex_le)
  enters (joining locked) out e = ground (arith, inv.mutex_le)
  enters (joining stored) out e = ground (arith, inv.mutex_le)
  enters (joining (loaded v)) out e = ground (arith, inv.mutex_le)
  enters (joining (added v)) out e = ground (arith, inv.mutex_le)
  enters waiting_count out e = ground (arith, inv.mutex_le)
  enters locking out e = ground (arith, inv.mutex_le)
  enters unlocking out e = ground (arith, inv.mutex_le)
  enters waiting_alert out e = ground (arith, inv.mutex_le)
  enters clearing out e = ground (arith, inv.mutex_le)
  enters (alerting i) out e = ground (arith, inv.mutex_le)

  pub value_same :
      (p : Place) → inside p ≡ 0 → (after p).memory.shared.value ≡ s.memory.shared.value
  unfolding advance move try_lock unlock
  value_same (joining outside) out = ground arith
  value_same (joining trying) out = ground arith
  value_same (joining locked) out = ground arith
  value_same (joining stored) out = ground arith
  value_same (joining (loaded v)) out = ground arith
  value_same (joining (added v)) out = ground arith
  value_same waiting_count out = ground arith
  value_same locking out = ground arith
  value_same unlocking out = ground arith
  value_same waiting_alert out = ground arith
  value_same clearing out = ground arith
  value_same (alerting i) out = ground arith

  pub out_of : (p : Place) (u : ℕ) → s.place t ≡ p → inside (s.place u) ≡ 1 → t ≢ u → inside p ≡ 0
  out_of p u at within ne = elim (inside-cases p) [
    | inl out ↦ out
    | inr i ↦ absurd (ne (inv.exclusive t u (ap (λ (q : Place). inside q) at ∙ i) within))
  ]

  pub inside_le-keep :
      (p : Place) (u : ℕ)
      → s.place t ≡ p
      → inside ((after p).place u) ≤ (after p).memory.shared.mutex
  inside_le-keep p u at = elim (ℕ_discrete t u) [
    | yes e ↦ rw (sym e) (
        subst (λ (q : Place). inside q ≤ (after p).memory.shared.mutex)
          (sym (put_self s.place t (next threads chief s t p).1))
          (inside_self p
            (subst (λ (q : Place). inside q ≤ s.memory.shared.mutex) at (inv.inside_le t))))
    | no ne ↦
        subst (λ (q : Place). inside q ≤ (after p).memory.shared.mutex)
          (sym (put_ne s.place t (next threads chief s t p).1 u ne))
          (elim (inside-cases (s.place u)) [
            | inl out ↦ omega (arith, out)
            | inr i ↦ omega (arith, inv.inside_le u, held p (out_of p u at i ne))
          ])
  ]

  -- A tile that comes in or is in, and another
  exclusive_self :
      (p : Place) (u : ℕ)
      → s.place t ≡ p
      → inside (next threads chief s t p).1 ≡ 1
      → inside (s.place u) ≡ 1
      → t ≡ u
  exclusive_self p u at i within = elim (inside-cases p) [
    | inl out ↦ absurd (omega (arith, enters p out i, inv.inside_le u))
    | inr already ↦ inv.exclusive t u (ap (λ (q : Place). inside q) at ∙ already) within
  ]

  pub exclusive-keep :
      (p : Place) (a b : ℕ)
      → s.place t ≡ p
      → inside ((after p).place a) ≡ 1
      → inside ((after p).place b) ≡ 1
      → a ≡ b
  exclusive-keep p a b at ia ib = elim (ℕ_discrete t a) [
    | yes e ↦ elim (ℕ_discrete t b) [
      | yes f ↦ sym e ∙ f
      | no nf ↦ sym e ∙ exclusive_self p b at (self a e ia) (other b nf ib)
    ]
    | no ne ↦ elim (ℕ_discrete t b) [
      | yes f ↦ sym (exclusive_self p a at (self b f ib) (other a ne ia)) ∙ f
      | no nf ↦ inv.exclusive a b (other a ne ia) (other b nf ib)
    ]
  ]
    where
      self :
          (u : ℕ) → t ≡ u → inside ((after p).place u) ≡ 1 → inside (next threads chief s t p).1 ≡ 1
      self u e i =
          ap (λ (q : Place). inside q)
            (sym (
              ap (put s.place t (next threads chief s t p).1) (sym e)
              ∙ put_self s.place t (next threads chief s t p).1))
          ∙ i

      other : (u : ℕ) → t ≢ u → inside ((after p).place u) ≡ 1 → inside (s.place u) ≡ 1
      other u ne i =
          ap (λ (q : Place). inside q) (sym (put_ne s.place t (next threads chief s t p).1 u ne))
          ∙ i
