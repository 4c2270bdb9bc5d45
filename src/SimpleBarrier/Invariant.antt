-- ===== src/SimpleBarrier/Invariant.antt =====
-- What every interleaving keeps.
use no_cgbp_rtl.Base.{
  ℕ, ◌+◌, ◌*◌, ◌%◌, ◌^◌, ◌<◌, ◌≤◌, ◌≡◌, ◌≢◌, ◌⊎◌, inl, inr, refl, ap, ◌∙◌, arith,
}
use mathlib.Core.Path.{subst}
use native.Mathlib.Decide.{ℕ_discrete}
use no_cgbp_rtl.Mutex.{Shared, outside, trying, locked, loaded, added, stored}
use no_cgbp_rtl.SimpleBarrier.{
  Place, joining, waiting_count, locking, unlocking, waiting_alert, clearing, alerting, Barrier,
}
use no_cgbp_rtl.Base.Sums.{sum, sum_le, sum-full}
use no_cgbp_rtl.SimpleBarrier.Counters.{joined, reset, alerted, inside, committed, of_chief, woken}
use no_cgbp_rtl.SimpleBarrier.Turn.{total, total_at, calls_le}

-- What a tile in bsg_atomic_inc knows of the count
abbrev pub View : Shared → Place → Type 0
View m (joining (loaded v)) = v ≡ m.value
View m (joining (added v)) = v ≡ (m.value + 1) % 2 ^ 32
View m _ = Unit

pub inside-cases : (p : Place) → (inside p ≡ 0) ⊎ (inside p ≡ 1)
inside-cases (joining outside) = inl refl
inside-cases (joining trying) = inl refl
inside-cases (joining locked) = inr refl
inside-cases (joining stored) = inr refl
inside-cases (joining (loaded v)) = inr refl
inside-cases (joining (added v)) = inr refl
inside-cases waiting_count = inl refl
inside-cases locking = inl refl
inside-cases unlocking = inr refl
inside-cases waiting_alert = inl refl
inside-cases clearing = inl refl
inside-cases (alerting i) = inr refl

joined_one : (p : Place) → joined p ≤ 1
joined_one (joining outside) = ground arith
joined_one (joining trying) = ground arith
joined_one (joining locked) = ground arith
joined_one (joining stored) = ground arith
joined_one (joining (loaded v)) = ground arith
joined_one (joining (added v)) = ground arith
joined_one waiting_count = ground arith
joined_one locking = ground arith
joined_one unlocking = ground arith
joined_one waiting_alert = ground arith
joined_one clearing = ground arith
joined_one (alerting i) = ground arith

module _ (threads chief : ℕ) where
  -- `count` and `low` are of the rounds that the chief has counted and reset, `full` of the time in
  -- which it alerts, `alerted_eq` to `woken_le` of the alerts, and the others of the lock.
  pub record Inv (s : Barrier) : Type 0 where
    pub count :
        s.memory.shared.value + threads * total reset s chief ≡ sum threads (λ u. total joined s u)
    pub low : (u : ℕ) → u < threads → total reset s chief ≤ total joined s u
    pub full :
        (u : ℕ) → u < threads → committed (s.place chief) ≡ 1 → total joined s u ≡ s.calls chief + 1
    pub alerted_eq :
        (u : ℕ)
        → u < threads
        → u ≢ chief
        → total (λ p. alerted p u) s chief ≡ s.calls u + s.memory.local_alert u
    pub alert_le : (u : ℕ) → s.memory.local_alert u ≤ 1
    pub woken_le : (u : ℕ) → woken (s.place u) ≤ s.memory.local_alert u
    pub mutex_le : s.memory.shared.mutex ≤ 1
    pub inside_le : (u : ℕ) → inside (s.place u) ≤ s.memory.shared.mutex
    pub exclusive : (t u : ℕ) → inside (s.place t) ≡ 1 → inside (s.place u) ≡ 1 → t ≡ u
    pub view : (u : ℕ) → View s.memory.shared (s.place u)
    pub role : (u : ℕ) → u ≢ chief → of_chief (s.place u) ≡ 0

  module _ (s : Barrier) (inv : Inv s) where
    pub is_chief : (t : ℕ) (p : Place) → s.place t ≡ p → of_chief p ≡ 1 → t ≡ chief
    is_chief t p at e = elim (ℕ_discrete t chief) [
      | yes same ↦ same
      | no ne ↦ absurd (omega (arith, subst (λ (q : Place). of_chief q ≡ 0) at (inv.role t ne)))
    ]

    pub joined_le : (u : ℕ) → total joined s u ≤ s.calls u + 1
    unfolding total
    joined_le u = omega (arith, joined_one (s.place u))

    -- No tile is more than one call ahead of the rounds that the chief has reset.
    high_at :
        (q : Place) (u : ℕ)
        → s.place chief ≡ q
        → u < threads
        → u ≢ chief
        → total joined s u ≤ total reset s chief + 1
    high_at (joining outside) u at lt ne = ground (
      arith,
      inv.alerted_eq u lt ne,
      joined_le u,
      total_at reset s chief (joining outside) at,
      total_at (λ q. alerted q u) s chief (joining outside) at,
    )
    high_at (joining trying) u at lt ne = ground (
      arith,
      inv.alerted_eq u lt ne,
      joined_le u,
      total_at reset s chief (joining trying) at,
      total_at (λ q. alerted q u) s chief (joining trying) at,
    )
    high_at (joining locked) u at lt ne = ground (
      arith,
      inv.alerted_eq u lt ne,
      joined_le u,
      total_at reset s chief (joining locked) at,
      total_at (λ q. alerted q u) s chief (joining locked) at,
    )
    high_at (joining stored) u at lt ne = ground (
      arith,
      inv.alerted_eq u lt ne,
      joined_le u,
      total_at reset s chief (joining stored) at,
      total_at (λ q. alerted q u) s chief (joining stored) at,
    )
    high_at (joining (loaded v)) u at lt ne = ground (
      arith,
      inv.alerted_eq u lt ne,
      joined_le u,
      total_at reset s chief (joining (loaded v)) at,
      total_at (λ q. alerted q u) s chief (joining (loaded v)) at,
    )
    high_at (joining (added v)) u at lt ne = ground (
      arith,
      inv.alerted_eq u lt ne,
      joined_le u,
      total_at reset s chief (joining (added v)) at,
      total_at (λ q. alerted q u) s chief (joining (added v)) at,
    )
    high_at waiting_count u at lt ne = ground (
      arith,
      inv.alerted_eq u lt ne,
      joined_le u,
      total_at reset s chief waiting_count at,
      total_at (λ q. alerted q u) s chief waiting_count at,
    )
    high_at locking u at lt ne = ground (
      arith,
      inv.full u lt (ap (λ (q : Place). committed q) at),
      total_at reset s chief locking at,
    )
    high_at unlocking u at lt ne = ground (
      arith,
      inv.alerted_eq u lt ne,
      joined_le u,
      total_at reset s chief unlocking at,
      total_at (λ q. alerted q u) s chief unlocking at,
    )
    high_at waiting_alert u at lt ne = ground (
      arith,
      inv.alerted_eq u lt ne,
      joined_le u,
      total_at reset s chief waiting_alert at,
      total_at (λ q. alerted q u) s chief waiting_alert at,
    )
    high_at clearing u at lt ne = ground (
      arith,
      inv.alerted_eq u lt ne,
      joined_le u,
      total_at reset s chief clearing at,
      total_at (λ q. alerted q u) s chief clearing at,
    )
    high_at (alerting i) u at lt ne = ground (
      arith,
      inv.full u lt (ap (λ (q : Place). committed q) at),
      total_at reset s chief (alerting i) at,
    )

    pub high : (u : ℕ) → u < threads → total joined s u ≤ total reset s chief + 1
    high u lt = elim (ℕ_discrete u chief) [
      | yes e ↦ rw e (omega (arith, joined_le chief, calls_le reset s chief))
      | no ne ↦ high_at (s.place chief) u refl lt ne
    ]

    pub value_le : s.memory.shared.value ≤ threads
    value_le =
        omega
          (arith, inv.count, sum_le threads (total reset s chief + 1) (λ u. total joined s u) high)

    -- Where the chief has read the full count, every tile has joined.
    pub all_joined :
        (u : ℕ)
        → u < threads
        → s.place chief ≡ waiting_count
        → s.memory.shared.value ≡ threads
        → total joined s u ≡ s.calls chief + 1
    all_joined u lt at e =
        sum-full threads (total reset s chief + 1) (λ u. total joined s u) high
          (omega (arith, inv.count)) u lt
        ∙ ap (λ (n : ℕ). n + 1) (total_at reset s chief waiting_count at ∙ omega arith)

    -- While the chief alerts, no tile joins again.
    quiet_at :
        (q : Place) (t n : ℕ)
        → s.place chief ≡ q
        → committed q ≡ 1
        → t < threads
        → t ≢ chief
        → s.place t ≡ joining (added n)
        → ⊥
    quiet_at (joining outside) t n at c lt ne here = absurd (omega arith)
    quiet_at (joining trying) t n at c lt ne here = absurd (omega arith)
    quiet_at (joining locked) t n at c lt ne here = absurd (omega arith)
    quiet_at (joining stored) t n at c lt ne here = absurd (omega arith)
    quiet_at (joining (loaded v)) t n at c lt ne here = absurd (omega arith)
    quiet_at (joining (added v)) t n at c lt ne here = absurd (omega arith)
    quiet_at waiting_count t n at c lt ne here = absurd (omega arith)
    quiet_at locking t n at c lt ne here = absurd (
        omega (
          arith,
          inv.full t lt (ap (λ (q : Place). committed q) at),
          total_at joined s t (joining (added n)) here,
          inv.alerted_eq t lt ne,
          total_at (λ q. alerted q t) s chief locking at,
        ))
    quiet_at unlocking t n at c lt ne here = absurd (omega arith)
    quiet_at waiting_alert t n at c lt ne here = absurd (omega arith)
    quiet_at clearing t n at c lt ne here = absurd (omega arith)
    quiet_at (alerting i) t n at c lt ne here = ne (
        inv.exclusive t chief (ap (λ (q : Place). inside q) here) (ap (λ (q : Place). inside q) at))

    pub quiet :
        (t n : ℕ)
        → committed (s.place chief) ≡ 1
        → t < threads
        → t ≢ chief
        → s.place t ≢ joining (added n)
    quiet t n c lt ne here = quiet_at (s.place chief) t n refl c lt ne here
