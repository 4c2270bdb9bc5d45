-- ===== src/SimpleBarrier/Alerts.antt =====
-- The alerts under a step.
use no_cgbp_rtl.Base.{
  ℕ, ◌+◌, ◌^◌, ◌<◌, ◌≤◌, ◌≡◌, ◌≢◌, refl, sym, ap, ◌∙◌, ◌==◌, if◌then◌else◌, arith,
}
use mathlib.Core.Path.{subst}
use native.Mathlib.Decide.{ℕ_discrete}
use no_cgbp_rtl.Mutex.{outside, trying, locked, loaded, added, stored, try_lock, unlock, move}
use no_cgbp_rtl.SimpleBarrier.{
  Place, joining, waiting_count, locking, unlocking, waiting_alert, clearing, alerting, advance,
  Barrier, returns,
}
use no_cgbp_rtl.SimpleBarrier.Counters.{alerted, committed, of_chief, woken, alerts}
use no_cgbp_rtl.SimpleBarrier.Turn.{
  total, total_at, put_self, put_ne, next, moved, total-moved, calls-moved, alerted_step,
}
use no_cgbp_rtl.SimpleBarrier.Invariant.{Inv, is_chief, joined_le}

module _ (threads chief : ℕ) (s : Barrier) (inv : Inv threads chief s) (t : ℕ) (t_lt : t < threads)
    (chief_lt : chief < threads) (few : threads ≤ 2 ^ 16) where
  abbrev after : Place → Barrier
  after = moved threads chief s t

  alert_balance :
      (p : Place) (u : ℕ)
      → s.place t ≡ p
      → u < threads
      → u ≢ chief
      → total (λ q. alerted q u) s chief + (if t == chief then alerts p u else 0)
        ≡ s.calls u + (if t == u then returns p else 0) + (after p).memory.local_alert u
  unfolding advance move try_lock unlock
  alert_balance (joining outside) u at lt ne = ground (arith, inv.alerted_eq u lt ne)
  alert_balance (joining trying) u at lt ne = ground (arith, inv.alerted_eq u lt ne)
  alert_balance (joining locked) u at lt ne = ground (arith, inv.alerted_eq u lt ne)
  alert_balance (joining stored) u at lt ne = ground (arith, inv.alerted_eq u lt ne)
  alert_balance (joining (loaded v)) u at lt ne = ground (arith, inv.alerted_eq u lt ne)
  alert_balance (joining (added v)) u at lt ne = ground (arith, inv.alerted_eq u lt ne)
  alert_balance waiting_count u at lt ne = ground (arith, inv.alerted_eq u lt ne)
  alert_balance locking u at lt ne = ground (arith, inv.alerted_eq u lt ne)
  alert_balance unlocking u at lt ne =
      let r = is_chief threads chief s inv t unlocking at refl in
      ground (arith, r, ne, inv.alerted_eq u lt ne)
  alert_balance waiting_alert u at lt ne = ground (arith, inv.alerted_eq u lt ne)
  alert_balance clearing u at lt ne = elim (ℕ_discrete t u) [
    | yes e ↦ ground (arith, e, ne, inv.alerted_eq u lt ne, stands e, inv.alert_le u)
    | no other ↦ ground (arith, other, inv.alerted_eq u lt ne)
  ]
    where
      stands : t ≡ u → 1 ≤ s.memory.local_alert u
      stands e =
          subst (λ (q : Place). woken q ≤ s.memory.local_alert u) (ap s.place (sym e) ∙ at)
            (inv.woken_le u)
  alert_balance (alerting i) u at lt ne = elim (ℕ_discrete i u) [
    | yes e ↦ ground (arith, e, r, inv.alerted_eq u lt ne, none_yet e)
    | no other ↦ ground (arith, other, r, inv.alerted_eq u lt ne)
  ]
    where
      r : t ≡ chief
      r = is_chief threads chief s inv t (alerting i) at refl

      here : s.place chief ≡ alerting i
      here = ap s.place (sym r) ∙ at

      none_yet : i ≡ u → s.memory.local_alert u ≡ 0
      none_yet e = ground (
        arith,
        e,
        inv.alerted_eq u lt ne,
        total_at (λ q. alerted q u) s chief (alerting i) here,
        inv.full u lt (ap (λ (q : Place). committed q) here),
        joined_le threads chief s inv u,
      )

  pub alerted_eq-keep :
      (p : Place) (u : ℕ)
      → s.place t ≡ p
      → u < threads
      → u ≢ chief
      → total (λ q. alerted q u) (after p) chief
        ≡ (after p).calls u + (after p).memory.local_alert u
  alerted_eq-keep p u at lt ne =
      total-moved threads chief s t (λ q. alerted q u) (alerts p u) p chief at
        (λ e. alerted_step threads chief s t p u lt e)
      ∙ alert_balance p u at lt ne
      ∙ ap (λ (n : ℕ). n + (after p).memory.local_alert u) (sym (calls-moved threads chief s t p u))

  pub alert_le-keep : (p : Place) (u : ℕ) → (after p).memory.local_alert u ≤ 1
  unfolding advance move try_lock unlock
  alert_le-keep (joining outside) u = ground (arith, inv.alert_le u)
  alert_le-keep (joining trying) u = ground (arith, inv.alert_le u)
  alert_le-keep (joining locked) u = ground (arith, inv.alert_le u)
  alert_le-keep (joining stored) u = ground (arith, inv.alert_le u)
  alert_le-keep (joining (loaded v)) u = ground (arith, inv.alert_le u)
  alert_le-keep (joining (added v)) u = ground (arith, inv.alert_le u)
  alert_le-keep waiting_count u = ground (arith, inv.alert_le u)
  alert_le-keep locking u = ground (arith, inv.alert_le u)
  alert_le-keep unlocking u = ground (arith, inv.alert_le u)
  alert_le-keep waiting_alert u = ground (arith, inv.alert_le u)
  alert_le-keep clearing u = ground (arith, inv.alert_le u)
  alert_le-keep (alerting i) u = ground (arith, inv.alert_le u)

  woken_self :
      (p : Place)
      → woken p ≤ s.memory.local_alert t
      → woken (next threads chief s t p).1 ≤ (after p).memory.local_alert t
  unfolding advance move try_lock unlock
  woken_self (joining outside) old = ground arith
  woken_self (joining trying) old = ground arith
  woken_self (joining locked) old = ground arith
  woken_self (joining stored) old = ground arith
  woken_self (joining (loaded v)) old = ground arith
  woken_self (joining (added v)) old = ground arith
  woken_self waiting_count old = ground arith
  woken_self locking old = ground arith
  woken_self unlocking old = ground arith
  woken_self waiting_alert old = ground arith
  woken_self clearing old = ground arith
  woken_self (alerting i) old = ground arith

  woken_one : (p : Place) → woken p ≤ 1
  woken_one (joining outside) = ground arith
  woken_one (joining trying) = ground arith
  woken_one (joining locked) = ground arith
  woken_one (joining stored) = ground arith
  woken_one (joining (loaded v)) = ground arith
  woken_one (joining (added v)) = ground arith
  woken_one waiting_count = ground arith
  woken_one locking = ground arith
  woken_one unlocking = ground arith
  woken_one waiting_alert = ground arith
  woken_one clearing = ground arith
  woken_one (alerting i) = ground arith

  woken_other :
      (p : Place) (u : ℕ)
      → t ≢ u
      → woken (s.place u) ≤ s.memory.local_alert u
      → woken (s.place u) ≤ (after p).memory.local_alert u
  unfolding advance move try_lock unlock
  woken_other (joining outside) u ne old = ground (arith, woken_one (s.place u))
  woken_other (joining trying) u ne old = ground (arith, woken_one (s.place u))
  woken_other (joining locked) u ne old = ground (arith, woken_one (s.place u))
  woken_other (joining stored) u ne old = ground (arith, woken_one (s.place u))
  woken_other (joining (loaded v)) u ne old = ground (arith, woken_one (s.place u))
  woken_other (joining (added v)) u ne old = ground (arith, woken_one (s.place u))
  woken_other waiting_count u ne old = ground (arith, woken_one (s.place u))
  woken_other locking u ne old = ground (arith, woken_one (s.place u))
  woken_other unlocking u ne old = ground (arith, woken_one (s.place u))
  woken_other waiting_alert u ne old = ground (arith, woken_one (s.place u))
  woken_other clearing u ne old = ground (arith, woken_one (s.place u))
  woken_other (alerting i) u ne old = ground (arith, woken_one (s.place u))

  pub woken_le-keep :
      (p : Place) (u : ℕ)
      → s.place t ≡ p
      → woken ((after p).place u) ≤ (after p).memory.local_alert u
  woken_le-keep p u at = elim (ℕ_discrete t u) [
    | yes e ↦ rw (sym e) (
        subst (λ (q : Place). woken q ≤ (after p).memory.local_alert t)
          (sym (put_self s.place t (next threads chief s t p).1))
          (woken_self p
            (subst (λ (q : Place). woken q ≤ s.memory.local_alert t) at (inv.woken_le t))))
    | no ne ↦
        subst (λ (q : Place). woken q ≤ (after p).memory.local_alert u)
          (sym (put_ne s.place t (next threads chief s t p).1 u ne))
          (woken_other p u ne (inv.woken_le u))
  ]

  role_step : (p : Place) → t ≢ chief → of_chief p ≡ 0 → of_chief (next threads chief s t p).1 ≡ 0
  unfolding advance move try_lock unlock
  role_step (joining outside) ne old = ground arith
  role_step (joining trying) ne old = ground arith
  role_step (joining locked) ne old = ground arith
  role_step (joining stored) ne old = ground arith
  role_step (joining (loaded v)) ne old = ground arith
  role_step (joining (added v)) ne old = ground arith
  role_step waiting_count ne old = ground arith
  role_step locking ne old = ground arith
  role_step unlocking ne old = ground arith
  role_step waiting_alert ne old = ground arith
  role_step clearing ne old = ground arith
  role_step (alerting i) ne old = ground arith

  pub role-keep : (p : Place) (u : ℕ) → s.place t ≡ p → u ≢ chief → of_chief ((after p).place u) ≡ 0
  role-keep p u at other = elim (ℕ_discrete t u) [
    | yes e ↦ rw (sym e) (
        ap (λ (q : Place). of_chief q) (put_self s.place t (next threads chief s t p).1)
        ∙ role_step p (λ same. other (sym e ∙ same))
            (ap (λ (q : Place). of_chief q) (sym at) ∙ inv.role t (λ same. other (sym e ∙ same))))
    | no ne ↦
        ap (λ (q : Place). of_chief q) (put_ne s.place t (next threads chief s t p).1 u ne)
        ∙ inv.role u other
  ]
