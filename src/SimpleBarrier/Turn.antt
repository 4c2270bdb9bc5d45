-- ===== src/SimpleBarrier/Turn.antt =====
-- How a step changes the counters of every tile.
use no_cgbp_rtl.Base.{ℕ, ◌+◌, ◌<◌, ◌≤◌, ◌≡◌, ◌≢◌, refl, sym, ◌==◌, if◌then◌else◌, arith}
use native.Mathlib.Decide.{ℕ_discrete}
use no_cgbp_rtl.Base.Loops.{put}
use no_cgbp_rtl.Mutex.{outside, trying, locked, loaded, added, stored, try_lock, unlock, move}
use no_cgbp_rtl.SimpleBarrier.{
  Memory, Place, joining, waiting_count, locking, unlocking, waiting_alert, clearing, alerting,
  advance, Barrier, returns,
}
use no_cgbp_rtl.SimpleBarrier.Counters.{joined, reset, alerted, joins, resets, alerts}

-- What a tile has done in all its calls
unfoldable pub total : (Place → ℕ) → Barrier → (tile : ℕ) → ℕ
total f s t = s.calls t + f (s.place t)

pub total_at :
    (f : Place → ℕ) (s : Barrier) (t : ℕ) (p : Place)
    → s.place t ≡ p
    → total f s t ≡ s.calls t + f p
unfolding total
total_at f s t p at = rw at refl

pub calls_le : (f : Place → ℕ) (s : Barrier) (t : ℕ) → s.calls t ≤ total f s t
unfolding total
calls_le f s t = omega arith

pub total_le :
    (f g : Place → ℕ) (s : Barrier) (t : ℕ) → ((p : Place) → f p ≤ g p) → total f s t ≤ total g s t
unfolding total
total_le f g s t h = omega (arith, h (s.place t))

pub put_self {ℓ} : {A : Type ℓ} (f : ℕ → A) (i : ℕ) (v : A) → put f i v i ≡ v
put_self f i v = ground arith

pub put_ne {ℓ} : {A : Type ℓ} (f : ℕ → A) (i : ℕ) (v : A) (j : ℕ) → i ≢ j → put f i v j ≡ f j
put_ne f i v j ne = ground arith

module _ (threads chief : ℕ) (s : Barrier) (t : ℕ) where
  -- The step where each alert goes to the tile of its round
  abbrev pub next : Place → Memory × Place
  next p = advance threads chief (λ i. i) t s.memory p

  -- The state after a step of tile `t` from the place `p`
  abbrev pub moved : Place → Barrier
  moved p = record {
    memory = (next p).0;
    place = put s.place t (next p).1;
    calls = put s.calls t (s.calls t + returns p);
  }

  pub total-moved :
      (f : Place → ℕ) (d : ℕ) (p : Place) (u : ℕ)
      → s.place t ≡ p
      → (t ≡ u → returns p + f (next p).1 ≡ f p + d)
      → total f (moved p) u ≡ total f s u + (if t == u then d else 0)
  unfolding total
  total-moved f d p u at h = elim (ℕ_discrete t u) [
    | yes e ↦ rw (sym e) (
        rw (put_self s.place t (next p).1, put_self s.calls t (s.calls t + returns p), at)
          (ground (arith, h e)))
    | no ne ↦
        rw (put_ne s.place t (next p).1 u ne, put_ne s.calls t (s.calls t + returns p) u ne)
          (ground (arith, ne))
  ]

  pub calls-moved :
      (p : Place) (u : ℕ) → (moved p).calls u ≡ s.calls u + (if t == u then returns p else 0)
  calls-moved p u = elim (ℕ_discrete t u) [
    | yes e ↦ rw (sym e) (rw (put_self s.calls t (s.calls t + returns p)) (ground arith))
    | no ne ↦ rw (put_ne s.calls t (s.calls t + returns p) u ne) (ground (arith, ne))
  ]

  pub joined_step : (p : Place) → returns p + joined (next p).1 ≡ joined p + joins p
  unfolding advance move try_lock unlock
  joined_step (joining outside) = ground arith
  joined_step (joining trying) = ground arith
  joined_step (joining locked) = ground arith
  joined_step (joining stored) = ground arith
  joined_step (joining (loaded v)) = ground arith
  joined_step (joining (added v)) = ground arith
  joined_step waiting_count = ground arith
  joined_step locking = ground arith
  joined_step unlocking = ground arith
  joined_step waiting_alert = ground arith
  joined_step clearing = ground arith
  joined_step (alerting i) = ground arith

  pub reset_step :
      (p : Place) → t ≡ chief → returns p + reset (next p).1 ≡ reset p + resets threads p
  unfolding advance move try_lock unlock
  reset_step (joining outside) e = ground arith
  reset_step (joining trying) e = ground arith
  reset_step (joining locked) e = ground arith
  reset_step (joining stored) e = ground arith
  reset_step (joining (loaded v)) e = ground arith
  reset_step (joining (added v)) e = ground arith
  reset_step waiting_count e = ground arith
  reset_step locking e = ground arith
  reset_step unlocking e = ground arith
  reset_step waiting_alert e = ground arith
  reset_step clearing e = ground arith
  reset_step (alerting i) e = ground arith

  pub alerted_step :
      (p : Place) (u : ℕ)
      → u < threads
      → t ≡ chief
      → returns p + alerted (next p).1 u ≡ alerted p u + alerts p u
  unfolding advance move try_lock unlock
  alerted_step (joining outside) u lt e = ground arith
  alerted_step (joining trying) u lt e = ground arith
  alerted_step (joining locked) u lt e = ground arith
  alerted_step (joining stored) u lt e = ground arith
  alerted_step (joining (loaded v)) u lt e = ground arith
  alerted_step (joining (added v)) u lt e = ground arith
  alerted_step waiting_count u lt e = ground arith
  alerted_step locking u lt e = ground arith
  alerted_step unlocking u lt e = ground arith
  alerted_step waiting_alert u lt e = ground arith
  alerted_step clearing u lt e = ground arith
  alerted_step (alerting i) u lt e = ground arith
