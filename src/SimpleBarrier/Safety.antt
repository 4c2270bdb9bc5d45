-- ===== src/SimpleBarrier/Safety.antt =====
-- The invariant of every interleaving, and that no tile leaves the barrier before all have come.
use no_cgbp_rtl.Base.{
  ℕ, zero, suc, true, ◌+◌, ◌-◌, ◌*◌, ◌/◌, ◌%◌, ◌^◌, ◌≡◌, leb, bit_or, ◌<◌, ◌≤◌, inl, inr, refl,
  List, [], ◌∷◌, ltb, Bool-cases, ltb→lt, arith,
}
use native.Mathlib.Decide.{ℕ_discrete}
use native.Mathlib.Nat.{div-lt_iff_lt-mul, mod-lt, mul-le-mul_right, div-add-mod'}
use no_cgbp_rtl.SimpleBarrier.{
  Memory, Place, advance, Rectangle, height, alert_tile, chief_number, Barrier, start, turn, run,
  num_threads, joining, waiting_count, locking, unlocking, waiting_alert, clearing, alerting,
}
use no_cgbp_rtl.Mutex.{outside, trying, locked, loaded, added, stored}
use no_cgbp_rtl.Base.Sums.{sum-const}
use no_cgbp_rtl.SimpleBarrier.Counters.{joined, reset, alerted, committed}
use no_cgbp_rtl.SimpleBarrier.Turn.{total, total_at, calls_le}
use no_cgbp_rtl.SimpleBarrier.Invariant.{Inv}
use no_cgbp_rtl.SimpleBarrier.Count.{count-keep, low-keep, full-keep}
use no_cgbp_rtl.SimpleBarrier.Alerts.{alerted_eq-keep, alert_le-keep, woken_le-keep, role-keep}
use no_cgbp_rtl.SimpleBarrier.Lock.{mutex_le-keep, inside_le-keep, exclusive-keep}
use no_cgbp_rtl.SimpleBarrier.Views.{View-keep}

-- Who has alerted has reset the count, or has it full.
alerted_le :
    (p : Place) (t : ℕ)
    → (alerted p t ≤ reset p + committed p) × (alerted p t ≤ 1) × (committed p ≤ 1)
alerted_le (joining p) t = (ground arith, ground arith, ground arith)
alerted_le waiting_count t = (ground arith, ground arith, ground arith)
alerted_le locking t = (ground arith, ground arith, ground arith)
alerted_le unlocking t = (ground arith, ground arith, ground arith)
alerted_le waiting_alert t = (ground arith, ground arith, ground arith)
alerted_le clearing t = (ground arith, ground arith, ground arith)
alerted_le (alerting i) t = (ground arith, ground arith, ground arith)

module _ (threads chief : ℕ) (chief_lt : chief < threads) (few : threads ≤ 2 ^ 16) where
  turn-Inv :
      (s : Barrier) (t : ℕ)
      → t < threads
      → Inv threads chief s
      → Inv threads chief (turn threads chief (λ i. i) s t)
  unfolding turn
  turn-Inv s t t_lt inv = record {
    count = count-keep threads chief s inv t t_lt chief_lt few (s.place t) refl;
    low = λ u. low-keep threads chief s inv t t_lt chief_lt few (s.place t) u refl;
    full = λ u. full-keep threads chief s inv t t_lt chief_lt few (s.place t) u refl;
    alerted_eq = λ u. alerted_eq-keep threads chief s inv t t_lt chief_lt few (s.place t) u refl;
    alert_le = λ u. alert_le-keep threads chief s inv t t_lt chief_lt few (s.place t) u;
    woken_le = λ u. woken_le-keep threads chief s inv t t_lt chief_lt few (s.place t) u refl;
    mutex_le = mutex_le-keep threads chief s inv t t_lt chief_lt few (s.place t);
    inside_le = λ u. inside_le-keep threads chief s inv t t_lt chief_lt few (s.place t) u refl;
    exclusive = λ a b. exclusive-keep threads chief s inv t t_lt chief_lt few (s.place t) a b refl;
    view = λ u. View-keep threads chief s inv t t_lt chief_lt few (s.place t) u refl;
    role = λ u. role-keep threads chief s inv t t_lt chief_lt few (s.place t) u refl;
  }

  start-Inv : Inv threads chief start
  unfolding total
  start-Inv = record {
    count = omega (arith, sum-const threads 0 (λ u. 0) (λ u lt. refl));
    low = λ u lt. omega arith;
    full = λ u lt c. absurd (omega arith);
    alerted_eq = λ u lt ne. refl;
    alert_le = λ u. omega arith;
    woken_le = λ u. omega arith;
    mutex_le = omega arith;
    inside_le = λ u. omega arith;
    exclusive = λ t u i j. absurd (omega arith);
    view = λ u. tt;
    role = λ u ne. refl;
  }

  run_from :
      (s : Barrier) (order : List ℕ)
      → Inv threads chief s
      → Inv threads chief (run threads chief (λ i. i) s order)
  unfolding run
  run_from s [] inv = inv
  run_from s (t ∷ order) inv = elim (Bool-cases (ltb t threads)) [
    | inl e ↦
        rw e
          (run_from (turn threads chief (λ i. i) s t) order (turn-Inv s t (ltb→lt t threads e) inv))
    | inr e ↦ rw e (run_from s order inv)
  ]

  waits :
      (s : Barrier) (t u : ℕ)
      → Inv threads chief s
      → t < threads
      → u < threads
      → s.calls t ≤ total joined s u
  waits s t u inv t_lt u_lt = elim (ℕ_discrete t chief) [
    | yes e ↦ rw e (omega (arith, calls_le reset s chief, inv.low u u_lt))
    | no ne ↦ elim (ℕ_discrete (committed (s.place chief)) 1) [
      | yes c ↦ omega (
        arith,
        inv.alerted_eq t t_lt ne,
        total_at (λ p. alerted p t) s chief (s.place chief) refl,
        alerted_le (s.place chief) t,
        inv.full u u_lt c,
      )
      | no not_yet ↦ omega (
        arith,
        inv.alerted_eq t t_lt ne,
        total_at (λ p. alerted p t) s chief (s.place chief) refl,
        total_at reset s chief (s.place chief) refl,
        alerted_le (s.place chief) t,
        inv.low u u_lt,
      )
    ]
  ]

-- Only the alerts of the rounds matter.
advance-same :
    (threads chief : ℕ) (alert_of : ℕ → ℕ) (t : ℕ) (m : Memory) (p : Place)
    → ((i : ℕ) → i < threads → alert_of i ≡ i)
    → advance threads chief alert_of t m p ≡ advance threads chief (λ i. i) t m p
unfolding advance
advance-same threads chief alert_of t m (joining outside) same = refl
advance-same threads chief alert_of t m (joining trying) same = refl
advance-same threads chief alert_of t m (joining locked) same = refl
advance-same threads chief alert_of t m (joining (loaded v)) same = refl
advance-same threads chief alert_of t m (joining (added v)) same = refl
advance-same threads chief alert_of t m (joining stored) same = refl
advance-same threads chief alert_of t m waiting_count same = refl
advance-same threads chief alert_of t m locking same = refl
advance-same threads chief alert_of t m unlocking same = refl
advance-same threads chief alert_of t m waiting_alert same = refl
advance-same threads chief alert_of t m clearing same = refl
advance-same threads chief alert_of t m (alerting i) same = elim (Bool-cases (ltb i threads)) [
  | inl e ↦ rw (e, same i (ltb→lt i threads e)) refl
  | inr e ↦ rw e refl
]

turn-same :
    (threads chief : ℕ) (alert_of : ℕ → ℕ) (s : Barrier) (t : ℕ)
    → ((i : ℕ) → i < threads → alert_of i ≡ i)
    → turn threads chief alert_of s t ≡ turn threads chief (λ i. i) s t
unfolding turn
turn-same threads chief alert_of s t same =
    rw (advance-same threads chief alert_of t s.memory (s.place t) same) refl

run-same :
    (threads chief : ℕ) (alert_of : ℕ → ℕ) (s : Barrier) (order : List ℕ)
    → ((i : ℕ) → i < threads → alert_of i ≡ i)
    → run threads chief alert_of s order ≡ run threads chief (λ i. i) s order
unfolding run
run-same threads chief alert_of s [] same = refl
run-same threads chief alert_of s (t ∷ order) same = elim (Bool-cases (ltb t threads)) [
  | inl e ↦
      rw (e, turn-same threads chief alert_of s t same)
        (run-same threads chief alert_of (turn threads chief (λ i. i) s t) order same)
  | inr e ↦ rw e (run-same threads chief alert_of s order same)
]

le-leb : (a b : ℕ) → a ≤ b → leb a b ≡ true
le-leb a b le = ground arith

from_start : (s a : ℕ) → s + a - s ≡ a
from_start s a = omega arith

-- The round of column `i / h` and row `i % h`
column_lt : (w h i : ℕ) → i < w * h → (0 < h) × (i / h < w)
column_lt w zero i lt = absurd (omega arith)
column_lt w (suc h) i lt = (omega arith, (div-lt_iff_lt-mul (omega arith)).1 lt)

alert_tile-same :
    (r : Rectangle)
    → ((x : ℕ) → r.x_cord_start ≤ x → x ≤ r.x_cord_end → bit_or x r.barrier_x_cord ≡ x)
    → ((y : ℕ) → r.y_cord_start ≤ y → y ≤ r.y_cord_end → bit_or y r.barrier_y_cord ≡ y)
    → r.x_cord_start ≤ r.barrier_x_cord
    → r.barrier_x_cord ≤ r.x_cord_end
    → r.y_cord_start ≤ r.barrier_y_cord
    → r.barrier_y_cord ≤ r.y_cord_end
    → (i : ℕ) → i < num_threads r
    → alert_tile r i ≡ i
unfolding alert_tile
alert_tile-same r keep_x keep_y x_from x_to y_from y_to i lt =
    let h = height r in
    let x_lt = column_lt (r.x_cord_end - r.x_cord_start + 1) h i lt in
    let y_lt = mod-lt i x_lt.0 in
    rw
      (
        keep_x (r.x_cord_start + i / h) (omega arith) (omega (arith, x_lt.1)),
        keep_y (r.y_cord_start + i % h) (omega arith) (omega (arith, y_lt)),
        le-leb (r.x_cord_start + i / h) r.x_cord_end (omega (arith, x_lt.1)),
        le-leb (r.y_cord_start + i % h) r.y_cord_end (omega (arith, y_lt)),
        from_start r.x_cord_start (i / h),
        from_start r.y_cord_start (i % h),
      )
      (div-add-mod' i h)

chief_number-lt :
    (r : Rectangle)
    → r.x_cord_start ≤ r.barrier_x_cord
    → r.barrier_x_cord ≤ r.x_cord_end
    → r.y_cord_start ≤ r.barrier_y_cord
    → r.barrier_y_cord ≤ r.y_cord_end
    → chief_number r < num_threads r
chief_number-lt r x_from x_to y_from y_to =
    let columns : r.barrier_x_cord - r.x_cord_start ≤ r.x_cord_end - r.x_cord_start = omega arith in
    omega (arith, mul-le-mul_right (height r) columns)

-- In every order of steps, for a rectangle of up to 2^16 tiles with the chief in it, whose coordinates
-- change those of no tile of the rectangle under `|` (a chief at (0, 0) does so): when a tile has
-- returned from the barrier `n` times, every tile has begun its `n`-th call and been counted. So no
-- tile leaves before all have come, and none is ever more than one call ahead.
pub barrier_run-waits :
    (r : Rectangle) (order : List ℕ) (t u : ℕ)
    → r.x_cord_start ≤ r.barrier_x_cord
    → r.barrier_x_cord ≤ r.x_cord_end
    → r.y_cord_start ≤ r.barrier_y_cord
    → r.barrier_y_cord ≤ r.y_cord_end
    → ((x : ℕ) → r.x_cord_start ≤ x → x ≤ r.x_cord_end → bit_or x r.barrier_x_cord ≡ x)
    → ((y : ℕ) → r.y_cord_start ≤ y → y ≤ r.y_cord_end → bit_or y r.barrier_y_cord ≡ y)
    → num_threads r ≤ 2 ^ 16
    → t < num_threads r
    → u < num_threads r
    → (let s = run (num_threads r) (chief_number r) (alert_tile r) start order in
        s.calls t ≤ s.calls u + joined (s.place u))
unfolding total
barrier_run-waits r order t u x_from x_to y_from y_to keep_x keep_y few t_lt u_lt =
    let n = num_threads r in
    let c = chief_number r in
    let c_lt = chief_number-lt r x_from x_to y_from y_to in
    rw
      (run-same n c (alert_tile r) start order
        (alert_tile-same r keep_x keep_y x_from x_to y_from y_to))
      (waits n c c_lt few (run n c (λ i. i) start order) t u
        (run_from n c c_lt few start order (start-Inv n c c_lt few)) t_lt u_lt)
