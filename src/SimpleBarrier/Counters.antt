-- ===== src/SimpleBarrier/Counters.antt =====
-- What a tile has done in its current call, as numbers 0 and 1, by where it stands.
use no_cgbp_rtl.Base.{ℕ, ltb, ◌==◌, if◌then◌else◌}
use no_cgbp_rtl.Mutex.{outside, trying, locked, loaded, added, stored}
use no_cgbp_rtl.SimpleBarrier.{
  Place, joining, waiting_count, locking, unlocking, waiting_alert, clearing, alerting,
}

-- It has been counted;
abbrev pub joined : Place → ℕ
joined (joining outside) = 0
joined (joining trying) = 0
joined (joining locked) = 0
joined (joining (loaded v)) = 0
joined (joining (added v)) = 0
joined _ = 1

-- the chief has reset the count,
abbrev pub reset : Place → ℕ
reset unlocking = 1
reset waiting_alert = 1
reset clearing = 1
reset _ = 0

-- and has alerted tile `u`.
abbrev pub alerted : Place → ℕ → ℕ
alerted (alerting i) u = if ltb u i then 1 else 0
alerted unlocking u = 1
alerted waiting_alert u = 1
alerted clearing u = 1
alerted _ u = 0

-- It holds the lock.
abbrev pub inside : Place → ℕ
inside (joining locked) = 1
inside (joining stored) = 1
inside (joining (loaded v)) = 1
inside (joining (added v)) = 1
inside (alerting i) = 1
inside unlocking = 1
inside _ = 0

-- The chief has seen that all have joined, and has not reset the count.
abbrev pub committed : Place → ℕ
committed locking = 1
committed (alerting i) = 1
committed _ = 0

-- Only the chief comes here.
abbrev pub of_chief : Place → ℕ
of_chief waiting_count = 1
of_chief locking = 1
of_chief unlocking = 1
of_chief (alerting i) = 1
of_chief _ = 0

-- A tile has seen its alert.
abbrev pub woken : Place → ℕ
woken clearing = 1
woken _ = 0

-- How far a step takes the first three
abbrev pub joins : Place → ℕ
joins (joining (added v)) = 1
joins _ = 0

abbrev pub resets : (threads : ℕ) → Place → ℕ
resets threads (alerting i) = if ltb i threads then 0 else 1
resets threads _ = 0

abbrev pub alerts : Place → ℕ → ℕ
alerts (alerting i) u = if i == u then 1 else 0
alerts _ u = 0
