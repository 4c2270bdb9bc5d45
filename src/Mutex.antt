-- ===== src/Mutex.antt =====
-- The lock of software/bsg_manycore_lib/bsg_mutex.h: a word that `amoswap` sets and clears, and
-- tiles that call bsg_atomic_inc in any interleaving. A step of a tile is one access of memory.
pub mod Exclusion
pub mod Progress
pub mod Wait
mod Tests
use no_cgbp_rtl.Base.{ℕ, zero, suc, ◌+◌, ◌%◌, ◌^◌, List, [], ◌∷◌, if◌then◌else◌, ◌==◌}

-- bsg_mutex_lock_fail; bsg_mutex_lock_success is 0.
abbrev pub lock_fail : ℕ
lock_fail = 1

-- The memory that the calls share: `*p_mutex` and `*p_value`.
pub record Shared : Type 0 where
  pub mutex : ℕ
  pub value : ℕ

-- `amoswap.w.aq`: the word becomes 1, and the result is what it was.
unfoldable pub try_lock : Shared → ℕ × Shared
try_lock s = (s.mutex, record { mutex = 1; value = s.value })

-- `amoswap.w.rl x0, x0`
unfoldable pub unlock : Shared → Shared
unlock s = record { mutex = 0; value = s.value }

-- Where a tile stands in bsg_atomic_inc: outside, before a swap of bsg_mutex_lock, before the load,
-- before the addition, before the store, before bsg_mutex_unlock.
pub data Pc : Type 0 where
  outside trying locked stored : Pc
  loaded added : ℕ → Pc

-- The `do ... while` of bsg_mutex_lock
abbrev pub after_swap : ℕ → Pc
after_swap result = if result == lock_fail then Pc.trying else Pc.locked

unfoldable pub move : Shared → Pc → Shared × Pc
move s Pc.outside = (s, Pc.trying)
move s Pc.trying = ((try_lock s).1, after_swap (try_lock s).0)
move s Pc.locked = (s, Pc.loaded s.value)
move s (Pc.loaded v) = (s, Pc.added ((v + 1) % 2 ^ 32))
move s (Pc.added v) = (record { mutex = s.mutex; value = v }, Pc.stored)
move s Pc.stored = (unlock s, Pc.outside)

-- `calls` counts the calls that have returned.
pub record System : Type 0 where
  pub memory : Shared
  pub pc : ℕ → Pc
  pub calls : ℕ

abbrev pub update : (ℕ → Pc) → ℕ → Pc → ℕ → Pc
update f i p j = if i == j then p else f j

abbrev pub returned : Pc → ℕ
returned Pc.stored = 1
returned Pc.outside = 0
returned Pc.trying = 0
returned Pc.locked = 0
returned (Pc.loaded v) = 0
returned (Pc.added v) = 0

unfoldable pub turn : System → ℕ → System
turn s i =
    let next = move s.memory (s.pc i) in
    record { memory = next.0; pc = update s.pc i next.1; calls = s.calls + returned (s.pc i) }

-- The tiles move in the order of a list.
unfoldable pub run : System → List ℕ → System
run s [] = s
run s (i ∷ order) = run (turn s i) order

abbrev pub init : ℕ → System
init value = record {
  memory = record { mutex = 0; value = value };
  pc = λ i. Pc.outside;
  calls = 0;
}
