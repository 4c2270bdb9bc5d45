-- ===== src/Histogram.antt =====
-- software/spmd/vcache_atomic_histogram/main.c: the tiles count the values of their part of the data,
-- and add the counts to one histogram under a lock. A step of a tile is one access of memory, or one
-- round of a loop that makes none. The loop that counts to a hundred before a swap has no effect,
-- and the print of `start_idx` is left out.
pub mod Data
pub mod Steps
pub mod Shares
pub mod Invariant
pub mod Results
pub mod Progress
pub mod Program
mod Tests
use no_cgbp_rtl.Base.{
  ℕ, zero, suc, ◌+◌, ◌*◌, ◌/◌, ◌%◌, ◌^◌, List, [], ◌∷◌, ltb, ◌==◌, if◌then◌else◌,
}
use no_cgbp_rtl.Base.Loops.{put}
use no_cgbp_rtl.Manycore.{Access, finish, fail}

-- N
abbrev pub size : ℕ
size = 1024

-- The variables `lock` and `histogram`; `data` is never written.
pub record Memory : Type 0 where
  pub lock : ℕ
  pub histogram : ℕ → ℕ

-- Where a tile stands in do_histogram_work, with its `local_histogram`: before a round of the first
-- loop, before the swap, before a round of the second loop, before its store with the value that it
-- has loaded, and in the barrier that follows. A value that is no index of the array has no meaning.
pub data Place : Type 0 where
  counting : (i : ℕ) → (ℕ → ℕ) → Place
  trying : (ℕ → ℕ) → Place
  merging : (i : ℕ) → (ℕ → ℕ) → Place
  adding : (i local_hist : ℕ) → (ℕ → ℕ) → Place
  waiting undefined : Place

-- `local_histogram[local_data]++` and the next round
abbrev pub counted : (local_data i : ℕ) → (ℕ → ℕ) → Place
counted local_data i local =
    if ltb local_data 32
    then Place.counting (i + 1) (put local local_data ((local local_data + 1) % 2 ^ 32))
    else Place.undefined

module _ (values : ℕ → ℕ) (tiles : ℕ) where
  abbrev pub work : ℕ
  work = size / tiles

  abbrev pub start_idx : (id : ℕ) → ℕ
  start_idx id = id * work

  unfoldable pub step : (id : ℕ) → Memory → Place → Memory × Place
  step id m (Place.counting i local) =
      (m, if ltb i work then counted (values (start_idx id + i)) i local else Place.trying local)
  step id m (Place.trying local) =
      (record m { lock = 1 }, if m.lock == 0 then Place.merging 0 local else Place.trying local)
  step id m (Place.merging i local) =
      if ltb i 32
      then (
        m,
        if local i == 0 then Place.merging (i + 1) local else Place.adding i (m.histogram i) local,
      )
      else (record m { lock = 0 }, Place.waiting)
  step id m (Place.adding i local_hist local) = (
    record m { histogram = put m.histogram i ((local_hist + local i) % 2 ^ 32) },
    Place.merging (i + 1) local,
  )
  step id m Place.waiting = (m, Place.waiting)
  step id m Place.undefined = (m, Place.undefined)

-- All the tiles
pub record Machine : Type 0 where
  pub memory : Memory
  pub place : ℕ → Place

abbrev pub begin : Machine
begin = record {
  memory = record { lock = 0; histogram = λ i. 0 };
  place = λ id. Place.counting 0 (λ i. 0);
}

module _ (values : ℕ → ℕ) (tiles : ℕ) where
  unfoldable pub turn : Machine → (id : ℕ) → Machine
  turn s id =
      let next = step values tiles id s.memory (s.place id) in
      record { memory = next.0; place = put s.place id next.1 }

  -- The tiles move in the order of a list; a number of no tile does nothing.
  unfoldable pub run : Machine → List ℕ → Machine
  run s [] = s
  run s (id ∷ order) = let s' = if ltb id tiles then turn s id else s in run s' order

-- validate of the tile at `x` and `y`, with the values that it compares with from bin `i` on; bsg_fail
-- loops for ever after its store, so the first difference is the last one seen.
module _ (io_x io_y x y : ℕ) where
  unfoldable pub validate : (i : ℕ) → (expected : List ℕ) → (histogram : ℕ → ℕ) → Access
  validate i [] histogram = finish io_x io_y x y
  validate i (count ∷ expected) histogram =
      let rest = validate (i + 1) expected histogram in
      if histogram i == count then rest else fail io_x io_y x y
