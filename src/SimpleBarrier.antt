-- ===== src/SimpleBarrier.antt =====
-- software/bsg_manycore_lib/bsg_barrier.h: the barrier of a rectangle of tiles, as tiles that
-- interleave, one access of memory to a step. The tiles are numbered in the order of the loops that
-- alert them, by columns; the chief is the tile at barrier_x_cord and barrier_y_cord, whose `_mutex` and
-- `_joined_count` are the only ones used. The join is bsg_atomic_inc (Mutex). `p_remote_barrier` has
-- the chief's coordinates in it already, and bsg_remote_store puts others over them by `|`.
pub mod Counters
pub mod Turn
pub mod Invariant
pub mod Count
pub mod Alerts
pub mod Lock
pub mod Views
pub mod Safety
mod Tests
use no_cgbp_rtl.Base.{
  ℕ, zero, suc, ◌+◌, ◌*◌, ◌-◌, ◌/◌, ◌%◌, ◌^◌, bit_or, leb, ◌&&◌, List, [], ◌∷◌, ltb, ◌==◌,
  if◌then◌else◌,
}
use no_cgbp_rtl.Base.Loops.{put}
use no_cgbp_rtl.Mutex.{
  Shared, Pc, outside, trying, locked, loaded, added, stored, try_lock, unlock, lock_fail, move,
}

-- _mutex and _joined_count of the chief, and _local_alert of every tile
pub record Memory : Type 0 where
  pub shared : Shared
  pub local_alert : ℕ → ℕ

-- Where a tile stands: in bsg_atomic_inc (at first before it); the chief at its wait, before a swap of
-- bsg_mutex_lock, before a store of the loops, before the unlock; another at its wait or before the
-- store that clears its alert.
pub data Place : Type 0 where
  joining : Pc → Place
  waiting_count locking unlocking waiting_alert clearing : Place
  alerting : ℕ → Place

-- The fields of bsg_barrier that do not change, and the coordinates that the caller gives
pub record Rectangle : Type 0 where
  pub x_cord_start : ℕ
  pub x_cord_end : ℕ
  pub y_cord_start : ℕ
  pub y_cord_end : ℕ
  pub barrier_x_cord : ℕ
  pub barrier_y_cord : ℕ

module _ (r : Rectangle) where
  abbrev pub height : ℕ
  height = r.y_cord_end - r.y_cord_start + 1

  abbrev pub num_threads : ℕ
  num_threads = (r.x_cord_end - r.x_cord_start + 1) * height

  abbrev pub tile_number : (x y : ℕ) → ℕ
  tile_number x y = (x - r.x_cord_start) * height + (y - r.y_cord_start)

  abbrev pub chief_number : ℕ
  chief_number = tile_number r.barrier_x_cord r.barrier_y_cord

  -- Where `bsg_remote_store( i, j, &(p_remote_barrier->_local_alert), ...)` goes in round `n` of the
  -- two loops: the pointer has both pairs of coordinates, joined by `|`. A tile that is not of the
  -- rectangle has a number past its tiles.
  unfoldable pub alert_tile : (n : ℕ) → ℕ
  alert_tile n =
      let x = bit_or (r.x_cord_start + n / height) r.barrier_x_cord in
      let y = bit_or (r.y_cord_start + n % height) r.barrier_y_cord in
      if leb x r.x_cord_end && leb y r.y_cord_end then tile_number x y else num_threads

module _ (threads chief : ℕ) (alert_of : ℕ → ℕ) where
  -- After bsg_atomic_inc
  abbrev pub joined_place : (tile : ℕ) → Place
  joined_place tile = if tile == chief then Place.waiting_count else Place.waiting_alert

  -- The step of a tile; a loop that has ended goes on with the first access after it, the reset.
  unfoldable pub advance : (tile : ℕ) → Memory → Place → Memory × Place
  advance tile m (Place.joining Pc.stored) =
      (record m { shared = (move m.shared Pc.stored).0 }, joined_place tile)
  advance tile m (Place.joining p) =
      (record m { shared = (move m.shared p).0 }, Place.joining (move m.shared p).1)
  advance tile m Place.waiting_count =
      (m, if m.shared.value == threads then Place.locking else Place.waiting_count)
  advance tile m Place.locking = (
    record m { shared = (try_lock m.shared).1 },
    if (try_lock m.shared).0 == lock_fail then Place.locking else Place.alerting 0,
  )
  advance tile m (Place.alerting i) =
      if ltb i threads
      then (record m { local_alert = put m.local_alert (alert_of i) 1 }, Place.alerting (i + 1))
      else (record m { shared = record { mutex = m.shared.mutex; value = 0 } }, Place.unlocking)
  advance tile m Place.unlocking = (record m { shared = unlock m.shared }, Place.joining Pc.outside)
  advance tile m Place.waiting_alert =
      (m, if m.local_alert tile == 1 then Place.clearing else Place.waiting_alert)
  advance tile m Place.clearing =
      (record m { local_alert = put m.local_alert tile 0 }, Place.joining Pc.outside)

-- All the tiles; `calls` counts the calls that have returned.
pub record Barrier : Type 0 where
  pub memory : Memory
  pub place : ℕ → Place
  pub calls : ℕ → ℕ

abbrev pub returns : Place → ℕ
returns Place.unlocking = 1
returns Place.clearing = 1
returns _ = 0

-- BSG_BARRIER_INIT
abbrev pub start : Barrier
start = record {
  memory = record { shared = record { mutex = 0; value = 0 }; local_alert = λ tile. 0 };
  place = λ tile. Place.joining Pc.outside;
  calls = λ tile. 0;
}

module _ (threads chief : ℕ) (alert_of : ℕ → ℕ) where
  unfoldable pub turn : Barrier → (tile : ℕ) → Barrier
  turn s tile =
      let next = advance threads chief alert_of tile s.memory (s.place tile) in
      record {
        memory = next.0;
        place = put s.place tile next.1;
        calls = put s.calls tile (s.calls tile + returns (s.place tile));
      }

  -- The tiles move in the order of a list; a number of no tile does nothing.
  unfoldable pub run : Barrier → List ℕ → Barrier
  run s [] = s
  run s (tile ∷ order) = let s' = if ltb tile threads then turn s tile else s in run s' order
