-- ===== src/Lib.antt =====
-- The runtime library of a manycore processor, and programs on it: software/bsg_manycore_lib, in C,
-- and software/spmd. A tile runs one program; a pointer names a local address of another tile, a
-- pod, the host or DRAM, and tiles meet through locks and barriers.
--
--   Arch: the pointer macros of bsg_manycore_arch.h, as functions to 32-bit words. Layout reads a
--   word back by the formats at the head of that file; Shared has pods and arrays of a tile group.
--   Manycore: of bsg_manycore.h the tile numbers (Ids), the stores to the host, and the word of the
--   performance counters (Stat); of bsg_manycore_gather_scatter.h the accesses of an operation
--   (GatherScatter).
--   HwBarrier: bsg_hw_barrier_config_init of bsg_hw_barrier_config_init.h. Word is the encoding,
--   Links what neighbours agree on, Route the way to the root, Table the array, Tree all of it.
--   Printf: bsg_printf.c. Number has strnlen, skip_atoi and number; Address has eaddr and iaddr;
--   Format has ee_vsprintf, cut at its directives; Print has bsg_printf. NumberLength, NumberValue
--   and NumberText describe what number writes, Decimal reads it back, and Parsing,
--   Directives and Total are about the format loop; Pieces describes formats of plain conversions,
--   Single has one conversion of them and Whole a format. Output ends in the stores of Manycore, under
--   the lock of Mutex; Print has them as events.
--   Crc32: software/spmd/crc32/main.c, with its table and data, against the bitwise CRC (Linear).
--   Mutex: bsg_mutex.h, its lock and bsg_atomic_inc, as steps of tiles that interleave in any order
--   (Exclusion), that the lock is never stuck (Progress), and the wait for a value (Wait).
--   TokenQueue: bsg_token_queue.h. The waits take the values that their loads return, in order;
--   Confirm has the waits on counts that wrap, Short the variant with 16-bit counters, Connections the
--   pointers. Link puts both tiles together, with the stores between them on their way (Flight); Phases
--   and Invariant are what they keep, Owned and Returns what follows.
--   TileConfig: bsg_set_tile_x_y.c, how the tiles learn their coordinates, in any order of steps:
--   Steps has what one does, Coordinates what all of them keep.
--   GroupBarrier: bsg_tile_group_barrier.h, as steps of the tiles of a group that interleave in any
--   order: a row's tiles report to its centre, the rows' centres to the group's, and the alerts go
--   back. Counters has what a tile has done by where it stands, Turn a step's effect on it, Invariant
--   what every step keeps; RowDone, ColDone, ColAlert, RowAlert, Seen, Woken and Roles keep its parts,
--   and Safety puts them together. Progress, Rounds and Enabled find a tile that can go on; Liveness
--   brings all of them through.
--   SimpleBarrier: bsg_barrier.h, one centre tile with a lock and a count: Counters and Turn as for
--   GroupBarrier, and Count, Alerts, Lock and Views keep the parts of Invariant. The pointer that the
--   alerts are stored by has the centre tile's coordinates in it; alert_tile is where they go.
--   TileGroup: bsg_tilegroup.h, arrays striped over the tiles: Bytes has what stores leave to loads,
--   Striped the initial values, Copies the copies and the fill.
--   Quicksort: software/spmd/quicksort/main.c and quicksort_by4/main.c. Arrays and Partition carry
--   Sort, the sorting; Program has the check of main.
--   Transpose: software/spmd/bsg_transpose/main.c, phase by phase between its barriers (Blocks).
--   Histogram: software/spmd/vcache_atomic_histogram/main.c, whose tiles count their part of the data
--   and add it to one histogram under a lock: Shares has the parts, Steps a step's effect, Invariant
--   what all steps keep, Results and Progress the end, Program what main makes of it.
--   RemoteCrc: software/spmd/remote_load_crc/main.c, whose checksum takes in one word (FirstWord).
--   Base: Boolean tests, loops, sums, lists, integers, and the arithmetic of `|`, `&` and `^`.
--
-- Words are numbers below 2^32, with the wrap written out. What the build sets (dimensions, the
-- coordinates of the host, the ruche factor) is an argument. A loop over an array or a string is
-- recursion on it; the digits of a number have the room of `tmp`, 66, as their fuel, and a 32-bit
-- number has at most 32; the format loop has one more than the length of the format, since every
-- round moves on by one character at least. A read past the arguments, a null address and a
-- buffer overrun are `undefined`. Quicksort has as much fuel as the array has elements, since
-- each call sorts fewer; the loops of the copies take a fuel, and one more than the number of
-- words is enough where they end at all; the checksum of RemoteCrc needs two rounds of fuel where
-- it ends. A wait for a value that others store, which the hardware stalls, is a step that may be
-- repeated.
--
-- Not modelled: the floating-point conversions of bsg_printf.c, which the build leaves out; the fence
-- of the token queue; the barriers and locks in assembly and the CUDA-lite runtime; the C++ headers;
-- the hardware in v/ and its tests in nocbp_verilator/.
pub mod Base
pub mod Arch
pub mod Manycore
pub mod HwBarrier
pub mod Printf
pub mod Crc32
pub mod Mutex
pub mod TokenQueue
pub mod GroupBarrier
pub mod Quicksort
pub mod Transpose
pub mod TileGroup
pub mod TileConfig
pub mod SimpleBarrier
pub mod Histogram
pub mod RemoteCrc
