-- ===== src/Arch/Tests.antt =====
-- Pointers of small groups.
use no_cgbp_rtl.Base.{◌+◌, ◌*◌, ◌/◌, ◌%◌, ◌<◌, ◌≡◌, arith}
use no_cgbp_rtl.Arch.{remote_ptr, local_ptr, shared_ptr}
use no_cgbp_rtl.Arch.Layout.{remote, place_of, place_of-remote_ptr}
use no_cgbp_rtl.Arch.Shared.{shared_mem, index_of, place_of-shared_ptr, index_of-shared_ptr}

place_of-remote_ptr_example :
    (place_of (remote_ptr 3 2 0x1ac) ≡ remote 3 2 0x1ac)
    × (local_ptr (remote_ptr 3 2 0x1ac) ≡ 0x1ac)
place_of-remote_ptr_example =
    place_of-remote_ptr 3 2 0x1ac (omega arith) (omega arith) (omega arith)

place_of-shared_ptr_example :
    (place_of (shared_ptr 4 2 4 0x100 21)
      ≡ remote (21 % 4) (21 / 4 % 2) (0x100 + 4 * (21 / (4 * 2))))
    × (21 % 4 < 4)
    × (21 / 4 % 2 < 2)
    × (21 / (4 * 2) < shared_mem 4 2 30)
place_of-shared_ptr_example =
    place_of-shared_ptr 4 2 4 0x100 30 21 (omega arith) (omega arith) (omega arith) (omega arith)
      (omega arith) (omega arith)

index_of-shared_ptr_example : index_of 4 2 4 0x100 (place_of (shared_ptr 4 2 4 0x100 21)) ≡ 21
index_of-shared_ptr_example =
    index_of-shared_ptr 4 2 4 0x100 21 (omega arith) (omega arith) (omega arith) (omega arith)
      (omega arith) (omega arith)
