-- ===== src/Quicksort/Tests.antt =====
-- The programs' data.
use no_cgbp_rtl.Base.{ℕ, ◌^◌, ◌<◌, Bool, some, ap, ◌∙◌, ◌≡◌, ◌↔◌, refl, List, get_or, true, arith}
use no_cgbp_rtl.Base.Int.{pos, ◌+ℤ◌}
use no_cgbp_rtl.Quicksort.{Array, quicksort, passes}
use no_cgbp_rtl.Quicksort.Data.{data_512, data_128}
use no_cgbp_rtl.Quicksort.Arrays.{slice}
use no_cgbp_rtl.Quicksort.Sort.{Returns, quicksort_lem}
use no_cgbp_rtl.Quicksort.Program.{total, magnitudes, passes_iff}

abbrev of_list : List ℕ → Array
of_list items i = pos (get_or items i 0)

abbrev empty : Array
empty i = pos 0

sum_512 : total (slice (of_list data_512) 0 512) ≡ pos 25247145
unfolding slice data_512 ◌+ℤ◌
sum_512 = refl

sum_128 : total (slice (of_list data_128) 0 128) ≡ pos 6750377
unfolding slice data_128 ◌+ℤ◌
sum_128 = refl

small_512 : magnitudes (slice (of_list data_512) 0 512) < 2 ^ 31
unfolding slice data_512
small_512 = omega arith

-- Both programs pass on their own data.
program_512 : passes 512 (of_list data_512) empty (pos 25247145) ≡ some true
program_512 =
    let (b, e, iff) =
      passes_iff 512 (of_list data_512) empty (pos 25247145) (omega arith) small_512 in
    e ∙ ap some (iff.1 sum_512)

small_128 : magnitudes (slice (of_list data_128) 0 128) < 2 ^ 31
unfolding slice data_128
small_128 = omega arith

program_128 : passes 128 (of_list data_128) empty (pos 6750377) ≡ some true
program_128 =
    let (b, e, iff) =
      passes_iff 128 (of_list data_128) empty (pos 6750377) (omega arith) small_128 in
    e ∙ ap some (iff.1 sum_128)

quicksort_lem_example :
    Returns 3 8 (of_list data_128) empty (quicksort 9 3 8 (of_list data_128) empty)
quicksort_lem_example = quicksort_lem 9 3 8 (of_list data_128) empty (omega arith) (omega arith)

passes_iff_example :
    (b : Bool) × (passes 512 (of_list data_512) empty (pos 25247145) ≡ some b)
    × ((b ≡ true) ↔ (total (slice (of_list data_512) 0 512) ≡ pos 25247145))
passes_iff_example = passes_iff 512 (of_list data_512) empty (pos 25247145) (omega arith) small_512
