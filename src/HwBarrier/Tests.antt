-- ===== src/HwBarrier/Tests.antt =====
-- The tree of a group of 8 by 4 tiles with ruche links of 3.
use no_cgbp_rtl.Base.{
  ℕ, ◌+◌, ◌*◌, ◌/◌, ◌%◌, ◌^◌, ◌≤◌, ◌≡◌, some, List, length, replicate, get_or, arith,
}
use no_cgbp_rtl.HwBarrier.{east, code, center, out_dir, config_init}
use no_cgbp_rtl.HwBarrier.Word.{bit}
use no_cgbp_rtl.HwBarrier.Links.{neighbour, is_sent}
use no_cgbp_rtl.HwBarrier.Route.{follow, follow-root}
use no_cgbp_rtl.HwBarrier.Tree.{position, config_init-links}

abbrev room : List ℕ
room = replicate 40 9

enough : 8 * 4 ≤ length room
enough = omega arith

follow-root_example : follow 3 8 4 (8 + 4) 7 3 ≡ some (center 8, center 4)
follow-root_example = follow-root 3 8 4 7 3 (omega arith) (omega arith) (omega arith)

abbrev stored : ℕ
stored = get_or (config_init 3 8 4 room) (4 + 2 * 8) 0

config_init-links_example :
    (stored / 2 ^ 16 ≡ code (out_dir 3 8 4 4 2))
    × (stored / 2 ^ position east % 2 ≡ bit (is_sent 3 8 4 east (neighbour 3 8 4 east 4 2)))
config_init-links_example =
    config_init-links 3 8 4 room 4 2 east (omega arith) enough (omega arith) (omega arith)
