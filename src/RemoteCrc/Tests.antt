-- ===== src/RemoteCrc/Tests.antt =====
-- The program's own data, and data that it takes for the same.
use no_cgbp_rtl.Base.{
  ℕ, bit_xor, ◌+◌, ◌≡◌, refl, sym, ap, ◌∙◌, some, none, ◌==◌, ltb, if◌then◌else◌, arith,
}
use no_cgbp_rtl.RemoteCrc.{crc32, node_word, xy_id, proc0}
use no_cgbp_rtl.RemoteCrc.FirstWord.{digest, crc32_lem, told, row_digests, proc0_lem}

-- Data of which all but the first word are lost
abbrev lost : (x y i : ℕ) → ℕ
lost x y i = if i == 0 then xy_id x y else 0

same_told :
    told 4 0 (digest (bit_xor (lost 0 0 0) 0)) (row_digests 4 0 lost 0 16)
    ≡ told 4 0 (digest (bit_xor (node_word 0 0 0) 0)) (row_digests 4 0 node_word 0 16)
unfolding xy_id node_word
same_told = refl

lost_passes : proc0 4 0 2 lost 0 ≡ proc0 4 0 2 node_word 0
lost_passes =
    proc0_lem 4 0 2 lost 0 (omega arith)
    ∙ ap some same_told
    ∙ sym (proc0_lem 4 0 2 node_word 0 (omega arith))

crc32_lem_example :
    crc32 2 (λ i. i + 1) 33
    ≡ (if 33 == 0 then some 0xffffffff else (if ltb 33 33 then none else some (digest 1)))
crc32_lem_example = crc32_lem 2 33 (λ i. i + 1) (omega arith)

proc0_lem_example :
    proc0 4 0 2 node_word 0
    ≡ some (told 4 0 (digest (bit_xor (node_word 0 0 0) 0)) (row_digests 4 0 node_word 0 16))
proc0_lem_example = proc0_lem 4 0 2 node_word 0 (omega arith)
