-- ===== src/HwBarrier/Word.antt =====
-- The fields of a configuration word.
use no_cgbp_rtl.Base.{ℕ, ◌+◌, ◌*◌, Bool, ◌≡◌, if◌then◌else◌, arith}
use no_cgbp_rtl.HwBarrier.{Dir, west, code, encode}

abbrev pub bit : Bool → ℕ
bit b = if b then 1 else 0

-- Each field of the word stands at its place: the direction's code from bit 16 on, and the input
-- mask below, with P always on.
pub encode-sum :
    (d : Dir) (in_w in_rw in_e in_re in_n in_s : Bool)
    → encode d in_w in_rw in_e in_re in_n in_s
      ≡ code d * 65536
        + bit in_re * 64
        + bit in_rw * 32
        + bit in_s * 16
        + bit in_n * 8
        + bit in_e * 4
        + bit in_w * 2
        + 1
unfolding encode
encode-sum west in_w in_rw in_e in_re in_n in_s = ground arith
encode-sum _ in_w in_rw in_e in_re in_n in_s = ground arith
