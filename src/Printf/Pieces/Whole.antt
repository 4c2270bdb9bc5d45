-- ===== src/Printf/Pieces/Whole.antt =====
-- What `ee_vsprintf` writes for a whole format of them.
use no_cgbp_rtl.Base.{ℕ, ◌<◌, ◌≡◌, List, length}
use no_cgbp_rtl.Printf.Format.{Arg, ok, format_loop}

-- The loop writes `out` on any fuel that is enough.
abbrev Writes : (fmt : List ℕ) → List Arg → (out : List ℕ) → Type 0
Writes fmt args out = (fuel : ℕ) → length fmt < fuel → format_loop fuel fmt args ≡ ok out
