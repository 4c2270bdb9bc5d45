-- ===== src/Printf/Total.antt =====
-- `ee_vsprintf` and `bsg_printf` as a whole: they end, and what they print.
use no_cgbp_rtl.Base.{
  ℕ, zero, suc, ◌+◌, ◌<◌, ◌≤◌, false, ◌≡◌, ◌≢◌, List, [], ◌∷◌, ◌++◌, ◌==◌, if◌then◌else◌, length,
  Bool-cases, inl, inr, All, leb, ap, arith,
}
use mathlib.Core.List.{map}
use native.Mathlib.Nat.{add-zero, zero-add}
use no_cgbp_rtl.Printf.Format.{Arg, ok, undefined, out_of_fuel, directive, format_loop, ee_vsprintf}
use no_cgbp_rtl.Printf.Print.{lock, send, unlock, send_loop, bsg_printf, buf_size}
use no_cgbp_rtl.Printf.Parsing.{Returns, Returns->>=}
use no_cgbp_rtl.Printf.Directives.{directive-shorter}

-- Nothing is asked of the value.
abbrev Any {ℓ} : {A : Type ℓ} → A → Type 0
Any a = Unit

format_loop-Returns :
    (fuel : ℕ) (fmt : List ℕ) (args : List Arg)
    → length fmt < fuel
    → Returns (format_loop fuel fmt args) Any
unfolding format_loop
format_loop-Returns zero fmt args h = absurd (omega arith)
format_loop-Returns (suc fuel) [] args h = tt
format_loop-Returns (suc fuel) (c ∷ fmt) args h = elim (Bool-cases (c == b'%')) [
  | inl percent ↦
      rw (percent, format_loop)
        (Returns->>= (λ r. length r.1 ≤ length fmt) Any (directive fmt args) _
          (directive-shorter fmt args)
          (λ r shorter.
            Returns->>= Any Any (format_loop fuel r.1 r.0.1) _
              (format_loop-Returns fuel r.1 r.0.1 (omega arith)) (λ out k. tt)))
  | inr plain ↦
      rw (plain, format_loop)
        (Returns->>= Any Any (format_loop fuel fmt args) _
          (format_loop-Returns fuel fmt args (omega arith)) (λ out k. tt))
]

-- On every format and every list of arguments the loop ends within its fuel.
pub ee_vsprintf-ends : (fmt : List ℕ) (args : List Arg) → ee_vsprintf fmt args ≢ out_of_fuel
unfolding ee_vsprintf
ee_vsprintf-ends fmt args e =
    rw e at (format_loop-Returns (suc (length fmt)) fmt args (omega arith))

-- What the output loop sends, for a text without NUL
send_loop_lem :
    (s : List ℕ) (n : ℕ)
    → All (λ c. (c == 0) ≡ false) s
    → send_loop s n ≡ (map send s, n + length s)
unfolding send_loop
send_loop_lem [] n h = rw add-zero
send_loop_lem (c ∷ s) n h =
    rw (h.0, send_loop)
      (rw (send_loop_lem s (n + 1) h.1) (ap (λ k. (send c ∷ map send s, k)) (omega arith)))

-- Where the formatted text has no NUL: if it fits the buffer with its final NUL, `bsg_printf` takes
-- the lock, sends the text's characters in order, releases the lock and returns their number; if it
-- does not fit, the buffer is overrun.
pub bsg_printf_lem :
    (fmt : List ℕ) (args : List Arg) (s : List ℕ)
    → ee_vsprintf fmt args ≡ ok s
    → All (λ c. (c == 0) ≡ false) s
    → bsg_printf fmt args ≡ (
        if leb (length s + 1) buf_size
        then ok (lock ∷ (map send s ++ (unlock ∷ [])), length s)
        else undefined)
unfolding bsg_printf
bsg_printf_lem fmt args s e h = rw (e, send_loop_lem s 0 h, zero-add)
