-- ===== src/Printf/Print.antt =====
-- `bsg_printf`: a buffer of 256 characters is formatted, then sent under the output's mutex.
use no_cgbp_rtl.Base.{ℕ, ◌+◌, true, false, List, [], ◌∷◌, ◌++◌, ◌==◌, leb, if◌then◌else◌, length}
use no_cgbp_rtl.Printf.Format.{Arg, Result, ok, undefined, ◌>>=◌, ee_vsprintf}

-- What the call does to the rest of the machine: bsg_mutex_lock, a bsg_putchar, bsg_mutex_unlock
pub data Event : Type 0 where
  lock : Event
  send : ℕ → Event
  unlock : Event

-- `while (*p)`: the characters up to the first NUL, and their number
unfoldable pub send_loop : List ℕ → ℕ → List Event × ℕ
send_loop [] n = ([], n)
send_loop (c ∷ p) n = elim (c == 0) [
  | true ↦ ([], n)
  | false ↦ let (events, m) = send_loop p (n + 1) in (send c ∷ events, m)
]

abbrev pub buf_size : ℕ
buf_size = 256

-- A text that does not fit the buffer with its NUL is written past its end.
unfoldable pub bsg_printf : List ℕ → List Arg → Result (List Event × ℕ)
bsg_printf fmt args = ee_vsprintf fmt args >>= (λ buf.
    if leb (length buf + 1) buf_size
    then (let (events, n) = send_loop buf 0 in ok (lock ∷ (events ++ (unlock ∷ [])), n))
    else undefined)
