-- ===== src/Mutex/Wait.antt =====
-- bsg_wait_local_int of software/bsg_manycore_lib/bsg_mutex.h: what `bsg_lr` and `bsg_lr_aq` return, in
-- turn, is an argument; `none` when the loop goes on after it.
use no_cgbp_rtl.Base.{
  ℕ, ◌≡◌, refl, Bool, false, Bool-cases, inl, inr, ◌||◌, Option, none, some, List, [], ◌∷◌, ◌==◌,
  ==_iff, if◌then◌else◌, ap,
}

unfoldable pub wait_local_int : (cond : ℕ) → List ℕ → Option ℕ
wait_local_int cond [] = none
wait_local_int cond (tmp ∷ []) = if tmp == cond then some tmp else none
wait_local_int cond (tmp ∷ tmp_aq ∷ readings) =
    let again = wait_local_int cond readings in
    if tmp == cond then some tmp else (if tmp_aq == cond then some tmp_aq else again)

-- Whether some reading is `cond`
abbrev pub seen : (cond : ℕ) → List ℕ → Bool
seen cond [] = false
seen cond (tmp ∷ readings) = tmp == cond || seen cond readings

-- The loop returns once one of the readings, of either load, is `cond`, and then returns `cond`.
pub wait_local_int_lem :
    (cond : ℕ) (readings : List ℕ)
    → wait_local_int cond readings ≡ (if seen cond readings then some cond else none)
unfolding wait_local_int
wait_local_int_lem cond [] = refl
wait_local_int_lem cond (tmp ∷ []) = elim (Bool-cases (tmp == cond)) [
  | inl e ↦ rw (e, (==_iff tmp cond).0 e) refl
  | inr e ↦ rw e refl
]
wait_local_int_lem cond (tmp ∷ tmp_aq ∷ readings) = elim (Bool-cases (tmp == cond)) [
  | inl e ↦ rw e (ap some ((==_iff tmp cond).0 e))
  | inr e ↦ elim (Bool-cases (tmp_aq == cond)) [
    | inl f ↦ rw (e, f) (ap some ((==_iff tmp_aq cond).0 f))
    | inr f ↦ rw (e, f) (wait_local_int_lem cond readings)
  ]
]
