-- ===== src/Mutex/Progress.antt =====
-- The lock is never stuck: its owner frees it on its own.
use no_cgbp_rtl.Base.{
  ℕ, zero, suc, ◌<◌, ◌≤◌, ◌^◌, ◌≡◌, refl, List, ◌⊎◌, inl, inr, true, replicate, arith,
}
use mathlib.Core.Bool.{false≢true}
use no_cgbp_rtl.Mutex.{
  Shared, Pc, outside, trying, locked, loaded, added, stored, unlock, move, System, turn, run, init,
}
use no_cgbp_rtl.Mutex.Exclusion.{inside, update_self, run-counts}

-- The turns that a tile has left before it has freed the lock
abbrev left : Pc → ℕ
left outside = 0
left trying = 0
left locked = 4
left (loaded v) = 3
left (added v) = 2
left stored = 1

move_left :
    (m : Shared) (p : Pc)
    → inside p ≡ true
    → ((move m p).0.mutex ≡ 0) ⊎ (inside (move m p).1 ≡ true) × (left (move m p).1 < left p)
unfolding move unlock
move_left m outside h = absurd (false≢true h)
move_left m trying h = absurd (false≢true h)
move_left m locked h = inr (refl, omega arith)
move_left m (loaded v) h = inr (refl, omega arith)
move_left m (added v) h = inr (refl, omega arith)
move_left m stored h = inl refl

owner_frees :
    (n : ℕ) (s : System) (o : ℕ)
    → inside (s.pc o) ≡ true
    → left (s.pc o) ≤ n
    → (k : ℕ) × (k ≤ n) × ((run s (replicate k o)).memory.mutex ≡ 0)
unfolding run turn
owner_frees zero s o h few = absurd (some_left (s.pc o) h few)
  where
    some_left : (p : Pc) → inside p ≡ true → left p ≤ 0 → ⊥
    some_left outside h few = false≢true h
    some_left trying h few = false≢true h
    some_left locked h few = omega arith
    some_left (loaded v) h few = omega arith
    some_left (added v) h few = omega arith
    some_left stored h few = omega arith
owner_frees (suc n) s o h few = elim (move_left s.memory (s.pc o) h) [
  | inl cleared ↦ (1, omega arith, cleared)
  | inr (still, fewer) ↦
      let same = update_self s.pc o (move s.memory (s.pc o)).1 in
      let (k, bound, freed) = owner_frees n (turn s o) o (rw same still) (rw same (omega arith)) in
      (suc k, omega arith, freed)
]

left_at_most : (p : Pc) → left p ≤ 4
left_at_most outside = omega arith
left_at_most trying = omega arith
left_at_most locked = omega arith
left_at_most (loaded v) = omega arith
left_at_most (added v) = omega arith
left_at_most stored = omega arith

-- From every state that an interleaving reaches, at most four turns of one tile, with no other tile
-- moving, bring the word of the lock to 0.
pub run-can_unlock :
    (v0 : ℕ) (order : List ℕ)
    → v0 < 2 ^ 32
    → (o k : ℕ) × (k ≤ 4) × ((run (run (init v0) order) (replicate k o)).memory.mutex ≡ 0)
unfolding run
run-can_unlock v0 order h = elim (run-counts v0 order h) [
  | inl (unlocked, out, counted) ↦ (0, 0, omega arith, unlocked)
  | inr (held, (o, within)) ↦
      let (k, few, freed) = owner_frees 4 (run (init v0) order) o within (left_at_most _) in
      (o, k, few, freed)
]
