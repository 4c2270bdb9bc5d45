-- ===== src/Mutex/Exclusion.antt =====
-- What every interleaving keeps: at most one tile between the swap and the unlock, the word telling
-- whether there is one, and the value counting the calls.
use no_cgbp_rtl.Base.{
  ℕ, ◌+◌, ◌%◌, ◌^◌, ◌<◌, ◌≡◌, ◌≢◌, refl, sym, ◌∙◌, List, [], ◌∷◌, ◌⊎◌, inl, inr, Bool, true, false,
  arith,
}
use mathlib.Core.Bool.{true≢false}
use native.Mathlib.Decide.{ℕ_discrete}
use no_cgbp_rtl.Mutex.{
  Shared, Pc, outside, trying, locked, loaded, added, stored, try_lock, unlock, move, System,
  update, returned, turn, run, init,
}

-- Between the swap and the unlock
abbrev pub inside : Pc → Bool
inside outside = false
inside trying = false
inside locked = true
inside (loaded v) = true
inside (added v) = true
inside stored = true

-- What the owner knows of the value when it has counted to `n`.
abbrev View : ℕ → Shared → Pc → Type 0
View n m outside = true ≡ false
View n m trying = true ≡ false
View n m locked = m.value ≡ n % 2 ^ 32
View n m (loaded v) = (m.value ≡ n % 2 ^ 32) × (v ≡ n % 2 ^ 32)
View n m (added v) = (m.value ≡ n % 2 ^ 32) × (v ≡ (n + 1) % 2 ^ 32)
View n m stored = m.value ≡ (n + 1) % 2 ^ 32

move_free :
    (n : ℕ) (m : Shared) (p : Pc)
    → m.mutex ≡ 0
    → m.value ≡ n % 2 ^ 32
    → inside p ≡ false
    → (returned p ≡ 0)
      × (((move m p).0.mutex ≡ 0)
            × ((move m p).0.value ≡ n % 2 ^ 32)
            × (inside (move m p).1 ≡ false)
          ⊎ ((move m p).0.mutex ≡ 1) × View n (move m p).0 (move m p).1)
unfolding move try_lock
move_free n m outside free v out = (refl, inl (free, v, refl))
move_free n m trying free v out = (refl, inr (refl, rw (free) v))
move_free n m locked free v out = absurd (true≢false out)
move_free n m (loaded w) free v out = absurd (true≢false out)
move_free n m (added w) free v out = absurd (true≢false out)
move_free n m stored free v out = absurd (true≢false out)

move_other :
    (m : Shared) (p : Pc)
    → m.mutex ≡ 1
    → inside p ≡ false
    → ((move m p).0.mutex ≡ 1)
      × ((move m p).0.value ≡ m.value)
      × (inside (move m p).1 ≡ false)
      × (returned p ≡ 0)
unfolding move try_lock
move_other m outside held out = (held, refl, refl, refl)
move_other m trying held out = (refl, refl, rw (held) refl, refl)
move_other m locked held out = absurd (true≢false out)
move_other m (loaded w) held out = absurd (true≢false out)
move_other m (added w) held out = absurd (true≢false out)
move_other m stored held out = absurd (true≢false out)

move_owner :
    (n : ℕ) (m : Shared) (p : Pc)
    → m.mutex ≡ 1
    → View n m p
    → (returned p ≡ 0) × ((move m p).0.mutex ≡ 1) × View n (move m p).0 (move m p).1
      ⊎ (returned p ≡ 1)
        × ((move m p).0.mutex ≡ 0)
        × ((move m p).0.value ≡ (n + 1) % 2 ^ 32)
        × (inside (move m p).1 ≡ false)
unfolding move unlock
move_owner n m outside held v = absurd (true≢false v)
move_owner n m trying held v = absurd (true≢false v)
move_owner n m locked held v = inl (refl, held, (v, v))
move_owner n m (loaded w) held (v, w_eq) = inl (refl, held, (v, omega arith))
move_owner n m (added w) held (v, w_eq) = inl (refl, held, w_eq)
move_owner n m stored held v = inr (refl, refl, v, refl)

-- The invariant: the lock is free and no tile inside, or one tile is its owner.
data Inv (v0 : ℕ) (s : System) : Type 0 where
  free :
      s.memory.mutex ≡ 0
      → s.memory.value ≡ (v0 + s.calls) % 2 ^ 32
      → ((j : ℕ) → inside (s.pc j) ≡ false)
      → Inv v0 s
  held :
      (o : ℕ)
      → s.memory.mutex ≡ 1
      → View (v0 + s.calls) s.memory (s.pc o)
      → ((j : ℕ) → o ≢ j → inside (s.pc j) ≡ false)
      → Inv v0 s

pub update_self : (f : ℕ → Pc) (i : ℕ) (p : Pc) → update f i p i ≡ p
update_self f i p = ground arith

update_ne : (f : ℕ → Pc) (i j : ℕ) (p : Pc) → i ≢ j → update f i p j ≡ f j
update_ne f i j p ne = ground arith

update-outside :
    (f : ℕ → Pc) (i j : ℕ) (p : Pc)
    → inside p ≡ false
    → (i ≢ j → inside (f j) ≡ false)
    → inside (update f i p j) ≡ false
update-outside f i j p h out = elim (ℕ_discrete i j) [
  | yes e ↦ rw (sym e, update_self f i p) h
  | no ne ↦ rw (update_ne f i j p ne) (out ne)
]

update-others :
    (f : ℕ → Pc) (i j : ℕ) (p : Pc)
    → ((j : ℕ) → i ≢ j → inside (f j) ≡ false)
    → i ≢ j
    → inside (update f i p j) ≡ false
update-others f i j p out ne = rw (update_ne f i j p ne) (out j ne)

same_count : (v0 c r : ℕ) → r ≡ 0 → v0 + (c + r) ≡ v0 + c
same_count v0 c r h = omega arith

turn_owner :
    (v0 : ℕ) (s : System) (i : ℕ)
    → s.memory.mutex ≡ 1
    → View (v0 + s.calls) s.memory (s.pc i)
    → ((j : ℕ) → i ≢ j → inside (s.pc j) ≡ false)
    → Inv v0 (turn s i)
unfolding turn
turn_owner v0 s i m view out = elim (move_owner (v0 + s.calls) s.memory (s.pc i) m view) [
  | inl (r, kept, w) ↦
      Inv.held i kept
        (rw (same_count v0 s.calls _ r, update_self s.pc i (move s.memory (s.pc i)).1) w)
        (λ j ne. update-others s.pc i j _ out ne)
  | inr (r, cleared, w, gone) ↦
      Inv.free cleared (omega (arith, r, w)) (λ j. update-outside s.pc i j _ gone (out j))
]

View-value : (n : ℕ) (m m' : Shared) (p : Pc) → m'.value ≡ m.value → View n m p → View n m' p
View-value n m m' outside e v = v
View-value n m m' trying e v = v
View-value n m m' locked e v = e ∙ v
View-value n m m' (loaded w) e (v, q) = (e ∙ v, q)
View-value n m m' (added w) e (v, q) = (e ∙ v, q)
View-value n m m' stored e v = e ∙ v

View-inside : (n : ℕ) (m : Shared) (p : Pc) → View n m p → inside p ≡ true
View-inside n m outside v = absurd (true≢false v)
View-inside n m trying v = absurd (true≢false v)
View-inside n m locked v = refl
View-inside n m (loaded w) v = refl
View-inside n m (added w) v = refl
View-inside n m stored v = refl

turn_other :
    (v0 : ℕ) (s : System) (o i : ℕ)
    → s.memory.mutex ≡ 1
    → View (v0 + s.calls) s.memory (s.pc o)
    → ((j : ℕ) → o ≢ j → inside (s.pc j) ≡ false)
    → o ≢ i
    → Inv v0 (turn s i)
unfolding turn
turn_other v0 s o i m view out ne =
    let stay = move_other s.memory (s.pc i) m (out i ne) in
    Inv.held o stay.0
      (rw
        (
          same_count v0 s.calls _ stay.3,
          update_ne s.pc i o (move s.memory (s.pc i)).1 (λ e. ne (sym e)),
        )
        (View-value (v0 + s.calls) s.memory (move s.memory (s.pc i)).0 (s.pc o) stay.1 view))
      (λ j d. update-outside s.pc i j _ stay.2 (λ u. out j d))

turn-Inv : (v0 : ℕ) (s : System) (i : ℕ) → Inv v0 s → Inv v0 (turn s i)
unfolding turn
turn-Inv v0 s i (Inv.free unlocked v out) =
    let swap = move_free (v0 + s.calls) s.memory (s.pc i) unlocked v (out i) in
    elim swap.1 [
      | inl (m, w, p) ↦
          Inv.free m (omega (arith, swap.0, w)) (λ j. update-outside s.pc i j _ p (λ ne. out j))
      | inr (m, w) ↦
          Inv.held i m
            (rw (same_count v0 s.calls _ swap.0, update_self s.pc i (move s.memory (s.pc i)).1) w)
            (λ j ne. update-others s.pc i j _ (λ k d. out k) ne)
    ]
turn-Inv v0 s i (Inv.held o m view out) = elim (ℕ_discrete o i) [
  | yes e ↦ turn_owner v0 s i m (rw (sym e) view) (λ j ne. out j (λ same. ne (sym e ∙ same)))
  | no ne ↦ turn_other v0 s o i m view out ne
]

run-Inv : (v0 : ℕ) (s : System) (order : List ℕ) → Inv v0 s → Inv v0 (run s order)
unfolding run
run-Inv v0 s [] inv = inv
run-Inv v0 s (i ∷ order) inv = run-Inv v0 (turn s i) order (turn-Inv v0 s i inv)

reached : (v0 : ℕ) (order : List ℕ) → v0 < 2 ^ 32 → Inv v0 (run (init v0) order)
reached v0 order h = run-Inv v0 (init v0) order (Inv.free refl (omega arith) (λ j. refl))

-- From the start, with a 32-bit value `v0` and the tiles moving in any order: while a tile is between the
-- swap and the unlock, every other tile is outside.
pub run-exclusive :
    (v0 : ℕ) (order : List ℕ) (i j : ℕ)
    → v0 < 2 ^ 32
    → i ≢ j
    → inside ((run (init v0) order).pc i) ≡ true
    → inside ((run (init v0) order).pc j) ≡ false
run-exclusive v0 order i j h ne p = elim (reached v0 order h) [
  | Inv.free m v out ↦ out j
  | Inv.held o m view out ↦ elim (ℕ_discrete o i) [
    | yes e ↦ out j (λ same. ne (sym e ∙ same))
    | no other ↦ absurd (true≢false (sym p ∙ out i other))
  ]
]

-- From the start, with a 32-bit value `v0` and the tiles moving in any order: whenever the word of
-- the lock is 0, no tile is inside, and the value is `v0` and the number of
-- calls that have returned, mod `2 ^ 32`; and whenever it is not, some tile is inside.
pub run-counts :
    (v0 : ℕ) (order : List ℕ)
    → v0 < 2 ^ 32
    → (((run (init v0) order).memory.mutex ≡ 0)
          × ((j : ℕ) → inside ((run (init v0) order).pc j) ≡ false)
          × ((run (init v0) order).memory.value ≡ (v0 + (run (init v0) order).calls) % 2 ^ 32)
        ⊎ ((run (init v0) order).memory.mutex ≡ 1)
          × ((o : ℕ) × (inside ((run (init v0) order).pc o) ≡ true)))
run-counts v0 order h = elim (reached v0 order h) [
  | Inv.free m v out ↦ inl (m, out, v)
  | Inv.held o m view out ↦
      inr
        (m, (o, View-inside (v0 + (run (init v0) order).calls) (run (init v0) order).memory _ view))
]
