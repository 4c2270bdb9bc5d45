-- ===== src/Histogram/Steps.antt =====
-- What one step does to the lock, to the histogram, and to what a tile knows.
use no_cgbp_rtl.Base.{
  ℕ, ◌+◌, ◌%◌, ◌^◌, ◌<◌, ◌≤◌, ◌≡◌, inl, inr, refl, sym, ap, ◌∙◌, ltb, ◌==◌, Bool-cases, ltb→lt,
  lt→ltb, arith,
}
use native.Mathlib.Decide.{ℕ_discrete}
use no_cgbp_rtl.Histogram.{
  Memory, Place, counting, trying, merging, adding, waiting, undefined, work, start_idx, step,
}
use no_cgbp_rtl.Histogram.Shares.{count, tally, merged, inside}

module _ (values : ℕ → ℕ) (tiles : ℕ) where
  -- The lock's word is what the owner's place says.
  pub step-lock :
      (t : ℕ) (m : Memory) (p : Place)
      → m.lock ≤ 1
      → inside p ≤ m.lock
      → ((step values tiles t m p).0.lock ≤ 1)
        × ((step values tiles t m p).0.lock + inside p
            ≡ m.lock + inside (step values tiles t m p).1)
  unfolding step
  step-lock t m (counting i local) h k = ground arith
  step-lock t m (trying local) h k = ground arith
  step-lock t m (merging i local) h k = ground arith
  step-lock t m (adding i v local) h k = ground arith
  step-lock t m waiting h k = ground arith
  step-lock t m undefined h k = ground arith

  -- What a tile that stands at a place knows
  abbrev pub Known : (t : ℕ) → Memory → Place → Type 0
  Known t m (counting i local) =
      (i ≤ work values tiles)
      × ((j : ℕ) → local j ≡ count values (start_idx values tiles t) i j % 2 ^ 32)
  Known t m (trying local) = (j : ℕ) → local j ≡ tally values tiles t j % 2 ^ 32
  Known t m (merging i local) = (i ≤ 32) × ((j : ℕ) → local j ≡ tally values tiles t j % 2 ^ 32)
  Known t m (adding i v local) =
      (i < 32) × (v ≡ m.histogram i) × ((j : ℕ) → local j ≡ tally values tiles t j % 2 ^ 32)
  Known t m waiting = Unit
  Known t m undefined = ⊥

  -- A step moves what a tile has brought.
  pub step-histogram :
      (t : ℕ) (m : Memory) (p : Place) (j : ℕ)
      → Known t m p
      → j < 32
      → m.histogram j < 2 ^ 32
      → ((step values tiles t m p).0.histogram j < 2 ^ 32)
        × (((step values tiles t m p).0.histogram j + merged values tiles t j p) % 2 ^ 32
            ≡ (m.histogram j + merged values tiles t j (step values tiles t m p).1) % 2 ^ 32)
  unfolding step
  step-histogram t m (counting i local) j known lt h = ground arith
  step-histogram t m (trying local) j known lt h = ground arith
  step-histogram t m (merging i local) j known lt h = elim (ℕ_discrete i j) [
    | yes e ↦ rw (sym e) (ground (arith, known.1 i))
    | no ne ↦ ground arith
  ]
  step-histogram t m (adding i v local) j known lt h = elim (ℕ_discrete i j) [
    | yes e ↦ rw (sym e) (ground (arith, known.1, known.2 i))
    | no ne ↦ ground arith
  ]
  step-histogram t m waiting j known lt h = (h, refl)
  step-histogram t m undefined j known lt h = absurd known

  pub histogram-outside :
      (t : ℕ) (m : Memory) (p : Place) (j : ℕ)
      → inside p ≡ 0
      → (step values tiles t m p).0.histogram j ≡ m.histogram j
  unfolding step
  histogram-outside t m (counting i local) j out = refl
  histogram-outside t m (trying local) j out = refl
  histogram-outside t m (merging i local) j out = absurd (omega arith)
  histogram-outside t m (adding i v local) j out = absurd (omega arith)
  histogram-outside t m waiting j out = refl
  histogram-outside t m undefined j out = refl

  -- A tile keeps what it knows while another moves outside or it is outside itself.
  pub Known-keep :
      (t : ℕ) (m m' : Memory) (p : Place)
      → (inside p ≡ 1 → (j : ℕ) → m'.histogram j ≡ m.histogram j)
      → Known t m p
      → Known t m' p
  Known-keep t m m' (counting i local) same known = known
  Known-keep t m m' (trying local) same known = known
  Known-keep t m m' (merging i local) same known = known
  Known-keep t m m' (adding i v local) same (lt, e, known) = (lt, e ∙ sym (same refl i), known)
  Known-keep t m m' waiting same known = known
  Known-keep t m m' undefined same known = known

  pub step-Known :
      (t : ℕ) (m : Memory) (p : Place)
      → ((i : ℕ) → i < work values tiles → values (start_idx values tiles t + i) < 32)
      → Known t m p
      → Known t (step values tiles t m p).0 (step values tiles t m p).1
  unfolding step count
  step-Known t m (counting i local) small (le, known) =
      let v = values (start_idx values tiles t + i) in
      elim (Bool-cases (ltb i (work values tiles))) [
        | inl e ↦
            let lt = ltb→lt i (work values tiles) e in
            rw (e, lt→ltb v 32 (small i lt))
              (
                omega arith,
                λ j. elim (ℕ_discrete v j) [
                  | yes same ↦ rw (sym same) (ground (arith, known v))
                  | no ne ↦ ground (arith, known j)
                ],
              )
        | inr e ↦ rw e (λ j.
            known j
            ∙ ap (λ (k : ℕ). count values (start_idx values tiles t) k j % 2 ^ 32) (ground arith))
      ]
  step-Known t m (trying local) small known = elim (Bool-cases (m.lock == 0)) [
    | inl e ↦ rw e (omega arith, known)
    | inr e ↦ rw e known
  ]
  step-Known t m (merging i local) small (le, known) = elim (Bool-cases (ltb i 32)) [
    | inl e ↦ elim (Bool-cases (local i == 0)) [
      | inl z ↦ rw (e, z) (ground arith, known)
      | inr z ↦ rw (e, z) (ltb→lt i 32 e, refl, known)
    ]
    | inr e ↦ rw e tt
  ]
  step-Known t m (adding i v local) small (lt, e, known) = (omega arith, known)
  step-Known t m waiting small known = known
  step-Known t m undefined small known = known
