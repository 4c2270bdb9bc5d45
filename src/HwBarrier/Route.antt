-- ===== src/HwBarrier/Route.antt =====
-- The tree's routes: from every tile the outputs lead to the root.
use no_cgbp_rtl.Base.{ℕ, zero, suc, ◌+◌, ◌-◌, ◌<◌, ◌≡◌, refl, Option, none, some, arith}
use no_cgbp_rtl.HwBarrier.{out_dir, center}
use no_cgbp_rtl.HwBarrier.Links.{neighbour}

module _ (factor tx ty : ℕ) where
  -- The tile that a tile's output goes to
  abbrev pub next : (x y : ℕ) → Option (ℕ × ℕ)
  next x y = neighbour factor tx ty (out_dir factor tx ty x y) x y

  -- The tile at which the outputs end, followed for fewer than so many links
  pub follow : ℕ → (x y : ℕ) → Option (ℕ × ℕ)
  follow zero x y = none
  follow (suc k) x y = elim (next x y) [ none ↦ some (x, y) | some (x', y') ↦ follow k x' y' ]

  -- How far a tile is from the centre, counted in tiles
  abbrev distance : (x y : ℕ) → ℕ
  distance x y = (x - center tx) + (center tx - x) + (y - center ty) + (center ty - y)

  next-none :
      (x y : ℕ) → 0 < factor → x < tx → y < ty → next x y ≡ none → (x ≡ center tx) × (y ≡ center ty)
  unfolding out_dir
  next-none x y pf hx hy e = ground arith

  next-some :
      (x y x' y' : ℕ)
      → 0 < factor
      → x < tx
      → y < ty
      → next x y ≡ some (x', y')
      → (x' < tx) × (y' < ty) × (distance x' y' < distance x y)
  unfolding out_dir
  next-some x y x' y' pf hx hy e = ground arith

  follow_near :
      (k x y : ℕ)
      → 0 < factor
      → x < tx
      → y < ty
      → distance x y < k
      → follow k x y ≡ some (center tx, center ty)
  unfolding follow
  follow_near zero x y pf hx hy h = absurd (omega arith)
  follow_near (suc k) x y pf hx hy h = go (follow_near k) (next x y) refl
    where
      go :
          ((x' y' : ℕ)
            → 0 < factor
            → x' < tx
            → y' < ty
            → distance x' y' < k
            → follow k x' y' ≡ some (center tx, center ty))
          → (o : Option (ℕ × ℕ)) → next x y ≡ o
          → follow (suc k) x y ≡ some (center tx, center ty)
      go ih none e = let (ex, ey) = next-none x y pf hx hy e in rw (e, follow) (rw (ex, ey))
      go ih (some (x', y')) e =
          let (hx', hy', closer) = next-some x y x' y' pf hx hy e in
          rw (e, follow) (ih x' y' pf hx' hy' (omega arith))

  -- For a positive ruche factor, from every tile of the group the outputs, followed for fewer than `tx + ty` links, end at the
  -- centre tile.
  pub follow-root :
      (x y : ℕ) → 0 < factor → x < tx → y < ty → follow (tx + ty) x y ≡ some (center tx, center ty)
  follow-root x y pf hx hy = follow_near (tx + ty) x y pf hx hy (omega arith)
