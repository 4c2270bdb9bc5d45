-- ===== src/Histogram/Shares.antt =====
-- How often a value stands in a stretch of the data, and what of it a tile has brought to the histogram.
use no_cgbp_rtl.Base.{ℕ, zero, suc, ◌+◌, ◌*◌, ◌≤◌, ◌≡◌, refl, ap, ltb, ◌==◌, if◌then◌else◌, arith}
use no_cgbp_rtl.Base.Sums.{sum}
use no_cgbp_rtl.Histogram.{
  Place, counting, trying, merging, adding, waiting, undefined, work, start_idx,
}

-- The number of `i` below `k` for which `values (start + i)` is `j`
unfoldable pub count : (values : ℕ → ℕ) (start k j : ℕ) → ℕ
count values start zero j = 0
count values start (suc k) j =
    let rest = count values start k j in if values (start + k) == j then rest + 1 else rest

pub count_le : (values : ℕ → ℕ) (start k j : ℕ) → count values start k j ≤ k
unfolding count
count_le values start zero j = omega arith
count_le values start (suc k) j = ground (arith, count_le values start k j)

-- A stretch in two parts
pub count-add :
    (values : ℕ → ℕ) (start k l j : ℕ)
    → count values start (k + l) j ≡ count values start k j + count values (start + k) l j
unfolding count
count-add values start k zero j = rw (nothing k) (omega arith)
  where
    nothing : (k : ℕ) → k + 0 ≡ k
    nothing k = omega arith
count-add values start k (suc l) j =
    rw (plus k l, add_assoc start k l) (ground (arith, count-add values start k l j))
  where
    plus : (k l : ℕ) → k + suc l ≡ suc (k + l)
    plus k l = omega arith

    add_assoc : (a b c : ℕ) → a + (b + c) ≡ (a + b) + c
    add_assoc a b c = omega arith

-- The stretches of the tiles together
pub sum-count :
    (values : ℕ → ℕ) (tiles share j : ℕ)
    → sum tiles (λ t. count values (t * share) share j) ≡ count values 0 (tiles * share) j
unfolding count
sum-count values zero share j = rw (nothing share) refl
  where
    nothing : (share : ℕ) → 0 * share ≡ 0
    nothing share = omega arith
sum-count values (suc t) share j =
    rw (product t share, count-add values 0 (t * share) share j, sum-count values t share j)
      (ap (λ (b : ℕ). count values 0 (t * share) j + count values b share j) (omega arith))
  where
    product : (t share : ℕ) → suc t * share ≡ t * share + share
    product t share = omega arith

module _ (values : ℕ → ℕ) (tiles : ℕ) where
  abbrev pub tally : (t j : ℕ) → ℕ
  tally t j = count values (start_idx values tiles t) (work values tiles) j

  -- What tile `t` has brought to bin `j` by where it stands
  abbrev pub merged : (t j : ℕ) → Place → ℕ
  merged t j (counting i local) = 0
  merged t j (trying local) = 0
  merged t j (merging i local) = if ltb j i then tally t j else 0
  merged t j (adding i v local) = if ltb j i then tally t j else 0
  merged t j waiting = tally t j
  merged t j undefined = 0

-- Between the swap that gets the lock and the one that gives it back
abbrev pub inside : Place → ℕ
inside (counting i local) = 0
inside (trying local) = 0
inside (merging i local) = 1
inside (adding i v local) = 1
inside waiting = 0
inside undefined = 0
