-- ===== src/TokenQueue/Flight.antt =====
-- Stores on their way from one tile to the other: counts that grow, as words.
use no_cgbp_rtl.Base.{ℕ, ◌+◌, ◌%◌, ◌^◌, ◌≤◌, ◌≡◌, refl, List, [], ◌∷◌, ◌++◌, arith}
use no_cgbp_rtl.TokenQueue.Confirm.{word}

-- Words on their way from one that shows `low` to one that shows `high`: those of counts that grow.
pub data Flight : (low high : ℕ) → List ℕ → Type 0 where
  none_left : (n : ℕ) → Flight n n []
  on_way :
      (low next high : ℕ) (words : List ℕ)
      → low ≤ next
      → Flight next high words
      → Flight low high (word next ∷ words)

pub Flight-le : {low high : ℕ} {words : List ℕ} → Flight low high words → low ≤ high
Flight-le (none_left n) = omega arith
Flight-le (on_way low next high words le f) = omega (arith, Flight-le f)

-- One more word stored
Flight-store :
    {low high : ℕ} {words : List ℕ} (depth : ℕ)
    → Flight low high words
    → Flight low (high + depth) (words ++ (word (high + depth) ∷ []))
Flight-store depth (none_left n) =
    on_way n (n + depth) (n + depth) [] (omega arith) (none_left (n + depth))
Flight-store depth (on_way low next high words le f) =
    on_way low next (high + depth) _ le (Flight-store depth f)

-- One direction: a count of `n` with its word at its own tile, of which the other tile has seen `seen`
pub record Way (n seen own other : ℕ) (words : List ℕ) : Type 0 where
  pub own_eq : own ≡ word n
  pub other_eq : other ≡ word seen
  pub flight : Flight seen n words

pub Way-store :
    {n seen own other : ℕ} {words : List ℕ} (depth : ℕ)
    → Way n seen own other words
    → Way (n + depth) seen ((own + depth) % 2 ^ 32) other (words ++ ((own + depth) % 2 ^ 32 ∷ []))
Way-store {n} {seen} {own} {other} {words} depth w =
    let stored : (own + depth) % 2 ^ 32 ≡ word (n + depth) = omega (arith, w.own_eq) in
    record {
      own_eq = stored;
      other_eq = w.other_eq;
      flight = rw stored (Flight-store depth w.flight);
    }

Flight-arrive :
    {low high first : ℕ} {words : List ℕ}
    → Flight low high (first ∷ words)
    → (next : ℕ) × (low ≤ next) × (next ≤ high) × (first ≡ word next) × Flight next high words
Flight-arrive (on_way low next high rest le f) = (next, le, Flight-le f, refl, f)

pub Way-arrive :
    {n seen own other first : ℕ} {words : List ℕ}
    → Way n seen own other (first ∷ words)
    → (next : ℕ) × (seen ≤ next) × (next ≤ n) × Way n next own first words
Way-arrive w =
    let (next, le, le', e, f) = Flight-arrive w.flight in
    (next, le, le', record { own_eq = w.own_eq; other_eq = e; flight = f })
