-- ===== src/TileGroup/Bytes.antt =====
-- Loads and stores of several bytes.
use no_cgbp_rtl.Base.{
  ℕ, zero, suc, ◌+◌, ◌*◌, ◌/◌, ◌%◌, ◌^◌, ◌<◌, ◌≤◌, ◌≡◌, ◌≢◌, ◌⊎◌, inl, inr, refl, sym, ap, ◌∙◌,
  arith,
}
use native.Mathlib.Nat.{div-add-mod', pow-suc, one-le-pow}
use no_cgbp_rtl.Base.Digits.{digit_rem}
use no_cgbp_rtl.Base.Loops.{put}
use no_cgbp_rtl.TileGroup.{Memory, store_bytes, load_bytes}

pub put_self : (m : Memory) (p v : ℕ) → put m p v p ≡ v
put_self m p v = ground arith

pub put_ne : (m : Memory) (p v q : ℕ) → p ≢ q → put m p v q ≡ m q
put_ne m p v q h = ground arith

split : (p v : ℕ) → 1 ≤ p → v % 256 + 256 * (v / 256 % p) ≡ v % (256 * p)
split p v h = sym (ap (λ (t : ℕ). t % (256 * p)) whole ∙ digit_rem (256 * p) (v / 256 / p) _ small)
  where
    whole : v ≡ v / 256 / p * (256 * p) + (v % 256 + 256 * (v / 256 % p))
    whole = omega (arith, div-add-mod' (v / 256) p)

    small : v % 256 + 256 * (v / 256 % p) < 256 * p
    small = grind arith

-- What a store leaves alone, and what it stores
pub store_bytes_outside :
    (n p v : ℕ) (m : Memory) (q : ℕ) → (q < p) ⊎ (p + n ≤ q) → store_bytes n p v m q ≡ m q
unfolding store_bytes
store_bytes_outside zero p v m q h = refl
store_bytes_outside (suc n) p v m q (inl h) =
    store_bytes_outside n (p + 1) (v / 256) (put m p (v % 256)) q (inl (omega arith))
    ∙ put_ne m p (v % 256) q (λ e. omega arith)
store_bytes_outside (suc n) p v m q (inr h) =
    store_bytes_outside n (p + 1) (v / 256) (put m p (v % 256)) q (inr (omega arith))
    ∙ put_ne m p (v % 256) q (λ e. omega arith)

pub load_bytes-store_bytes :
    (n p v : ℕ) (m : Memory) → load_bytes n p (store_bytes n p v m) ≡ v % 256 ^ n
unfolding store_bytes load_bytes
load_bytes-store_bytes zero p v m = omega arith
load_bytes-store_bytes (suc n) p v m =
    rw
      (
        store_bytes_outside n (p + 1) (v / 256) (put m p (v % 256)) p (inl (omega arith)),
        put_self m p (v % 256),
        load_bytes-store_bytes n (p + 1) (v / 256) (put m p (v % 256)),
      )
      (split (256 ^ n) v (one-le-pow n 256 (omega arith)) ∙ ap (◌%◌ v) sides)
  where
    sides : 256 * 256 ^ n ≡ 256 ^ suc n
    sides = omega (arith, pow-suc 256 n)

byte_of : (a r : ℕ) → a < 256 → (a + 256 * r) % 256 ≡ a
byte_of a r h = omega arith

rest_of : (a r : ℕ) → a < 256 → (a + 256 * r) / 256 ≡ r
rest_of a r h = omega arith

next : (p i : ℕ) → p + suc i ≡ p + 1 + i
next p i = omega arith

first : (n : ℕ) (m : Memory) (q : ℕ) → ((j : ℕ) → j < suc n → m (q + j) < 256) → m q < 256
first n m q h = rw (sym (same q)) (h 0 (omega arith))
  where
    same : (q : ℕ) → q + 0 ≡ q
    same q = omega arith

-- A stored load has the loaded bytes.
pub store_bytes-load_bytes :
    (n p q i : ℕ) (m k : Memory)
    → ((j : ℕ) → j < n → m (q + j) < 256)
    → i < n
    → store_bytes n p (load_bytes n q m) k (p + i) ≡ m (q + i)
unfolding store_bytes load_bytes
store_bytes-load_bytes zero p q i m k h lt = absurd (omega arith)
store_bytes-load_bytes (suc n) p q zero m k h lt =
    ap (store_bytes n (p + 1) _ _) (omega arith)
    ∙ store_bytes_outside n (p + 1) _ _ p (inl (omega arith))
    ∙ put_self k p _
    ∙ byte_of (m q) (load_bytes n (q + 1) m) (first n m q h)
    ∙ ap m (omega arith)
store_bytes-load_bytes (suc n) p q (suc i) m k h lt =
    ap (λ (v : ℕ). store_bytes n (p + 1) v (put k p (load_bytes (suc n) q m % 256)) (p + suc i))
      (rest_of (m q) (load_bytes n (q + 1) m) (first n m q h))
    ∙ ap (store_bytes n (p + 1) _ (put k p (load_bytes (suc n) q m % 256))) (next p i)
    ∙ store_bytes-load_bytes n (p + 1) (q + 1) i m (put k p (load_bytes (suc n) q m % 256))
        (λ j below. rw (sym (next q j)) (h (suc j) (omega arith))) (omega arith)
    ∙ ap m (sym (next q i))

-- A load that no changed byte meets
pub load_bytes-ext :
    (n p : ℕ) (m k : Memory)
    → ((q : ℕ) → p ≤ q → q < p + n → m q ≡ k q)
    → load_bytes n p m ≡ load_bytes n p k
unfolding load_bytes
load_bytes-ext zero p m k h = refl
load_bytes-ext (suc n) p m k h =
    rw
      (
        h p (omega arith) (omega arith),
        load_bytes-ext n (p + 1) m k (λ q lo hi. h q (omega arith) (omega arith)),
      )
      refl
