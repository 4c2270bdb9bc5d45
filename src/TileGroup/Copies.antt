-- ===== src/TileGroup/Copies.antt =====
-- The loops of the copies and of the fill.
use no_cgbp_rtl.Base.{
  ℕ, zero, suc, ◌+◌, ◌-◌, ◌*◌, ◌/◌, ◌%◌, ◌^◌, ◌<◌, ◌≤◌, ◌≡◌, ◌≢◌, ◌⊎◌, inl, inr, refl, sym, ap, ◌∙◌,
  none, false, true, some, ◌==◌, ltb, leb, ◌&&◌, if◌then◌else◌, arith,
}
use mathlib.Core.Path.{subst}
use native.Mathlib.Decide.{dec_lt}
use no_cgbp_rtl.Base.Loops.{put}
use no_cgbp_rtl.TileGroup.{
  Memory, Build, store_bytes, load_bytes, less_word, copy_loop, set_loop, get_ptr_val,
  extern_load_memcpy, extern_store_memcpy, extern_memset,
}
use no_cgbp_rtl.TileGroup.Bytes.{store_bytes_outside, store_bytes-load_bytes}

lt-cases : (i n : ℕ) → (i < n) ⊎ (n ≤ i)
lt-cases i n = elim (dec_lt i n) [ yes h ↦ inl h | no h ↦ inr (omega arith) ]

less_word_lem : (len : ℕ) → 4 ≤ len → len < 2 ^ 32 → less_word len ≡ len - 4
less_word_lem len h k = omega arith

-- `len` keeps its remainder by four, also when it wraps around.
less_word-rem : (len : ℕ) → less_word len % 4 ≡ len % 4
less_word-rem len = omega arith

copy_loop-diverges :
    (fuel dest src len : ℕ) (m : Memory) → len % 4 ≢ 0 → copy_loop fuel dest src len m ≡ none
unfolding copy_loop
copy_loop-diverges zero dest src len m h = refl
copy_loop-diverges (suc fuel) dest src len m h =
    rw
      (
        nonzero,
        copy_loop-diverges fuel (dest + 4) (src + 4) (less_word len)
            (store_bytes 4 dest (load_bytes 4 src m) m) (λ e. h (sym (less_word-rem len) ∙ e)),
      )
      refl
  where
    nonzero : (len == 0) ≡ false
    nonzero = ground arith

set_loop-diverges :
    (fuel dest val len : ℕ) (m : Memory) → len % 4 ≢ 0 → set_loop fuel dest val len m ≡ none
unfolding set_loop
set_loop-diverges zero dest val len m h = refl
set_loop-diverges (suc fuel) dest val len m h =
    rw
      (
        nonzero,
        set_loop-diverges fuel (dest + 1) val (less_word len) (put m dest (val % 256))
            (λ e. h (sym (less_word-rem len) ∙ e)),
      )
      refl
  where
    nonzero : (len == 0) ≡ false
    nonzero = ground arith

module _ (b : Build) (fuel dest src val len : ℕ) (m : Memory) where
  -- With a length that is no multiple of four, however long they run, none of the two copies and
  -- the fill ever returns: `len` steps over 0.
  pub extern-diverges :
      len % 4 ≢ 0
      → (extern_load_memcpy b fuel dest src len m ≡ none)
        × (extern_store_memcpy b fuel dest src len m ≡ none)
        × (extern_memset b fuel dest val len m ≡ none)
  unfolding extern_load_memcpy extern_store_memcpy extern_memset
  extern-diverges h = (
    copy_loop-diverges fuel dest (get_ptr_val b src len 0) len m h,
    copy_loop-diverges fuel (get_ptr_val b dest len 0) src len m h,
    set_loop-diverges fuel (get_ptr_val b dest len 0) val len m h,
  )

-- `k` has at `dest` the `n` bytes that `m` has at `src`, and is `m` elsewhere.
pub record Copied (n dest src : ℕ) (m k : Memory) : Type 0 where
  pub inside : (i : ℕ) → i < n → k (dest + i) ≡ m (src + i)
  pub outside : (q : ℕ) → (q < dest) ⊎ (dest + n ≤ q) → k q ≡ m q

abbrev pub Disjoint : (n dest src : ℕ) → Type 0
Disjoint n dest src = (dest + n ≤ src) ⊎ (src + n ≤ dest)

abbrev pub IsBytes : (n src : ℕ) → Memory → Type 0
IsBytes n src m = (i : ℕ) → i < n → m (src + i) < 256

apart :
    (n dest src v i : ℕ) (m : Memory)
    → Disjoint (n + 4) dest src
    → i < n
    → store_bytes 4 dest v m (src + 4 + i) ≡ m (src + 4 + i)
apart n dest src v i m (inl h) lt = store_bytes_outside 4 dest v m (src + 4 + i) (inr (omega arith))
apart n dest src v i m (inr h) lt = store_bytes_outside 4 dest v m (src + 4 + i) (inl (omega arith))

shifted : (n dest src : ℕ) → Disjoint (n + 4) dest src → Disjoint n (dest + 4) (src + 4)
shifted n dest src (inl h) = inl (omega arith)
shifted n dest src (inr h) = inr (omega arith)

-- One word and then the others
Copied-word :
    (n dest src : ℕ) (m k : Memory)
    → Disjoint (n + 4) dest src
    → IsBytes (n + 4) src m
    → Copied n (dest + 4) (src + 4) (store_bytes 4 dest (load_bytes 4 src m) m) k
    → Copied (n + 4) dest src m k
Copied-word n dest src m k far bytes c = record {
  inside = λ i lt. elim (lt-cases i 4) [
    | inl below ↦
        c.outside (dest + i) (inl (omega arith))
        ∙ store_bytes-load_bytes 4 dest src i m m (λ j small. bytes j (omega arith)) below
    | inr above ↦
        ap k (skip dest i above)
        ∙ c.inside (i - 4) (omega arith)
        ∙ apart n dest src _ (i - 4) m far (omega arith)
        ∙ ap m (sym (skip src i above))
  ];
  outside = λ q h. c.outside q (wider q h) ∙ store_bytes_outside 4 dest _ m q (word q h);
}
  where
    skip : (p i : ℕ) → 4 ≤ i → p + i ≡ p + 4 + (i - 4)
    skip p i h = omega arith

    wider : (q : ℕ) → (q < dest) ⊎ (dest + (n + 4) ≤ q) → (q < dest + 4) ⊎ (dest + 4 + n ≤ q)
    wider q (inl h) = inl (omega arith)
    wider q (inr h) = inr (omega arith)

    word : (q : ℕ) → (q < dest) ⊎ (dest + (n + 4) ≤ q) → (q < dest) ⊎ (dest + 4 ≤ q)
    word q (inl h) = inl (omega arith)
    word q (inr h) = inr (omega arith)

-- The bytes of `c` words
abbrev bytes : ℕ → ℕ
bytes zero = 0
bytes (suc c) = bytes c + 4

bytes-quarter : (c len : ℕ) → len ≡ c * 4 → bytes c ≡ len
bytes-quarter zero len e = omega arith
bytes-quarter (suc c) len e = omega (arith, bytes-quarter c (len - 4) (omega arith))

copy_words :
    (c fuel dest src len : ℕ) (m : Memory)
    → len ≡ c * 4
    → c < fuel
    → len < 2 ^ 32
    → Disjoint (bytes c) dest src
    → IsBytes (bytes c) src m
    → (k : Memory) × (copy_loop fuel dest src len m ≡ some k) × Copied (bytes c) dest src m k
unfolding copy_loop
copy_words c zero dest src len m e enough fits far small = absurd (omega arith)
copy_words zero (suc fuel) dest src len m e enough fits far small =
    (m, rw stop refl, record { inside = λ i lt. absurd (omega arith); outside = λ q h. refl })
  where
    stop : (len == 0) ≡ true
    stop = ground arith
copy_words (suc c) (suc fuel) dest src len m e enough fits far small =
    let m' : Memory = store_bytes 4 dest (load_bytes 4 src m) m in
    let (k, runs, copied) =
      copy_words c fuel (dest + 4) (src + 4) (len - 4) m' (omega arith) (omega arith) (omega arith)
        (shifted (bytes c) dest src far)
        (λ i lt.
          rw (apart (bytes c) dest src _ i m far lt, step src i) (small (4 + i) (omega arith))) in
    (
      k,
      rw (go, less_word_lem len (omega arith) fits) runs,
      Copied-word (bytes c) dest src m k far small copied,
    )
  where
    go : (len == 0) ≡ false
    go = ground arith

    step : (p i : ℕ) → p + 4 + i ≡ p + (4 + i)
    step p i = omega arith

copy_loop_lem :
    (fuel dest src len : ℕ) (m : Memory)
    → len % 4 ≡ 0
    → len / 4 < fuel
    → len < 2 ^ 32
    → Disjoint len dest src
    → IsBytes len src m
    → (k : Memory) × (copy_loop fuel dest src len m ≡ some k) × Copied len dest src m k
copy_loop_lem fuel dest src len m whole enough fits far small =
    let same : bytes (len / 4) ≡ len = bytes-quarter (len / 4) len (omega arith) in
    let (k, runs, copied) =
      copy_words (len / 4) fuel dest src len m (omega arith) enough fits
        (subst (λ (n : ℕ). Disjoint n dest src) (sym same) far)
        (subst (λ (n : ℕ). IsBytes n src m) (sym same) small) in
    (k, runs, subst (λ (n : ℕ). Copied n dest src m k) same copied)

module _ (b : Build) (fuel dest src len : ℕ) (m : Memory) where
  abbrev pub LoadCopies : Type 0
  LoadCopies =
      (k : Memory) × (extern_load_memcpy b fuel dest src len m ≡ some k)
      × Copied len dest (get_ptr_val b src len 0) m k

  abbrev pub StoreCopies : Type 0
  StoreCopies =
      (k : Memory) × (extern_store_memcpy b fuel dest src len m ≡ some k)
      × Copied len (get_ptr_val b dest len 0) src m k

  -- On a length below 2^32 that is a multiple of four, with fuel for a round per word and the last
  -- test, the source's bytes below 256 and the two places disjoint: the loading copy returns, has put
  -- the bytes from get_ptr_val's pointer on at `dest`, and has changed no other byte.
  pub extern_load_memcpy_lem :
      len % 4 ≡ 0
      → len / 4 < fuel
      → len < 2 ^ 32
      → Disjoint len dest (get_ptr_val b src len 0)
      → IsBytes len (get_ptr_val b src len 0) m
      → LoadCopies
  unfolding extern_load_memcpy
  extern_load_memcpy_lem = copy_loop_lem fuel dest (get_ptr_val b src len 0) len m

  -- On a length below 2^32 that is a multiple of four, with fuel for a round per word and the last
  -- test, the source's bytes below 256 and the two places disjoint: the storing copy returns, has put
  -- the bytes from `src` on at get_ptr_val's pointer, and has changed no other byte.
  pub extern_store_memcpy_lem :
      len % 4 ≡ 0
      → len / 4 < fuel
      → len < 2 ^ 32
      → Disjoint len (get_ptr_val b dest len 0) src
      → IsBytes len src m
      → StoreCopies
  unfolding extern_store_memcpy
  extern_store_memcpy_lem = copy_loop_lem fuel (get_ptr_val b dest len 0) src len m

-- The fill: `c` rounds
set_loop_lem :
    (c fuel dest val len : ℕ) (m : Memory)
    → len ≡ c * 4
    → c < fuel
    → len < 2 ^ 32
    → (k : Memory) × (set_loop fuel dest val len m ≡ some k)
      × ((q : ℕ) → k q ≡ (if leb dest q && ltb q (dest + c) then val % 256 else m q))
unfolding set_loop
set_loop_lem c zero dest val len m e enough fits = absurd (omega arith)
set_loop_lem zero (suc fuel) dest val len m e enough fits = (m, rw stop refl, λ q. ground arith)
  where
    stop : (len == 0) ≡ true
    stop = ground arith
set_loop_lem (suc c) (suc fuel) dest val len m e enough fits =
    let (k, runs, filled) =
      set_loop_lem c fuel (dest + 1) val (len - 4) (put m dest (val % 256)) (omega arith)
        (omega arith) (omega arith) in
    (k, rw (go, less_word_lem len (omega arith) fits) runs, λ q. filled q ∙ wider q)
  where
    go : (len == 0) ≡ false
    go = ground arith

    wider :
        (q : ℕ)
        → (if leb (dest + 1) q && ltb q (dest + 1 + c) then val % 256 else put m dest (val % 256) q)
          ≡ (if leb dest q && ltb q (dest + suc c) then val % 256 else m q)
    wider q = ground arith

-- On a length below 2^32 that is a multiple of four, with fuel for a round per four bytes and the
-- last test, the fill returns and has set the first quarter of the bytes, `len / 4` of them, and
-- no other byte.
pub extern_memset-quarter :
    (b : Build) (fuel dest val len : ℕ) (m : Memory)
    → len % 4 ≡ 0
    → len / 4 < fuel
    → len < 2 ^ 32
    → (k : Memory) × (extern_memset b fuel dest val len m ≡ some k)
      × ((q : ℕ)
          → k q ≡ (
              if leb (get_ptr_val b dest len 0) q && ltb q (get_ptr_val b dest len 0 + len / 4)
              then val % 256
              else m q))
unfolding extern_memset
extern_memset-quarter b fuel dest val len m whole enough fits =
    set_loop_lem (len / 4) fuel (get_ptr_val b dest len 0) val len m (omega arith) enough fits
