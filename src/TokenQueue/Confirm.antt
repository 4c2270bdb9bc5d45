-- ===== src/TokenQueue/Confirm.antt =====
-- The waits compare counters that wrap around as if they did not.
use no_cgbp_rtl.Base.{
  ℕ, ◌+◌, ◌%◌, ◌^◌, ◌<◌, ◌≤◌, ◌≡◌, refl, Bool, true, false, none, some, List, [], ◌∷◌, ltb, leb,
  if◌then◌else◌, All, arith,
}
use mathlib.Core.List.{map}
use no_cgbp_rtl.TokenQueue.{
  TokenPair, wait_while, sender_blocked, receiver_blocked, sender_confirm, receiver_confirm,
}

-- A count as the word that keeps it
abbrev pub word : ℕ → ℕ
word n = n % 2 ^ 32

-- Whether a test holds of an element
unfoldable pub holds_once : (ℕ → Bool) → List ℕ → Bool
holds_once test [] = false
holds_once test (n ∷ ns) = if test n then true else holds_once test ns

-- What the queue keeps between the counts: no more received than sent, and at most `max_els` sent
-- and not received.
abbrev pub Bounded : (max_els sent received : ℕ) → Type 0
Bounded max_els sent received = (received ≤ sent) × (sent ≤ received + max_els)

pub sender_blocked_lem :
    (sent max_els depth received : ℕ)
    → max_els < 2 ^ 30
    → depth ≤ max_els
    → received ≤ sent
    → sent ≤ received + max_els
    → sender_blocked (word sent) max_els depth (word received)
      ≡ ltb (received + max_els) (sent + depth)
unfolding sender_blocked
sender_blocked_lem sent max_els depth received small fits lo hi = ground arith

pub receiver_blocked_lem :
    (received max_els depth sent : ℕ)
    → max_els < 2 ^ 30
    → depth ≤ max_els
    → received ≤ sent
    → sent ≤ received + max_els
    → receiver_blocked (word received) depth (word sent) ≡ ltb sent (received + depth)
unfolding receiver_blocked
receiver_blocked_lem received max_els depth sent small fits lo hi = ground arith

-- With fewer than 2^30 elements and depths up to that: whatever counts of received elements the
-- sender reads as words, each in bounds, the confirm returns its own counter exactly when one of the
-- readings leaves room for `depth` more elements, however often the words have wrapped around.
pub sender_confirm_lem :
    (conn : TokenPair) (sent max_els depth : ℕ) (readings : List ℕ)
    → max_els < 2 ^ 30
    → depth ≤ max_els
    → conn.send ≡ word sent
    → All (Bounded max_els sent) readings
    → sender_confirm conn max_els depth (map word readings) ≡ (
        if holds_once (λ r. leb (sent + depth) (r + max_els)) readings
        then some (word sent)
        else none)
unfolding sender_confirm wait_while holds_once
sender_confirm_lem conn sent max_els depth readings small fits own h = rw (own, waits readings h)
  where
    waits :
        (rs : List ℕ)
        → All (Bounded max_els sent) rs
        → wait_while (sender_blocked (word sent) max_els depth) (map word rs)
          ≡ holds_once (λ r. leb (sent + depth) (r + max_els)) rs
    waits [] h = refl
    waits (r ∷ rs) (b, bs) = ground (arith, sender_blocked_lem sent max_els depth r, waits rs bs)

-- With fewer than 2^30 elements and depths up to that: whatever counts of sent elements the receiver
-- reads as words, each in bounds, the confirm returns its own counter exactly when one of the
-- readings is at least `depth` past the count received.
pub receiver_confirm_lem :
    (conn : TokenPair) (received max_els depth : ℕ) (readings : List ℕ)
    → max_els < 2 ^ 30
    → depth ≤ max_els
    → conn.receive ≡ word received
    → All (λ s. Bounded max_els s received) readings
    → receiver_confirm conn depth (map word readings)
      ≡ (if holds_once (λ s. leb (received + depth) s) readings then some (word received) else none)
unfolding receiver_confirm wait_while holds_once
receiver_confirm_lem conn received max_els depth readings small fits own h =
    rw (own, waits readings h)
  where
    waits :
        (ss : List ℕ)
        → All (λ s. Bounded max_els s received) ss
        → wait_while (receiver_blocked (word received) depth) (map word ss)
          ≡ holds_once (λ s. leb (received + depth) s) ss
    waits [] h = refl
    waits (s ∷ ss) (b, bs) =
        ground (arith, receiver_blocked_lem received max_els depth s, waits ss bs)
