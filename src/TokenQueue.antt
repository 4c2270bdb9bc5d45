-- ===== src/TokenQueue.antt =====
-- software/bsg_manycore_lib/bsg_token_queue.h: the counters of a queue between two tiles. A counter
-- is a 32-bit word that wraps around. A wait reads a counter that the other tile writes, so what it
-- reads is an argument: the values that `bsg_lr` and `bsg_lr_aq` return, in order.
pub mod Confirm
pub mod Short
pub mod Link
pub mod Flight
pub mod Phases
pub mod Invariant
pub mod Owned
pub mod Returns
pub mod Connections
mod Tests
use no_cgbp_rtl.Base.{
  ℕ, ◌+◌, ◌-◌, ◌/◌, ◌%◌, ◌^◌, Bool, true, false, ◌&&◌, Option, none, some, List, [], ◌∷◌, ltb, leb,
  if◌then◌else◌,
}

pub record TokenPair : Type 0 where
  pub send : ℕ
  pub receive : ℕ

-- `a - b` on words, and the signs of an `int`
abbrev pub sub_word : ℕ → ℕ → ℕ
sub_word a b = (a + (2 ^ 32 - b)) % 2 ^ 32

abbrev pub is_positive : ℕ → Bool
is_positive w = ltb 0 w && ltb w (2 ^ 31)

abbrev pub is_negative : ℕ → Bool
is_negative w = leb (2 ^ 31) w

-- A loop of readings until one is not blocked: `true` when there is one.
unfoldable pub wait_while : (ℕ → Bool) → List ℕ → Bool
wait_while blocked [] = false
wait_while blocked (v ∷ readings) = if blocked v then wait_while blocked readings else true

-- `tmp - receive > 0` with `tmp = - max_els + depth + i`
unfoldable pub sender_blocked : (i max_els depth receive : ℕ) → Bool
sender_blocked i max_els depth receive =
    is_positive (sub_word ((2 ^ 32 - max_els + depth + i) % 2 ^ 32) receive)

-- `send - tmp < 0` with `tmp = depth + i`
unfoldable pub receiver_blocked : (i depth send : ℕ) → Bool
receiver_blocked i depth send = is_negative (sub_word send ((depth + i) % 2 ^ 32))

-- What the call returns, if it does.
unfoldable pub sender_confirm : TokenPair → (max_els depth : ℕ) → List ℕ → Option ℕ
sender_confirm conn max_els depth readings =
    if wait_while (sender_blocked conn.send max_els depth) readings then some conn.send else none

unfoldable pub receiver_confirm : TokenPair → (depth : ℕ) → List ℕ → Option ℕ
receiver_confirm conn depth readings =
    if wait_while (receiver_blocked conn.receive depth) readings then some conn.receive else none

-- The local pair, and the word stored through `remote_ptr` (which the first also returns)
unfoldable pub sender_xfer : TokenPair → (depth : ℕ) → TokenPair × ℕ
sender_xfer conn depth = let i = (conn.send + depth) % 2 ^ 32 in (record conn { send = i }, i)

unfoldable pub receiver_release : TokenPair → (depth : ℕ) → TokenPair × ℕ
receiver_release conn depth =
    let i = (conn.receive + depth) % 2 ^ 32 in (record conn { receive = i }, i)

-- With BSG_TOKEN_QUEUE_SHORT one load reads both counters: the low half is `send`, the high half
-- `receive`; a `short` is extended by its sign, but the macro for `send` extends by zeros.
unfoldable pub extend_short : ℕ → ℕ
extend_short s = if ltb s (2 ^ 15) then s else s + (2 ^ 32 - 2 ^ 16)

unfoldable pub short_send : ℕ → ℕ
short_send x = x % 2 ^ 16

unfoldable pub short_receiver_blocked : (i depth x : ℕ) → Bool
short_receiver_blocked i depth x = receiver_blocked (extend_short i) depth (short_send x)

-- `x >> 16` of an `int`
unfoldable pub short_receive : ℕ → ℕ
short_receive x = extend_short (x / 2 ^ 16)

unfoldable pub short_sender_blocked : (i max_els depth x : ℕ) → Bool
short_sender_blocked i max_els depth x =
    sender_blocked (extend_short i) max_els depth (short_receive x)
