-- ===== src/TokenQueue/Owned.antt =====
-- That an element is never in the hands of both tiles.
use no_cgbp_rtl.Base.{ℕ, ◌+◌, ◌%◌, ◌^◌, ◌<◌, ◌≤◌, ◌≡◌, ◌≢◌, List, All, arith}
use mathlib.Core.Path.{subst}
use native.Mathlib.Nat.{div-add-mod}
use no_cgbp_rtl.TokenQueue.Confirm.{word, Bounded}
use no_cgbp_rtl.TokenQueue.Link.{holding, declare, Event, run}
use no_cgbp_rtl.TokenQueue.Flight.{Flight-le}
use no_cgbp_rtl.TokenQueue.Phases.{Fits, Allowed}
use no_cgbp_rtl.TokenQueue.Invariant.{reached}

-- Numbers that are less than `m` apart differ mod `m`.
mod_ne : (m a b : ℕ) → a < b → b < a + m → a % m ≢ b % m
mod_ne m a b lt near same =
    let ea = div-add-mod a m in let eb = div-add-mod b m in grind (arith, ea, eb)

-- For fewer than 2^30 elements and calls for at most as many, in every order of the steps of both
-- tiles and of the arrivals: no more elements are received than sent, at most `max_els` are sent and
-- not received, and each tile's pair has the words of its own count and of a count in between that the
-- other one's has been.
pub run-Bounded :
    (max_els : ℕ) (events : List Event)
    → max_els < 2 ^ 30
    → All (Fits max_els) events
    → (let s = run max_els declare events in
        Bounded max_els s.sent s.received
        × (s.at_sender.send ≡ word s.sent)
        × (s.at_receiver.receive ≡ word s.received)
        × ((n : ℕ) × (s.at_receiver.send ≡ word n) × (s.received ≤ n) × (n ≤ s.sent))
        × ((n : ℕ) × (s.at_sender.receive ≡ word n) × (n ≤ s.received) × (s.sent ≤ n + max_els)))
run-Bounded max_els events small fit =
    let s = run max_els declare events in
    let inv = reached max_els events small fit in
    let back = Flight-le inv.back.flight in
    let forth = Flight-le inv.forth.flight in
    (
      (omega (arith, forth, inv.received_le), omega (arith, back, inv.sent_le)),
      inv.forth.own_eq,
      inv.back.own_eq,
      (inv.seen_sent, inv.forth.other_eq, inv.received_le, forth),
      (inv.seen_received, inv.back.other_eq, back, inv.sent_le),
    )

-- For fewer than 2^30 elements and calls for at most as many, in every order of the steps of both
-- tiles and of the arrivals: while the sender holds `depth` elements that it has confirmed and the
-- receiver `depth'`, no place of the circular buffer is held by both.
pub run-owned :
    (max_els : ℕ) (events : List Event) (depth depth' i j : ℕ)
    → max_els < 2 ^ 30
    → All (Fits max_els) events
    → (run max_els declare events).sender ≡ holding depth
    → (run max_els declare events).receiver ≡ holding depth'
    → i < depth
    → j < depth'
    → ((run max_els declare events).received + j) % max_els
      ≢ ((run max_els declare events).sent + i) % max_els
run-owned max_els events depth depth' i j small fit sending receiving i_lt j_lt =
    let s = run max_els declare events in
    let inv = reached max_els events small fit in
    let back = Flight-le inv.back.flight in
    let forth = Flight-le inv.forth.flight in
    let a : Allowed max_els s.sent (inv.seen_received + max_els) (holding depth) =
      subst (Allowed max_els s.sent (inv.seen_received + max_els)) sending inv.sender_ok in
    let b : Allowed max_els s.received inv.seen_sent (holding depth') =
      subst (Allowed max_els s.received inv.seen_sent) receiving inv.receiver_ok in
    mod_ne max_els (s.received + j) (s.sent + i) (omega (arith, a.1, b.1, back, forth))
      (omega (arith, a.1, b.1, back, forth))
