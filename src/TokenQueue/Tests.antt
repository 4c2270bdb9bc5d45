-- ===== src/TokenQueue/Tests.antt =====
-- Confirms and releases near the wrap.
use no_cgbp_rtl.Base.{
  ℕ, ◌≤◌, ◌≢◌, ◌%◌, List, ◌++◌, All, ◌+◌, ◌*◌, ◌^◌, ◌≡◌, refl, none, some, [], ◌∷◌, ltb, leb, not,
  ◌&&◌, if◌then◌else◌, arith,
}
use mathlib.Core.List.{map}
use no_cgbp_rtl.TokenQueue.{
  TokenPair, sender_blocked, receiver_blocked, sender_confirm, receiver_confirm, sender_xfer,
  receiver_release, short_receiver_blocked, short_sender_blocked,
}
use no_cgbp_rtl.TokenQueue.Confirm.{
  word, holds_once, Bounded, sender_confirm_lem, receiver_confirm_lem,
}
use no_cgbp_rtl.TokenQueue.Link.{
  holding, confirming, declare, Event, sender_call, receiver_call, sender_poll, receiver_poll,
  transfer, release, send_arrives, release_arrives, step, run,
}
use no_cgbp_rtl.TokenQueue.Phases.{Fits}
use no_cgbp_rtl.TokenQueue.Owned.{run-Bounded, run-owned}
use no_cgbp_rtl.TokenQueue.Returns.{arrivals, sender-returns}
use no_cgbp_rtl.TokenQueue.Short.{half, short_receiver_blocked-empty, short_sender_blocked-full}

-- The sender's counter has just wrapped; the receiver is six behind.
abbrev wrapped : TokenPair
wrapped = record { send = 2; receive = 0xfffffffc }

sender_confirm_lem_example :
    sender_confirm wrapped 8 3 (map word (0xfffffffc ∷ 0xffffffff ∷ [])) ≡ (
      if holds_once (λ r. leb (0x100000002 + 3) (r + 8)) (0xfffffffc ∷ 0xffffffff ∷ [])
      then some (word 0x100000002)
      else none)
sender_confirm_lem_example =
    sender_confirm_lem wrapped 0x100000002 8 3 (0xfffffffc ∷ 0xffffffff ∷ []) (omega arith)
      (omega arith) refl ((omega arith, omega arith), ((omega arith, omega arith), tt))

receiver_confirm_lem_example :
    receiver_confirm wrapped 5 (map word (0xfffffffe ∷ 0x100000002 ∷ [])) ≡ (
      if holds_once (λ s. leb (0xfffffffc + 5) s) (0xfffffffe ∷ 0x100000002 ∷ [])
      then some (word 0xfffffffc)
      else none)
receiver_confirm_lem_example =
    receiver_confirm_lem wrapped 0xfffffffc 8 5 (0xfffffffe ∷ 0x100000002 ∷ []) (omega arith)
      (omega arith) refl ((omega arith, omega arith), ((omega arith, omega arith), tt))

-- Two elements at most. The sender has sent two of which the receiver has taken one and returned it,
-- and is in a call for the next; the receiver has the other in its hands.
abbrev course : List Event
course =
    sender_call 2
    ∷ sender_poll
    ∷ transfer
    ∷ send_arrives
    ∷ receiver_call 1
    ∷ receiver_poll
    ∷ release
    ∷ release_arrives
    ∷ sender_call 1
    ∷ sender_poll
    ∷ receiver_call 1
    ∷ receiver_poll
    ∷ []

course-Fits : All (Fits 2) course
course-Fits = (
  omega arith,
  (tt, (tt, (tt, (omega arith, (tt, (tt, (tt, (omega arith, (tt, (omega arith, (tt, tt))))))))))),
)

sender_holds : (run 2 declare course).sender ≡ holding 1
unfolding run step sender_blocked receiver_blocked sender_xfer receiver_release
sender_holds = refl

receiver_holds : (run 2 declare course).receiver ≡ holding 1
unfolding run step sender_blocked receiver_blocked sender_xfer receiver_release
receiver_holds = refl

run-Bounded_example :
    (let s = run 2 declare course in
      Bounded 2 s.sent s.received
      × (s.at_sender.send ≡ word s.sent)
      × (s.at_receiver.receive ≡ word s.received)
      × ((n : ℕ) × (s.at_receiver.send ≡ word n) × (s.received ≤ n) × (n ≤ s.sent))
      × ((n : ℕ) × (s.at_sender.receive ≡ word n) × (n ≤ s.received) × (s.sent ≤ n + 2)))
run-Bounded_example = run-Bounded 2 course (omega arith) course-Fits

run-owned_example :
    ((run 2 declare course).received + 0) % 2 ≢ ((run 2 declare course).sent + 0) % 2
run-owned_example =
    run-owned 2 course 1 1 0 0 (omega arith) course-Fits sender_holds receiver_holds (omega arith)
      (omega arith)

-- The same with the release on its way
abbrev full : List Event
full =
    sender_call 2
    ∷ sender_poll
    ∷ transfer
    ∷ send_arrives
    ∷ receiver_call 1
    ∷ receiver_poll
    ∷ release
    ∷ sender_call 1
    ∷ sender_poll
    ∷ []

full_waits : (run 2 declare full).sender ≡ confirming 1
unfolding run step sender_blocked receiver_blocked sender_xfer receiver_release
full_waits = refl

full_room : (run 2 declare full).sent + 1 ≤ (run 2 declare full).received + 2
unfolding run step sender_blocked receiver_blocked sender_xfer receiver_release
full_room = omega arith

sender-returns_example :
    (let s = run 2 declare full in
      (run 2 s (arrivals release_arrives s.releases ++ (sender_poll ∷ []))).sender ≡ holding 1)
sender-returns_example =
    sender-returns 2 full 1 (omega arith)
      (omega arith, (tt, (tt, (tt, (omega arith, (tt, (tt, (omega arith, (tt, tt))))))))) full_waits
      full_room

short_receiver_blocked-empty_example :
    short_receiver_blocked 0x9000 4 (0x9000 * 2 ^ 16 + 0x9000) ≡ ltb 0x9000 (2 ^ 15)
short_receiver_blocked-empty_example =
    short_receiver_blocked-empty 0x9000 4 (omega arith) (omega arith) (omega arith)

short_sender_blocked-full_example :
    short_sender_blocked (half (0x7ffe + 4)) 4 2 (half 0x7ffe * 2 ^ 16 + half (0x7ffe + 4))
    ≡ not (ltb (half 0x7ffe) (2 ^ 15) && leb (2 ^ 15) (half (0x7ffe + 4)))
short_sender_blocked-full_example =
    short_sender_blocked-full 0x7ffe 4 2 (omega arith) (omega arith) (omega arith)
