-- ===== src/TokenQueue/Short.antt =====
-- The waits with BSG_TOKEN_QUEUE_SHORT.
use no_cgbp_rtl.Base.{ℕ, ◌+◌, ◌*◌, ◌%◌, ◌^◌, ◌<◌, ◌≤◌, ◌≡◌, ltb, leb, not, ◌&&◌, arith}
use no_cgbp_rtl.TokenQueue.{
  receiver_blocked, extend_short, short_send, short_receiver_blocked, sender_blocked, short_receive,
  short_sender_blocked,
}

-- With BSG_TOKEN_QUEUE_SHORT, on an empty queue (both counters the same 16 bits), the receiver waits
-- for a depth from 1 to 2^15 exactly while the counters are below 2^15: from there on it does
-- not wait, for elements that were never sent.
pub short_receiver_blocked-empty :
    (count depth : ℕ)
    → count < 2 ^ 16
    → 0 < depth
    → depth ≤ 2 ^ 15
    → short_receiver_blocked count depth (count * 2 ^ 16 + count) ≡ ltb count (2 ^ 15)
unfolding short_receiver_blocked receiver_blocked extend_short short_send
short_receiver_blocked-empty count depth h pos small = ground arith

-- A count as the 16 bits that keep it
abbrev pub half : ℕ → ℕ
half n = n % 2 ^ 16

-- With BSG_TOKEN_QUEUE_SHORT, on a full queue of fewer than 2^14 elements, the sender waits for any
-- depth but while only the counter of sent elements has passed 2^15: then it does not wait, and
-- writes over elements that were not received.
pub short_sender_blocked-full :
    (received max_els depth : ℕ)
    → max_els < 2 ^ 14
    → 0 < depth
    → depth ≤ max_els
    → short_sender_blocked
        (half (received + max_els))
        max_els
        depth
        (half received * 2 ^ 16 + half (received + max_els))
      ≡ not (ltb (half received) (2 ^ 15) && leb (2 ^ 15) (half (received + max_els)))
unfolding short_sender_blocked sender_blocked extend_short short_receive
short_sender_blocked-full received max_els depth small pos fits = ground arith
