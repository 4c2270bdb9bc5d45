-- ===== src/TokenQueue/Returns.antt =====
-- That a wait ends once the stores on their way have arrived.
use no_cgbp_rtl.Base.{
  ℕ, ◌+◌, ◌^◌, ◌<◌, ◌≤◌, ◌≡◌, ◌≢◌, refl, ap, ◌∙◌, List, [], ◌∷◌, ◌++◌, false, ltb, All, arith,
}
use mathlib.Core.Path.{subst}
use no_cgbp_rtl.TokenQueue.Confirm.{word, sender_blocked_lem, receiver_blocked_lem}
use no_cgbp_rtl.TokenQueue.Link.{
  confirming, holding, Link, declare, Event, sender_poll, receiver_poll, send_arrives,
  release_arrives, sender_polled, receiver_polled, step, run,
}
use no_cgbp_rtl.TokenQueue.Flight.{Flight, none_left, on_way, Flight-le}
use no_cgbp_rtl.TokenQueue.Phases.{Fits, Allowed}
use no_cgbp_rtl.TokenQueue.Invariant.{Inv, reached, run_from}

not_ltb : (a b : ℕ) → b ≤ a → ltb a b ≡ false
not_ltb a b le = ground arith

-- The arrival of every store on its way in one direction
abbrev pub arrivals : Event → List ℕ → List Event
arrivals e [] = []
arrivals e (word ∷ words) = e ∷ arrivals e words

arrivals-Fits-sends :
    (max_els : ℕ) (words : List ℕ) → All (Fits max_els) (arrivals send_arrives words)
arrivals-Fits-sends max_els [] = tt
arrivals-Fits-sends max_els (word ∷ words) = (tt, arrivals-Fits-sends max_els words)

arrivals-Fits-releases :
    (max_els : ℕ) (words : List ℕ) → All (Fits max_els) (arrivals release_arrives words)
arrivals-Fits-releases max_els [] = tt
arrivals-Fits-releases max_els (word ∷ words) = (tt, arrivals-Fits-releases max_els words)

-- The same system except for the words on their way and those that the other tile has seen
record Same (s s' : Link) : Type 0 where
  sender_eq : s'.sender ≡ s.sender
  receiver_eq : s'.receiver ≡ s.receiver
  sent_eq : s'.sent ≡ s.sent
  received_eq : s'.received ≡ s.received

drain_sends :
    (max_els : ℕ) (s : Link) (words : List ℕ)
    → s.sends ≡ words
    → (let s' = run max_els s (arrivals send_arrives words) in Same s s' × (s'.sends ≡ []))
unfolding run step
drain_sends max_els s [] e =
    (record { sender_eq = refl; receiver_eq = refl; sent_eq = refl; received_eq = refl }, e)
drain_sends max_els s (word ∷ words) e = rw e (
    let rest =
      drain_sends max_els
        (record s {
          at_receiver = record { send = word; receive = s.at_receiver.receive };
          sends = words;
        })
        words refl in
    (
      record {
        sender_eq = rest.0.sender_eq;
        receiver_eq = rest.0.receiver_eq;
        sent_eq = rest.0.sent_eq;
        received_eq = rest.0.received_eq;
      },
      rest.1,
    ))

drain_releases :
    (max_els : ℕ) (s : Link) (words : List ℕ)
    → s.releases ≡ words
    → (let s' = run max_els s (arrivals release_arrives words) in Same s s' × (s'.releases ≡ []))
unfolding run step
drain_releases max_els s [] e =
    (record { sender_eq = refl; receiver_eq = refl; sent_eq = refl; received_eq = refl }, e)
drain_releases max_els s (word ∷ words) e = rw e (
    let rest =
      drain_releases max_els
        (record s {
          at_sender = record { send = s.at_sender.send; receive = word };
          releases = words;
        })
        words refl in
    (
      record {
        sender_eq = rest.0.sender_eq;
        receiver_eq = rest.0.receiver_eq;
        sent_eq = rest.0.sent_eq;
        received_eq = rest.0.received_eq;
      },
      rest.1,
    ))

no_word : {word : ℕ} {words : List ℕ} → word ∷ words ≢ []
no_word e = ground (arith, e)

Flight-arrived : {low high : ℕ} {words : List ℕ} → Flight low high words → words ≡ [] → low ≡ high
Flight-arrived (none_left n) e = refl
Flight-arrived (on_way low next high words le f) e = absurd (no_word e)

run-append :
    (max_els : ℕ) (s : Link) (events more : List Event)
    → run max_els s (events ++ more) ≡ run max_els (run max_els s events) more
unfolding run
run-append max_els s [] more = refl
run-append max_els s (e ∷ events) more = run-append max_els (step max_els s e) events more

module _ (max_els : ℕ) (small : max_els < 2 ^ 30) (s : Link) (inv : Inv max_els s) where
  sender_polled-room :
      (depth : ℕ)
      → depth ≤ max_els
      → s.releases ≡ []
      → s.sent + depth ≤ s.received + max_els
      → sender_polled max_els s.at_sender (confirming depth) ≡ holding depth
  sender_polled-room depth fits none room =
      let seen = Flight-arrived inv.back.flight none in
      let forth = Flight-le inv.forth.flight in
      let test =
        sender_blocked_lem s.sent max_els depth inv.seen_received small fits
          (omega (arith, seen, forth, inv.received_le)) inv.sent_le in
      rw
        (
          inv.forth.own_eq,
          inv.back.other_eq,
          test,
          not_ltb (inv.seen_received + max_els) (s.sent + depth) (omega (arith, seen)),
        )
        refl

  receiver_polled-there :
      (depth : ℕ)
      → depth ≤ max_els
      → s.sends ≡ []
      → s.received + depth ≤ s.sent
      → receiver_polled s.at_receiver (confirming depth) ≡ holding depth
  receiver_polled-there depth fits none there =
      let seen = Flight-arrived inv.forth.flight none in
      let back = Flight-le inv.back.flight in
      let test =
        receiver_blocked_lem s.received max_els depth inv.seen_sent small fits inv.received_le
          (omega (arith, seen, back, inv.sent_le)) in
      rw
        (
          inv.back.own_eq,
          inv.forth.other_eq,
          test,
          not_ltb inv.seen_sent (s.received + depth) (omega (arith, seen)),
        )
        refl

-- For fewer than 2^30 elements and calls for at most as many: from every state that is reached with
-- the sender in a confirm for `depth` elements and as much room between the tiles' own counts, once the
-- releases on their way have arrived the next reading ends the wait.
pub sender-returns :
    (max_els : ℕ) (events : List Event) (depth : ℕ)
    → max_els < 2 ^ 30
    → All (Fits max_els) events
    → (run max_els declare events).sender ≡ confirming depth
    → (run max_els declare events).sent + depth ≤ (run max_els declare events).received + max_els
    → (let s = run max_els declare events in
        (run max_els s (arrivals release_arrives s.releases ++ (sender_poll ∷ []))).sender
        ≡ holding depth)
unfolding run step
sender-returns max_els events depth small fit waits room =
    let s = run max_els declare events in
    let before = reached max_els events small fit in
    let come = arrivals release_arrives s.releases in
    let s' = run max_els s come in
    let inv = run_from max_els s come small (arrivals-Fits-releases max_els s.releases) before in
    let (same, none) = drain_releases max_els s s.releases refl in
    ap (λ (l : Link). l.sender) (run-append max_els s come (sender_poll ∷ []))
    ∙ ap (sender_polled max_els s'.at_sender) (same.sender_eq ∙ waits)
    ∙ sender_polled-room max_els small s' inv depth
        (subst (Allowed max_els s.sent (before.seen_received + max_els)) waits before.sender_ok)
        none (omega (arith, same.sent_eq, same.received_eq, room))

-- For fewer than 2^30 elements and calls for at most as many: from every state that is reached with
-- the receiver in a confirm for `depth` elements and as many sent and not received, once the stores on
-- their way have arrived the next reading ends the wait.
pub receiver-returns :
    (max_els : ℕ) (events : List Event) (depth : ℕ)
    → max_els < 2 ^ 30
    → All (Fits max_els) events
    → (run max_els declare events).receiver ≡ confirming depth
    → (run max_els declare events).received + depth ≤ (run max_els declare events).sent
    → (let s = run max_els declare events in
        (run max_els s (arrivals send_arrives s.sends ++ (receiver_poll ∷ []))).receiver
        ≡ holding depth)
unfolding run step
receiver-returns max_els events depth small fit waits there =
    let s = run max_els declare events in
    let before = reached max_els events small fit in
    let come = arrivals send_arrives s.sends in
    let s' = run max_els s come in
    let inv = run_from max_els s come small (arrivals-Fits-sends max_els s.sends) before in
    let (same, none) = drain_sends max_els s s.sends refl in
    ap (λ (l : Link). l.receiver) (run-append max_els s come (receiver_poll ∷ []))
    ∙ ap (receiver_polled s'.at_receiver) (same.receiver_eq ∙ waits)
    ∙ receiver_polled-there max_els small s' inv depth
        (subst (Allowed max_els s.received before.seen_sent) waits before.receiver_ok) none
        (omega (arith, same.sent_eq, same.received_eq, there))
