-- ===== src/TokenQueue/Invariant.antt =====
-- What both tiles keep, however their steps and the arrivals interleave.
use no_cgbp_rtl.Base.{ℕ, ◌+◌, ◌^◌, ◌<◌, ◌≤◌, refl, List, [], ◌∷◌, All, arith}
use no_cgbp_rtl.TokenQueue.{sender_xfer, receiver_release}
use no_cgbp_rtl.TokenQueue.Confirm.{sender_blocked_lem, receiver_blocked_lem}
use no_cgbp_rtl.TokenQueue.Link.{
  Phase, idle, confirming, holding, Link, declare, Event, sender_call, receiver_call, sender_poll,
  receiver_poll, transfer, release, send_arrives, release_arrives, called, sender_polled,
  receiver_polled, transferred, released, send_arrived, release_arrived, step, run,
}
use no_cgbp_rtl.TokenQueue.Flight.{none_left, Flight-le, Way, Way-store, Way-arrive}
use no_cgbp_rtl.TokenQueue.Phases.{Fits, Allowed, Allowed-le, called-Allowed, tested}

-- The sender has seen `seen_received` elements released, the receiver `seen_sent` transferred.
pub record Inv (max_els : ℕ) (s : Link) : Type 0 where
  pub seen_sent : ℕ
  pub seen_received : ℕ
  pub forth : Way s.sent seen_sent s.at_sender.send s.at_receiver.send s.sends
  pub back : Way s.received seen_received s.at_receiver.receive s.at_sender.receive s.releases
  pub received_le : s.received ≤ seen_sent
  pub sent_le : s.sent ≤ seen_received + max_els
  pub sender_ok : Allowed max_els s.sent (seen_received + max_els) s.sender
  pub receiver_ok : Allowed max_els s.received seen_sent s.receiver

declare-Inv : (max_els : ℕ) → Inv max_els declare
declare-Inv max_els = record {
  seen_sent = 0;
  seen_received = 0;
  forth = record { own_eq = refl; other_eq = refl; flight = none_left 0 };
  back = record { own_eq = refl; other_eq = refl; flight = none_left 0 };
  received_le = omega arith;
  sent_le = omega arith;
  sender_ok = tt;
  receiver_ok = tt;
}

module _ (max_els : ℕ) (small : max_els < 2 ^ 30) (s : Link) (inv : Inv max_els s) where
  sender_polled-Allowed :
      (p : Phase)
      → Allowed max_els s.sent (inv.seen_received + max_els) p
      → Allowed max_els s.sent (inv.seen_received + max_els) (sender_polled max_els s.at_sender p)
  sender_polled-Allowed idle a = tt
  sender_polled-Allowed (holding depth) a = a
  sender_polled-Allowed (confirming depth) a =
      let test =
        sender_blocked_lem s.sent max_els depth inv.seen_received small a
          (omega (arith, Flight-le inv.back.flight, Flight-le inv.forth.flight, inv.received_le))
          inv.sent_le in
      rw (inv.forth.own_eq, inv.back.other_eq, test)
        (tested max_els s.sent (inv.seen_received + max_els) depth a)

  receiver_polled-Allowed :
      (p : Phase)
      → Allowed max_els s.received inv.seen_sent p
      → Allowed max_els s.received inv.seen_sent (receiver_polled s.at_receiver p)
  receiver_polled-Allowed idle a = tt
  receiver_polled-Allowed (holding depth) a = a
  receiver_polled-Allowed (confirming depth) a =
      let test =
        receiver_blocked_lem s.received max_els depth inv.seen_sent small a inv.received_le
          (omega (arith, Flight-le inv.back.flight, Flight-le inv.forth.flight, inv.sent_le)) in
      rw (inv.back.own_eq, inv.forth.other_eq, test)
        (tested max_els s.received inv.seen_sent depth a)

  transferred-Inv :
      (p : Phase)
      → Allowed max_els s.sent (inv.seen_received + max_els) p
      → Inv max_els (transferred s p)
  unfolding sender_xfer
  transferred-Inv idle a = inv
  transferred-Inv (confirming depth) a = inv
  transferred-Inv (holding depth) (fits, a) = record {
    seen_sent = inv.seen_sent;
    seen_received = inv.seen_received;
    forth = Way-store depth inv.forth;
    back = inv.back;
    received_le = inv.received_le;
    sent_le = a;
    sender_ok = tt;
    receiver_ok = inv.receiver_ok;
  }

  released-Inv :
      (p : Phase) → Allowed max_els s.received inv.seen_sent p → Inv max_els (released s p)
  unfolding receiver_release
  released-Inv idle a = inv
  released-Inv (confirming depth) a = inv
  released-Inv (holding depth) (fits, a) = record {
    seen_sent = inv.seen_sent;
    seen_received = inv.seen_received;
    forth = inv.forth;
    back = Way-store depth inv.back;
    received_le = a;
    sent_le = inv.sent_le;
    sender_ok = inv.sender_ok;
    receiver_ok = tt;
  }

  send_arrived-Inv :
      (words : List ℕ)
      → Way s.sent inv.seen_sent s.at_sender.send s.at_receiver.send words
      → Inv max_els (send_arrived s words)
  send_arrived-Inv [] way = inv
  send_arrived-Inv (first ∷ words) way =
      let (next, le, le', forth') = Way-arrive way in
      record {
        seen_sent = next;
        seen_received = inv.seen_received;
        forth = forth';
        back = inv.back;
        received_le = omega (arith, inv.received_le);
        sent_le = inv.sent_le;
        sender_ok = inv.sender_ok;
        receiver_ok =
            Allowed-le max_els s.received inv.seen_sent next s.receiver le inv.receiver_ok;
      }

  release_arrived-Inv :
      (words : List ℕ)
      → Way s.received inv.seen_received s.at_receiver.receive s.at_sender.receive words
      → Inv max_els (release_arrived s words)
  release_arrived-Inv [] way = inv
  release_arrived-Inv (first ∷ words) way =
      let (next, le, le', back') = Way-arrive way in
      record {
        seen_sent = inv.seen_sent;
        seen_received = next;
        forth = inv.forth;
        back = back';
        received_le = inv.received_le;
        sent_le = omega (arith, inv.sent_le);
        sender_ok =
            Allowed-le max_els s.sent (inv.seen_received + max_els) (next + max_els) s.sender
              (omega arith) inv.sender_ok;
        receiver_ok = inv.receiver_ok;
      }

  with_phases :
      (sender receiver : Phase)
      → Allowed max_els s.sent (inv.seen_received + max_els) sender
      → Allowed max_els s.received inv.seen_sent receiver
      → Inv max_els (record s { sender = sender; receiver = receiver })
  with_phases sender receiver a b = record {
    seen_sent = inv.seen_sent;
    seen_received = inv.seen_received;
    forth = inv.forth;
    back = inv.back;
    received_le = inv.received_le;
    sent_le = inv.sent_le;
    sender_ok = a;
    receiver_ok = b;
  }

step-Inv :
    (max_els : ℕ) (s : Link) (e : Event)
    → max_els < 2 ^ 30
    → Fits max_els e
    → Inv max_els s
    → Inv max_els (step max_els s e)
unfolding step
step-Inv max_els s (sender_call depth) small fits inv =
    with_phases max_els small s inv (called depth s.sender) s.receiver
      (called-Allowed max_els s.sent (inv.seen_received + max_els) depth s.sender fits
        inv.sender_ok)
      inv.receiver_ok
step-Inv max_els s (receiver_call depth) small fits inv =
    with_phases max_els small s inv s.sender (called depth s.receiver) inv.sender_ok
      (called-Allowed max_els s.received inv.seen_sent depth s.receiver fits inv.receiver_ok)
step-Inv max_els s sender_poll small fits inv =
    with_phases max_els small s inv (sender_polled max_els s.at_sender s.sender) s.receiver
      (sender_polled-Allowed max_els small s inv s.sender inv.sender_ok) inv.receiver_ok
step-Inv max_els s receiver_poll small fits inv =
    with_phases max_els small s inv s.sender (receiver_polled s.at_receiver s.receiver)
      inv.sender_ok (receiver_polled-Allowed max_els small s inv s.receiver inv.receiver_ok)
step-Inv max_els s transfer small fits inv =
    transferred-Inv max_els small s inv s.sender inv.sender_ok
step-Inv max_els s release small fits inv =
    released-Inv max_els small s inv s.receiver inv.receiver_ok
step-Inv max_els s send_arrives small fits inv =
    send_arrived-Inv max_els small s inv s.sends inv.forth
step-Inv max_els s release_arrives small fits inv =
    release_arrived-Inv max_els small s inv s.releases inv.back

pub run_from :
    (max_els : ℕ) (s : Link) (events : List Event)
    → max_els < 2 ^ 30
    → All (Fits max_els) events
    → Inv max_els s
    → Inv max_els (run max_els s events)
unfolding run
run_from max_els s [] small fit inv = inv
run_from max_els s (e ∷ events) small (fits, fit) inv =
    run_from max_els (step max_els s e) events small fit (step-Inv max_els s e small fits inv)

pub reached :
    (max_els : ℕ) (events : List Event)
    → max_els < 2 ^ 30
    → All (Fits max_els) events
    → Inv max_els (run max_els declare events)
reached max_els events small fit = run_from max_els declare events small fit (declare-Inv max_els)
