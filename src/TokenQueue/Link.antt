-- ===== src/TokenQueue/Link.antt =====
-- Both tiles of a queue of software/bsg_manycore_lib/bsg_token_queue.h, with the stores between them on
-- their way. A step is a call, a reading of a wait, what follows the wait, or the arrival of a store;
-- the stores of one tile to another arrive in their order.
use no_cgbp_rtl.Base.{ℕ, ◌+◌, List, [], ◌∷◌, ◌++◌, if◌then◌else◌}
use no_cgbp_rtl.TokenQueue.{
  TokenPair, sender_blocked, receiver_blocked, sender_xfer, receiver_release,
}

-- A tile is outside, in a confirm for some elements, or has them confirmed.
pub data Phase : Type 0 where
  idle : Phase
  confirming holding : (depth : ℕ) → Phase

-- The pair at each tile, and the words stored through each `remote_ptr` that have not arrived, the
-- oldest first; the numbers of elements transferred and released do not wrap.
pub record Link : Type 0 where
  pub at_sender : TokenPair
  pub at_receiver : TokenPair
  pub sends : List ℕ
  pub releases : List ℕ
  pub sender : Phase
  pub receiver : Phase
  pub sent : ℕ
  pub received : ℕ

-- bsg_declare_token_queue
abbrev pub declare : Link
declare = record {
  at_sender = record { send = 0; receive = 0 };
  at_receiver = record { send = 0; receive = 0 };
  sends = [];
  releases = [];
  sender = Phase.idle;
  receiver = Phase.idle;
  sent = 0;
  received = 0;
}

pub data Event : Type 0 where
  sender_call receiver_call : (depth : ℕ) → Event
  sender_poll receiver_poll transfer release send_arrives release_arrives : Event

-- A call for `depth` elements by a tile that is outside
abbrev pub called : (depth : ℕ) → Phase → Phase
called depth idle = Phase.confirming depth
called depth (confirming d) = Phase.confirming d
called depth (holding d) = Phase.holding d

module _ (max_els : ℕ) where
  abbrev pub sender_polled : TokenPair → Phase → Phase
  sender_polled pair idle = Phase.idle
  sender_polled pair (confirming depth) =
      if sender_blocked pair.send max_els depth pair.receive
      then Phase.confirming depth
      else Phase.holding depth
  sender_polled pair (holding depth) = Phase.holding depth

abbrev pub receiver_polled : TokenPair → Phase → Phase
receiver_polled pair idle = Phase.idle
receiver_polled pair (confirming depth) =
    if receiver_blocked pair.receive depth pair.send
    then Phase.confirming depth
    else Phase.holding depth
receiver_polled pair (holding depth) = Phase.holding depth

abbrev pub transferred : Link → Phase → Link
transferred s (holding depth) =
    let next = sender_xfer s.at_sender depth in
    record s {
      at_sender = next.0;
      sends = s.sends ++ (next.1 ∷ []);
      sender = Phase.idle;
      sent = s.sent + depth;
    }
transferred s idle = s
transferred s (confirming depth) = s

abbrev pub released : Link → Phase → Link
released s (holding depth) =
    let next = receiver_release s.at_receiver depth in
    record s {
      at_receiver = next.0;
      releases = s.releases ++ (next.1 ∷ []);
      receiver = Phase.idle;
      received = s.received + depth;
    }
released s idle = s
released s (confirming depth) = s

abbrev pub send_arrived : Link → List ℕ → Link
send_arrived s [] = s
send_arrived s (word ∷ words) = record s {
  at_receiver = record { send = word; receive = s.at_receiver.receive };
  sends = words;
}

abbrev pub release_arrived : Link → List ℕ → Link
release_arrived s [] = s
release_arrived s (word ∷ words) = record s {
  at_sender = record { send = s.at_sender.send; receive = word };
  releases = words;
}

module _ (max_els : ℕ) where
  unfoldable pub step : Link → Event → Link
  step s (sender_call depth) = record s { sender = called depth s.sender }
  step s (receiver_call depth) = record s { receiver = called depth s.receiver }
  step s sender_poll = record s { sender = sender_polled max_els s.at_sender s.sender }
  step s receiver_poll = record s { receiver = receiver_polled s.at_receiver s.receiver }
  step s transfer = transferred s s.sender
  step s release = released s s.receiver
  step s send_arrives = send_arrived s s.sends
  step s release_arrives = release_arrived s s.releases

  unfoldable pub run : Link → List Event → Link
  run s [] = s
  run s (e ∷ events) = run (step s e) events
