-- ===== src/TokenQueue/Phases.antt =====
-- What a tile may rely on by where it stands.
use no_cgbp_rtl.Base.{ℕ, ◌+◌, ◌≤◌, ltb, if◌then◌else◌, Bool-cases, inl, inr, arith}
use no_cgbp_rtl.TokenQueue.Link.{
  Phase, idle, confirming, holding, Event, sender_call, receiver_call, sender_poll, receiver_poll,
  transfer, release, send_arrives, release_arrives, called,
}

-- A call is for a number of elements that the queue has.
abbrev pub Fits : (max_els : ℕ) → Event → Type 0
Fits max_els (sender_call depth) = depth ≤ max_els
Fits max_els (receiver_call depth) = depth ≤ max_els
Fits max_els sender_poll = Unit
Fits max_els receiver_poll = Unit
Fits max_els transfer = Unit
Fits max_els release = Unit
Fits max_els send_arrives = Unit
Fits max_els release_arrives = Unit

-- What a phase lets a tile rely on, when it is at `own` and may go up to `limit`
abbrev pub Allowed : (max_els own limit : ℕ) → Phase → Type 0
Allowed max_els own limit idle = Unit
Allowed max_els own limit (confirming depth) = depth ≤ max_els
Allowed max_els own limit (holding depth) = (depth ≤ max_els) × (own + depth ≤ limit)

pub Allowed-le :
    (max_els own limit limit' : ℕ) (p : Phase)
    → limit ≤ limit'
    → Allowed max_els own limit p
    → Allowed max_els own limit' p
Allowed-le max_els own limit limit' idle le a = tt
Allowed-le max_els own limit limit' (confirming depth) le a = a
Allowed-le max_els own limit limit' (holding depth) le (fits, a) = (fits, omega arith)

pub called-Allowed :
    (max_els own limit depth : ℕ) (p : Phase)
    → depth ≤ max_els
    → Allowed max_els own limit p
    → Allowed max_els own limit (called depth p)
called-Allowed max_els own limit depth idle fits a = fits
called-Allowed max_els own limit depth (confirming d) fits a = a
called-Allowed max_els own limit depth (holding d) fits a = a

pub tested :
    (max_els own limit depth : ℕ)
    → depth ≤ max_els
    → Allowed max_els own limit
        (if ltb limit (own + depth) then confirming depth else holding depth)
tested max_els own limit depth fits = elim (Bool-cases (ltb limit (own + depth))) [
  | inl e ↦ rw e fits
  | inr e ↦ rw e (fits, ground arith)
]
