-- ===== src/Room/Interleaving/Exclusive.antt =====
-- What the lock guards.
use ipl_auction_app.Base.{
  ℕ, ◌≤◌, ◌<◌, ◌==◌, ◌≡◌, sym, ap, ◌∙◌, ◌⊎◌, arith, Bool, true, false, List, [], ◌∷◌, none, some,
  if◌then◌else◌, leb, refl, inl, inr, Bool-cases,
}
use ipl_auction_app.Room.State.{World, emit, spawn, set_redis}
use ipl_auction_app.Room.Bids.{acquire_bid_lock, release_bid_lock}
use ipl_auction_app.Room.Timer.{reset_timer, start_timer}
use ipl_auction_app.Room.Interleaving.{
  Stage, checked, locked, reread, too_low, amount_set, bidder_set, written, released, ended, Bid,
  standing, proceed, put_amount, put_bidder, put_state, announce_bid, Handlers, Event, turn,
  elsewhere, happen, play_events,
}

-- Between the acquisition of the lock and its release.
abbrev pub has_lock : Stage → Bool
has_lock checked = false
has_lock locked = true
has_lock (reread fresh) = true
has_lock too_low = true
has_lock amount_set = true
has_lock bidder_set = true
has_lock written = true
has_lock released = false
has_lock ended = false

pub record IsExclusive (c : Handlers) : Type 0 where
  pub holder : (i : ℕ) → has_lock (c.stage i) ≡ true → c.world.redis.bid_lock ≡ some i
  pub owner : (i : ℕ) → c.world.redis.bid_lock ≡ some i → has_lock (c.stage i) ≡ true
  pub seen : (i b : ℕ) → c.stage i ≡ reread b → standing c.world ≤ b

-- What else happens leaves the lock alone, and may clear the bid but does not raise it.
abbrev pub IsPolite : Event → Type 0
IsPolite (turn i) = Unit {0}
IsPolite (elsewhere g) =
    (w : World) → ((g w).redis.bid_lock ≡ w.redis.bid_lock) × (standing (g w) ≤ standing w)

abbrev pub ArePolite : List Event → Type 0
ArePolite [] = Unit {0}
ArePolite (e ∷ es) = IsPolite e × ArePolite es

-- What a stretch of a handler does to the lock: it keeps what it has, takes a free one, gives its own
-- back or leaves it alone.
abbrev LockMoves : ℕ → Stage → World → Stage → World → Type 0
LockMoves i s w s' w' =
    (has_lock s' ≡ true → w'.redis.bid_lock ≡ some i)
    × (has_lock s' ≡ false → has_lock s ≡ true → w'.redis.bid_lock ≡ none)
    × (has_lock s' ≡ false → has_lock s ≡ false → w'.redis.bid_lock ≡ w.redis.bid_lock)
    × (has_lock s' ≡ true → has_lock s ≡ false → w.redis.bid_lock ≡ none)

proceed-LockMoves :
    (i : ℕ) (b : Bid) (s : Stage) (w : World)
    → (has_lock s ≡ true → w.redis.bid_lock ≡ some i)
    → LockMoves i s w (proceed i b s w).0 (proceed i b s w).1
unfolding proceed put_amount put_bidder put_state announce_bid acquire_bid_lock release_bid_lock
    reset_timer start_timer emit spawn set_redis
proceed-LockMoves i b checked w h = ground (arith, h)
proceed-LockMoves i b locked w h = ground (arith, h)
proceed-LockMoves i b (reread fresh) w h = ground (arith, h)
proceed-LockMoves i b too_low w h = ground (arith, h)
proceed-LockMoves i b amount_set w h = ground (arith, h)
proceed-LockMoves i b bidder_set w h = ground (arith, h)
proceed-LockMoves i b written w h = ground (arith, h)
proceed-LockMoves i b released w h = ground (arith, h)
proceed-LockMoves i b ended w h = ground (arith, h)

-- What it does to the standing bid: a handler that had read one writes more than it read, and every
-- other stretch leaves it.
abbrev BidMoves : Bid → Stage → World → Stage → World → Type 0
BidMoves b s w s' w' =
    (standing w' ≡ standing w)
    ⊎ ((fresh : ℕ) × (s ≡ reread fresh)
        × (fresh < standing w')
        × (standing w' ≡ b.request.amount_lakhs))

proceed-BidMoves :
    (i : ℕ) (b : Bid) (s : Stage) (w : World)
    → BidMoves b s w (proceed i b s w).0 (proceed i b s w).1
unfolding proceed put_amount put_bidder put_state announce_bid acquire_bid_lock release_bid_lock
    reset_timer start_timer emit spawn set_redis
proceed-BidMoves i b checked w = inl (ground arith)
proceed-BidMoves i b locked w = inl refl
proceed-BidMoves i b (reread fresh) w = elim (Bool-cases (leb b.request.amount_lakhs fresh)) [
  | inl low ↦ inl (ground arith)
  | inr higher ↦ inr (fresh, refl, ground arith, ground arith)
]
proceed-BidMoves i b too_low w = inl refl
proceed-BidMoves i b amount_set w = inl refl
proceed-BidMoves i b bidder_set w = inl refl
proceed-BidMoves i b written w = inl refl
proceed-BidMoves i b released w = inl refl
proceed-BidMoves i b ended w = inl refl

-- A handler that has just read the bid has read the one that stands.
proceed-seen :
    (i fresh : ℕ) (b : Bid) (s : Stage) (w : World)
    → (proceed i b s w).0 ≡ reread fresh
    → standing (proceed i b s w).1 ≡ fresh
unfolding proceed put_amount put_bidder put_state announce_bid acquire_bid_lock release_bid_lock
    reset_timer start_timer emit spawn set_redis
proceed-seen i fresh b checked w h = ground (arith, h)
proceed-seen i fresh b locked w h = ground (arith, h)
proceed-seen i fresh b (reread old) w h = ground (arith, h)
proceed-seen i fresh b too_low w h = ground (arith, h)
proceed-seen i fresh b amount_set w h = ground (arith, h)
proceed-seen i fresh b bidder_set w h = ground (arith, h)
proceed-seen i fresh b written w h = ground (arith, h)
proceed-seen i fresh b released w h = ground (arith, h)
proceed-seen i fresh b ended w h = ground (arith, h)

-- One turn, by what its stretch does.
module _ (i : ℕ) (b : Bid) (c : Handlers) (x : IsExclusive c) where
  abbrev next_stage : Stage
  next_stage = (proceed i b (c.stage i) c.world).0

  abbrev next_world : World
  next_world = (proceed i b (c.stage i) c.world).1

  others : (j : ℕ) → has_lock (c.stage j) ≡ true → (j == i) ≡ false → has_lock (c.stage i) ≡ false
  others j h far = elim (Bool-cases (has_lock (c.stage i))) [
    | inl held ↦ ground (arith, x.holder i held, x.holder j h, far)
    | inr free ↦ free
  ]

  turn-holder :
      (j : ℕ)
      → has_lock (if j == i then next_stage else c.stage j) ≡ true
      → next_world.redis.bid_lock ≡ some j
  turn-holder j h =
      let moves = proceed-LockMoves i b (c.stage i) c.world (x.holder i) in
      elim (Bool-cases (j == i)) [
        | inl own ↦ ground (arith, moves, h, own)
        | inr far ↦
            let held : has_lock (c.stage j) ≡ true = ground (arith, h, far) in
            ground (arith, moves, others j held far, x.holder j held)
      ]

  turn-owner :
      (j : ℕ)
      → next_world.redis.bid_lock ≡ some j
      → has_lock (if j == i then next_stage else c.stage j) ≡ true
  turn-owner j h =
      let moves = proceed-LockMoves i b (c.stage i) c.world (x.holder i) in
      elim (Bool-cases (has_lock next_stage)) [
        | inl held ↦ ground (arith, moves, h, held)
        | inr free ↦ ground (arith, moves, h, free, x.owner j)
      ]

  turn-seen :
      (j fresh : ℕ)
      → (if j == i then next_stage else c.stage j) ≡ reread fresh
      → standing next_world ≤ fresh
  turn-seen j fresh h = elim (Bool-cases (j == i)) [
    | inl own ↦
        let e : next_stage ≡ reread fresh = ground (arith, h, own) in
        omega (arith, proceed-seen i fresh b (c.stage i) c.world e)
    | inr far ↦
        let e : c.stage j ≡ reread fresh = ground (arith, h, far) in
        let free = others j (ap has_lock e) far in
        elim (proceed-BidMoves i b (c.stage i) c.world) [
          | inl same ↦ omega (arith, same, x.seen j fresh e)
          | inr (old, r, more, amount) ↦
              let held : has_lock (c.stage i) ≡ true = ap has_lock r in ground (arith, held, free)
        ]
  ]

happen-IsExclusive :
    (bids : ℕ → Bid) (e : Event) (c : Handlers)
    → IsPolite e
    → IsExclusive c
    → IsExclusive (happen bids e c)
unfolding happen
happen-IsExclusive bids (turn i) c p x = record {
  holder = turn-holder i (bids i) c x;
  owner = turn-owner i (bids i) c x;
  seen = turn-seen i (bids i) c x;
}
happen-IsExclusive bids (elsewhere g) c p x = record {
  holder = λ i h. (p c.world).0 ∙ x.holder i h;
  owner = λ i h. x.owner i (sym (p c.world).0 ∙ h);
  seen = λ i fresh h. omega (arith, (p c.world).1, x.seen i fresh h);
}

pub play-IsExclusive :
    (bids : ℕ → Bid) (es : List Event) (c : Handlers)
    → ArePolite es
    → IsExclusive c
    → IsExclusive (play_events bids es c)
unfolding play_events
play-IsExclusive bids [] c p x = x
play-IsExclusive bids (e ∷ es) c (pe, ps) x =
    play-IsExclusive bids es (happen bids e c) ps (happen-IsExclusive bids e c pe x)

-- Handlers that have passed their checks in a room whose lock is free.
abbrev pub AtStart : Handlers → Type 0
AtStart c = (c.world.redis.bid_lock ≡ none) × ((i : ℕ) → c.stage i ≡ checked)

pub start-IsExclusive : (c : Handlers) → AtStart c → IsExclusive c
start-IsExclusive c (free, h) = record {
  holder = λ i held. let e = ap has_lock (h i) in ground (arith, e, held);
  owner = λ i taken. ground (arith, free, taken);
  seen = λ i fresh r. ground (arith, h i, r);
}

-- Where handlers run at once and the lock is left to them, whatever turns they have had: the next turn
-- of a handler leaves the standing bid as it is or raises it to the handler's own.
pub turn-raises :
    (bids : ℕ → Bid) (es : List Event) (i : ℕ) (c : Handlers)
    → AtStart c
    → ArePolite es
    → let v = play_events bids es c in
      let v' = happen bids (turn i) v in
      (standing v'.world ≡ standing v.world)
      ⊎ ((standing v.world < standing v'.world)
          × (standing v'.world ≡ (bids i).request.amount_lakhs))
unfolding happen
turn-raises bids es i c s p =
    let v = play_events bids es c in
    let x = play-IsExclusive bids es c p (start-IsExclusive c s) in
    elim (proceed-BidMoves i (bids i) (v.stage i) v.world) [
      | inl same ↦ inl same
      | inr (fresh, r, more, amount) ↦ inr (omega (arith, x.seen i fresh r, more), amount)
    ]
