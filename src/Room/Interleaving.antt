-- ===== src/Room/Interleaving.antt =====
-- Bid handlers of apps/backend/src/socket/handlers/auctionHandler.ts that run at once: steps 6 to 12 of
-- `auction:bid_placed`, cut at the calls that are awaited. A handler is named by the token of its lock,
-- which is that of one process whose Redis server is out.
pub mod Exclusive
pub mod Lost
use ipl_auction_app.Base.{
  ℕ, ◌==◌, leb, Bool, true, false, if◌then◌else◌, List, [], ◌∷◌, some, or_else,
}
use ipl_auction_app.Rules.Types.{FranchiseName, bid_too_low, auction_not_active}
use ipl_auction_app.Room.State.{
  AuctionState, World, Message, refetch, record_bid, emit, spawn, set_redis,
}
use ipl_auction_app.Room.Bids.{BidRequest, acquire_bid_lock, release_bid_lock}
use ipl_auction_app.Room.Timer.{reset_timer}

-- A handler waits in front of the lock, has it, has read the standing bid, is about to leave by the
-- `finally` block, has written the amount, the bidder and the state, has released the lock, or has
-- ended.
pub data Stage : Type 0 where
  checked : Stage
  locked : Stage
  reread : ℕ → Stage
  too_low : Stage
  amount_set : Stage
  bidder_set : Stage
  written : Stage
  released : Stage
  ended : Stage

-- A bid that passed its checks.
pub record Bid : Type 0 where
  pub request : BidRequest
  pub franchise : FranchiseName

abbrev pub standing : World → ℕ
standing w = or_else w.redis.current_bid 0

-- The three commands of the pipeline of step 8, which `exec` of apps/backend/src/redis/client.ts awaits
-- one by one.
unfoldable pub put_amount : Bid → World → World
unfolding set_redis
put_amount b = set_redis λ r. record r { current_bid = some b.request.amount_lakhs }

unfoldable pub put_bidder : Bid → World → World
unfolding set_redis
put_bidder b = set_redis λ r. record r { current_bidder = some b.franchise }

unfoldable pub put_state : World → World
unfolding set_redis
put_state = set_redis λ r. record r { auction_state = some AuctionState.bidding }

-- Steps 10 to 12.
unfoldable pub announce_bid : Bid → World → World
unfolding emit spawn
announce_bid b w =
    let q = b.request in
    spawn (record_bid b.franchise q.player_id q.amount_lakhs)
      (reset_timer refetch (emit (Message.bid_update q.player_id q.amount_lakhs b.franchise) w))

-- The next stretch of a handler.
unfoldable pub proceed : ℕ → Bid → Stage → World → Stage × World
unfolding acquire_bid_lock put_amount put_bidder put_state announce_bid emit
proceed token b checked w =
    let (got, w') = acquire_bid_lock token w in
    if got then (locked, w') else (ended, emit (Message.bid_rejected auction_not_active) w)
proceed token b locked w = (reread (standing w), w)
proceed token b (reread fresh) w =
    if leb b.request.amount_lakhs fresh
    then (too_low, emit (Message.bid_rejected bid_too_low) w)
    else (amount_set, put_amount b w)
proceed token b too_low w = (ended, release_bid_lock token w)
proceed token b amount_set w = (bidder_set, put_bidder b w)
proceed token b bidder_set w = (written, put_state w)
proceed token b written w = (released, release_bid_lock token w)
proceed token b released w = (ended, announce_bid b w)
proceed token b ended w = (ended, w)

-- The room and where every handler stands.
pub record Handlers : Type 0 where
  pub world : World
  pub stage : ℕ → Stage

-- A handler has its turn, or anything else happens to the room.
pub data Event : Type 0 where
  turn : ℕ → Event
  elsewhere : (World → World) → Event

unfoldable pub happen : (ℕ → Bid) → Event → Handlers → Handlers
unfolding proceed
happen bids (turn i) c =
    let (s, w) = proceed i (bids i) (c.stage i) c.world in
    record { world = w; stage = λ j. if j == i then s else c.stage j }
happen bids (elsewhere g) c = record c { world = g c.world }

unfoldable pub play_events : (ℕ → Bid) → List Event → Handlers → Handlers
unfolding happen
play_events bids [] c = c
play_events bids (e ∷ es) c = play_events bids es (happen bids e c)
