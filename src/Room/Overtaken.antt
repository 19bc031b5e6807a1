-- ===== src/Room/Overtaken.antt =====
-- A bid handler that the engine overtakes between its checks and the lock.
use ipl_auction_app.Base.{ℕ, ◌≡◌, none, some, arith}
use ipl_auction_app.Room.State.{QueueEntry, World}
use ipl_auction_app.Room.Engine.{present_player}
use ipl_auction_app.Room.Bids.{BidRequest, passed, check_bid, after_check}
use ipl_auction_app.Rules.Types.{FranchiseName}
use ipl_auction_app.Room.Safety.Invariant.{IsCached}
use ipl_auction_app.Room.Safety.Bidding.{check_bid-BidFits, check_bid-stays}
use ipl_auction_app.Room.Safety.Accepting.{commit-Accepted}
use ipl_auction_app.Room.Timer.{start_timer}

-- `place_bid` where a player is presented behind step 5.
unfoldable pub overtaken_bid : ℕ → BidRequest → QueueEntry → World → World
unfolding check_bid after_check present_player
overtaken_bid token q e w =
    after_check token q ((check_bid q w).0, present_player e (check_bid q w).1)

-- Where every member's franchise state is in Redis and the lock is free: if a bid passes its checks and
-- the engine then presents another player before the bid has the lock, the bid stands for that player,
-- whoever it was meant for, whatever the base price and the squad rules for that player are.
pub overtaken_bid-stands :
    (token : ℕ) (q : BidRequest) (f : FranchiseName) (e : QueueEntry) (w : World)
    → IsCached w
    → (check_bid q w).0 ≡ passed f
    → w.redis.bid_lock ≡ none
    → (let v = overtaken_bid token q e w in
        (v.redis.current_player ≡ some e.player)
        × (v.redis.current_bidder ≡ some f)
        × (v.redis.current_bid ≡ some q.amount_lakhs))
unfolding overtaken_bid after_check present_player start_timer
overtaken_bid-stands token q f e w c h free =
    let b = check_bid-BidFits q f w c h in
    let same = check_bid-stays q w c in
    let a = commit-Accepted token q f (present_player e w) free (omega (arith, b.higher)) in
    ground (arith, h, same, a.redis)
