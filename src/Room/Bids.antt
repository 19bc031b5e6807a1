-- ===== src/Room/Bids.antt =====
-- apps/backend/src/services/bidValidator.ts, and the `auction:bid_placed` handler of
-- apps/backend/src/socket/handlers/auctionHandler.ts. The handler is cut at the lock: `check_bid` is
-- what it does before, and `write_bid` what it does under the lock and after.
pub mod Locking
use ipl_auction_app.Base.{ℕ, leb, ltb, ◌==◌, Bool, not, if◌then◌else◌, Option, none, some, or_else}
use ipl_auction_app.Rules.Types.{
  FranchiseName, FranchiseState, Player, BidRejectionReason, BidValidationResult, valid, invalid,
  bid_too_low, auction_not_active,
}
use ipl_auction_app.Rules.Eligibility.{can_bid}
use ipl_auction_app.Room.State.{
  AuctionState, RoomStatus, Redis, Room, World, refetch, record_bid, emit, spawn, set_redis, set_db,
  Message,
}
use ipl_auction_app.Room.Rows.{is_room_member, get_room_member_by_franchise, insert_bid}
use ipl_auction_app.Room.Wallets.{load_franchise_state}
use ipl_auction_app.Room.Timer.{reset_timer}

abbrev pub accepts_bids : Option AuctionState → Bool
accepts_bids (some AuctionState.player_up) = Bool.true
accepts_bids (some AuctionState.bidding) = Bool.true
accepts_bids _ = Bool.false

unfoldable pub validate_bid : ℕ → ℕ → FranchiseState → Player → Redis → BidValidationResult
validate_bid player_id amount state current_player r =
    if not (accepts_bids r.auction_state)
    then invalid auction_not_active
    else if not (player_id == current_player.id)
    then invalid auction_not_active
    else if ltb amount current_player.base_price_lakhs
    then invalid bid_too_low
    else if leb amount (or_else r.current_bid 0)
    then invalid bid_too_low
    else can_bid state current_player amount

-- The payload, with the socket's user and franchise.
pub record BidRequest : Type 0 where
  pub user_id : ℕ
  pub franchise : Option FranchiseName
  pub player_id : ℕ
  pub amount_lakhs : ℕ

-- `ignored` is a return without a message.
pub data BidCheck : Type 0 where
  passed : FranchiseName → BidCheck
  rejected : BidRejectionReason → BidCheck
  ignored : BidCheck

abbrev pub is_waiting_host : RoomStatus → Bool
is_waiting_host RoomStatus.waiting_host = Bool.true
is_waiting_host _ = Bool.false

check_validated : FranchiseName → BidValidationResult → BidCheck
check_validated f (valid rest) = passed f
check_validated f (invalid reason) = rejected reason

check_player : BidRequest → FranchiseName → Option FranchiseState × World → BidCheck × World
unfolding check_validated
check_player q f (none, w) = (rejected auction_not_active, w)
check_player q f (some s, w) = elim w.redis.current_player [
  | none ↦ (rejected auction_not_active, w)
  | some p ↦ (check_validated f (validate_bid q.player_id q.amount_lakhs s p w.redis), w)
]

check_room : BidRequest → FranchiseName → Room → World → BidCheck × World
unfolding check_player
check_room q f room w =
    if not (is_room_member q.user_id w.db)
    then (rejected auction_not_active, w)
    else if is_waiting_host room.status
    then (rejected auction_not_active, w)
    else check_player q f (load_franchise_state f w)

-- Steps 1 to 5 of the pipeline.
unfoldable pub check_bid : BidRequest → World → BidCheck × World
unfolding check_room
check_bid q w = elim q.franchise [
  | none ↦ (rejected auction_not_active, w)
  | some f ↦ elim w.db.room [ none ↦ (ignored, w) | some room ↦ check_room q f room w ]
]

-- Step 6: `SET … NX`, with the token of this attempt. The lock is that of a process whose Redis server is
-- out, which keeps it in memory, without its expiry. On a healthy server the memory keeps a lock that
-- was given back until its time is over; Store has that.
unfoldable pub acquire_bid_lock : ℕ → World → Bool × World
unfolding set_redis
acquire_bid_lock token w = elim w.redis.bid_lock [
  | some _ ↦ (Bool.false, w)
  | none ↦ (Bool.true, set_redis (λ r. record r { bid_lock = some token }) w)
]

abbrev pub unlocked : ℕ → Option ℕ → Option ℕ
unlocked token none = none
unlocked token (some t) = if t == token then none else some t

-- `releaseLock`, without the server: only the token's own lock is deleted.
unfoldable pub release_bid_lock : ℕ → World → World
unfolding set_redis
release_bid_lock token = set_redis (λ r. record r { bid_lock = unlocked token r.bid_lock })

-- Steps 7 to 12, under the lock with this token; every path releases it.
unfoldable pub write_bid : ℕ → BidRequest → FranchiseName → World → World
unfolding set_redis emit spawn
write_bid token q f w =
    if leb q.amount_lakhs (or_else w.redis.current_bid 0)
    then release_bid_lock token (emit (Message.bid_rejected bid_too_low) w)
    else spawn (record_bid f q.player_id q.amount_lakhs) (
        reset_timer refetch (
          emit (Message.bid_update q.player_id q.amount_lakhs f) (
            release_bid_lock token (
              set_redis
                (λ r. record r {
                  current_bid = some q.amount_lakhs;
                  current_bidder = some f;
                  auction_state = some AuctionState.bidding;
                })
                w))))

-- From the lock on.
unfoldable pub commit_bid : ℕ → BidRequest → FranchiseName → World → World
unfolding acquire_bid_lock emit
commit_bid token q f w =
    let (got, w') = acquire_bid_lock token w in
    if got then write_bid token q f w' else emit (Message.bid_rejected auction_not_active) w

unfoldable pub after_check : ℕ → BidRequest → BidCheck × World → World
unfolding emit
after_check token q (passed f, w) = commit_bid token q f w
after_check token q (rejected reason, w) = emit (Message.bid_rejected reason) w
after_check token q (ignored, w) = w

-- The handler, with nothing in between.
unfoldable pub place_bid : ℕ → BidRequest → World → World
unfolding check_bid after_check
place_bid token q w = after_check token q (check_bid q w)

-- The audit write behind the bid.
unfoldable pub record_bid_row : FranchiseName → ℕ → ℕ → World → World
unfolding set_db
record_bid_row f player amount w = elim (get_room_member_by_franchise f w.db) [
  | none ↦ w
  | some m ↦
      set_db
        (insert_bid (record { player_id = player; room_member_id = m.id; amount_lakhs = amount })) w
]
