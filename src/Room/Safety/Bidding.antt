-- ===== src/Room/Safety/Bidding.antt =====
-- What the bid pipeline lets through, and that it keeps the invariant.
use ipl_auction_app.Base.{
  ℕ, ℤ, ◌≤◌, ◌<◌, ◌≡◌, refl, inl, inr, true, Option, none, some, or_else, Option-cases, arith,
}
use ipl_auction_app.Rules.Types.{
  Player, FranchiseName, FranchiseState, BidValidationResult, valid, invalid,
}
use ipl_auction_app.Rules.Eligibility.{can_bid}
use ipl_auction_app.Rules.Caps.{IsAllowed, can_bid-IsAllowed}
use ipl_auction_app.Room.State.{World}
use ipl_auction_app.Room.Rows.{is_room_member}
use ipl_auction_app.Room.Bids.{BidRequest, passed, validate_bid, check_bid, accepts_bids}
use ipl_auction_app.Room.Safety.Invariant.{IsCached}
use ipl_auction_app.Room.Safety.Loads.{load_cached}

-- What the checks in front of the lock have established, for the franchise of the socket.
pub record BidFits (q : BidRequest) (f : FranchiseName) (w : World) : Type 0 where
  pub state : FranchiseState
  pub player : Player
  pub own : q.franchise ≡ some f
  pub stored : w.redis.franchise_state f ≡ some state
  pub up : w.redis.current_player ≡ some player
  pub same_player : q.player_id ≡ player.id
  pub accepting : accepts_bids w.redis.auction_state ≡ true
  pub base : player.base_price_lakhs ≤ q.amount_lakhs
  pub higher : or_else w.redis.current_bid 0 < q.amount_lakhs
  pub allowed : IsAllowed state player q.amount_lakhs
  pub member : is_room_member q.user_id w.db ≡ true

validate_bid-valid :
    (id amount : ℕ) (s : FranchiseState) (p : Player) (w : World)
    → (r : ℤ) → validate_bid id amount s p w.redis ≡ valid r
    → (accepts_bids w.redis.auction_state ≡ true)
      × (id ≡ p.id)
      × (p.base_price_lakhs ≤ amount)
      × (or_else w.redis.current_bid 0 < amount)
      × (can_bid s p amount ≡ valid r)
unfolding validate_bid
validate_bid-valid id amount s p w r h = ground arith

check_bid-own :
    (q : BidRequest) (f : FranchiseName) (w : World)
    → (check_bid q w).0 ≡ passed f
    → (q.franchise ≡ some f) × (is_room_member q.user_id w.db ≡ true)
unfolding check_bid
check_bid-own q f w h = ground arith

check_bid-state :
    (q : BidRequest) (f : FranchiseName) (w : World)
    → IsCached w
    → (check_bid q w).0 ≡ passed f
    → (s : FranchiseState) × (w.redis.franchise_state f ≡ some s)
unfolding check_bid
check_bid-state q f w c h = elim (Option-cases (w.redis.franchise_state f)) [
  | inl missing ↦ absurd (ground (arith, load_cached f w c))
  | inr found ↦ found
]

check_bid-player :
    (q : BidRequest) (f : FranchiseName) (w : World)
    → IsCached w
    → (check_bid q w).0 ≡ passed f
    → (p : Player) × (w.redis.current_player ≡ some p)
unfolding check_bid
check_bid-player q f w c h = elim (Option-cases w.redis.current_player) [
  | inl missing ↦ absurd (ground (arith, load_cached f w c))
  | inr found ↦ found
]

check_bid-validated :
    (q : BidRequest) (f : FranchiseName) (w : World) (s : FranchiseState) (p : Player)
    → IsCached w
    → (check_bid q w).0 ≡ passed f
    → w.redis.franchise_state f ≡ some s
    → w.redis.current_player ≡ some p
    → (r : ℤ) × (validate_bid q.player_id q.amount_lakhs s p w.redis ≡ valid r)
unfolding check_bid
check_bid-validated q f w s p c h hs hp =
    go (validate_bid q.player_id q.amount_lakhs s p w.redis) refl
  where
    go :
        (v : BidValidationResult)
        → validate_bid q.player_id q.amount_lakhs s p w.redis ≡ v
        → (r : ℤ) × (v ≡ valid r)
    go (valid r) e = (r, refl)
    go (invalid x) e = absurd (ground (arith, load_cached f w c))

-- Where Redis holds the state of every member's franchise, a bid that passes the checks in front of
-- the lock is a member's, for the player on the block, while bids are accepted, at least the base
-- price, above the standing bid, and allowed to its franchise by every squad rule.
pub check_bid-BidFits :
    (q : BidRequest) (f : FranchiseName) (w : World)
    → IsCached w
    → (check_bid q w).0 ≡ passed f
    → BidFits q f w
check_bid-BidFits q f w c h =
    let (own, member) = check_bid-own q f w h in
    let (s, hs) = check_bid-state q f w c h in
    let (p, hp) = check_bid-player q f w c h in
    let (r, hv) = check_bid-validated q f w s p c h hs hp in
    let v = validate_bid-valid q.player_id q.amount_lakhs s p w r hv in
    record {
      state = s;
      player = p;
      own = own;
      stored = hs;
      up = hp;
      same_player = v.1;
      accepting = v.0;
      base = v.2;
      higher = v.3;
      allowed = can_bid-IsAllowed s p q.amount_lakhs v.4;
      member = member;
    }

-- The checks load states that are there.
pub check_bid-stays : (q : BidRequest) (w : World) → IsCached w → (check_bid q w).1 ≡ w
unfolding check_bid
check_bid-stays q w c = go q.franchise refl
  where
    go : (o : Option FranchiseName) → q.franchise ≡ o → (check_bid q w).1 ≡ w
    go none e = ground arith
    go (some f) e = ground (arith, load_cached f w c)
