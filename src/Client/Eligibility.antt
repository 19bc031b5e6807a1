-- ===== src/Client/Eligibility.antt =====
-- apps/frontend/src/hooks/useBidEligibility.ts.
use ipl_auction_app.Base.{ℕ, ◌+◌, ◌==◌, Bool, not, if◌then◌else◌, none, some}
use ipl_auction_app.Rules.Types.{BidValidationResult, invalid, auction_not_active}
use ipl_auction_app.Rules.Eligibility.{get_bid_increment, can_bid}
use ipl_auction_app.Room.State.{AuctionState}
use ipl_auction_app.Client.{AuctionStore}

-- `nextBidAmount` of the hook.
unfoldable pub next_bid_amount : AuctionStore → ℕ
next_bid_amount s = elim s.current_player [
  | none ↦ 0
  | some player ↦
      if s.current_bid_lakhs == 0
      then player.base_price_lakhs
      else s.current_bid_lakhs + get_bid_increment s.current_bid_lakhs
]

abbrev is_open : AuctionState → Bool
is_open AuctionState.player_up = Bool.true
is_open AuctionState.bidding = Bool.true
is_open _ = Bool.false

-- `eligibility` of the hook: its reason, or what the bid leaves.
unfoldable pub bid_eligibility : AuctionStore → BidValidationResult
unfolding next_bid_amount
bid_eligibility s =
    if not (is_open s.auction_state) then invalid auction_not_active else elim s.current_player [
      | none ↦ invalid auction_not_active
      | some player ↦ elim s.my_franchise_state [
        | none ↦ invalid auction_not_active
        | some mine ↦ can_bid mine player (next_bid_amount s)
      ]
    ]
