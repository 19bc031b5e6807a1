-- ===== src/Client/Laws.antt =====
-- The browser's copy against the server.
use ipl_auction_app.Base.{◌≤◌, ◌≡◌, some, arith, ℤ, ==-refl}
use ipl_auction_app.Rules.Types.{same_refl, FranchiseState, Player, valid}
use ipl_auction_app.Rules.Eligibility.{get_bid_increment}
use ipl_auction_app.Franchise.{deducted, price_tier}
use ipl_auction_app.Room.State.{Redis}
use ipl_auction_app.Room.Bids.{validate_bid}
use ipl_auction_app.Client.Eligibility.{next_bid_amount, bid_eligibility}
use ipl_auction_app.Client.{AuctionStore, PlayerSoldPayload, won, mark_player_sold}

-- When the sale of a player to the user's franchise reaches the browser with the squad size and the
-- wallet that the server deducted, the browser's franchise state becomes the server's.
pub mark_player_sold-deducted :
    (payload : PlayerSoldPayload) (mine : FranchiseState) (s : AuctionStore)
    → s.my_franchise_state ≡ some mine
    → payload.winning_franchise ≡ some mine.franchise
    → (let updated = deducted mine payload.final_price_lakhs payload.player in
        payload.updated_squad ≡ record {
          total_players_acquired = updated.squad_count;
          wallet_remaining_lakhs = updated.wallet_remaining_lakhs;
        })
    → (mark_player_sold payload s).my_franchise_state
      ≡ some (deducted mine payload.final_price_lakhs payload.player)
unfolding mark_player_sold deducted price_tier won
mark_player_sold-deducted payload mine s h f u =
    rw (h, f, same_refl mine.franchise, u) (ground arith)

-- The server's keys hold the bid and the state that the browser shows.
pub record IsInSync (s : AuctionStore) (r : Redis) : Type 0 where
  pub bid : r.current_bid ≡ some s.current_bid_lakhs
  pub state : r.auction_state ≡ some s.auction_state

-- An enabled bid button is not refused: where the browser is in sync with the server, the base price
-- is above zero, the current bid is nothing or at least the base price, and the browser's eligibility
-- test passes, the server's validator accepts the browser's next amount for the same franchise state,
-- with the same remainder.
pub bid_eligibility-validate_bid :
    (s : AuctionStore) (r : Redis) (p : Player) (mine : FranchiseState) (rest : ℤ)
    → IsInSync s r
    → s.current_player ≡ some p
    → s.my_franchise_state ≡ some mine
    → 1 ≤ p.base_price_lakhs
    → (1 ≤ s.current_bid_lakhs → p.base_price_lakhs ≤ s.current_bid_lakhs)
    → bid_eligibility s ≡ valid rest
    → validate_bid p.id (next_bid_amount s) mine p r ≡ valid rest
unfolding bid_eligibility validate_bid next_bid_amount get_bid_increment
bid_eligibility-validate_bid s r p mine rest i hp hm base ge e =
    ground (arith, i.bid, i.state, ==-refl p.id)
